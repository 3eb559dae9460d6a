-- ===== src/Matchmaker/RequestQueue/Fifo.antt =====
-- matchmaker/latency.go: the queues as bounded first-in-first-out queues, one for each node.
use pmi.Base.{
  ℕ, String, ◌≡◌, refl, sym, ap, ◌∙◌, subst, Bool, Option, none, some, List, [], ◌∷◌, ◌++◌, ltb,
  if◌then◌else◌, length, drop, get_elem?, ite, text_discrete, insert, StringMap, inl, inr,
  Bool-cases,
}
use mathlib.Core.Path.{ap₂}
use pmi.Matchmaker.RequestQueue.{
  RequestQueue, Channel, new_request_queue, channel_size, enqueue, dequeue, get_queue_size,
  remove_queue, channel_or_new, offer, poll, buffered,
}

module _ {ℓ} (A : Type ℓ) where
  pub data Call : Type ℓ where
    enqueue_call : String → A → Call
    dequeue_call : String → Call
    size_call : String → Call
    remove_call : String → Call

  pub data Answer : Type ℓ where
    sent : Bool → Answer
    received : Option A → Answer
    size : ℕ → Answer
    done : Answer

-- The queues that the calls are about: a list for each node, and one bound for all.
abbrev pub Queues {ℓ} : Type ℓ → Type ℓ
Queues A = String → List A

module _ {ℓ} {A : Type ℓ} where
  -- A call of the program's.
  unfoldable pub step : Call A → RequestQueue A → RequestQueue A × Answer A
  step (enqueue_call node_id req) rq = let (rq', b) = enqueue node_id req rq in (rq', sent b)
  step (dequeue_call node_id) rq = let (rq', req) = dequeue node_id rq in (rq', received req)
  step (size_call node_id) rq = (rq, size (get_queue_size node_id rq))
  step (remove_call node_id) rq = (remove_queue node_id rq, done)

  replace : String → List A → Queues A → Queues A
  replace node_id waiting q i = ite (text_discrete node_id i) waiting (q i)

  spec_step : ℕ → Call A → Queues A → Queues A × Answer A
  unfolding replace
  spec_step bound (enqueue_call node_id req) q =
      let room = ltb (length (q node_id)) bound in
      (replace node_id (if room then q node_id ++ (req ∷ []) else q node_id) q, sent room)
  spec_step bound (dequeue_call node_id) q =
      (replace node_id (drop 1 (q node_id)) q, received (get_elem? (q node_id) 0))
  spec_step bound (size_call node_id) q = (q, size (length (q node_id)))
  spec_step bound (remove_call node_id) q = (replace node_id [] q, done)

  unfoldable pub run : List (Call A) → RequestQueue A → List (Answer A)
  unfolding step
  run [] rq = []
  run (c ∷ later) rq = let (rq', a) = step c rq in a ∷ run later rq'

  unfoldable pub spec_run : ℕ → List (Call A) → Queues A → List (Answer A)
  unfolding spec_step
  spec_run bound [] q = []
  spec_run bound (c ∷ later) q = let (q', a) = spec_step bound c q in a ∷ spec_run bound later q'

  -- The channel of a node holds what the node's queue holds; a node with an empty queue may have
  -- none.
  IsChannel : ℕ → List A → Option (Channel A) → Type ℓ
  IsChannel bound waiting none = waiting ≡ []
  IsChannel bound waiting (some ch) = (ch.buffer ≡ waiting) × (ch.capacity ≡ bound)

  record IsRefined (q : Queues A) (rq : RequestQueue A) : Type ℓ where
    channel : (i : String) → IsChannel (channel_size rq.max_queue_size) (q i) (rq.queues i)

  Steps : Call A → Queues A → RequestQueue A → Type ℓ
  Steps c q rq =
      let (rq', a) = step c rq in
      let (q', b) = spec_step (channel_size rq.max_queue_size) c q in
      (a ≡ b) × IsRefined q' rq' × (rq'.max_queue_size ≡ rq.max_queue_size)

  -- The entry of one node changes, and its queue with it.
  replace-IsRefined :
      (node_id : String) (waiting : List A) (entry : Option (Channel A)) (q : Queues A)
      (rq rq' : RequestQueue A)
      → rq'.max_queue_size ≡ rq.max_queue_size
      → ((i : String) → rq'.queues i ≡ ite (text_discrete node_id i) entry (rq.queues i))
      → IsChannel (channel_size rq.max_queue_size) waiting entry
      → IsRefined q rq
      → IsRefined (replace node_id waiting q) rq'
  unfolding replace
  replace-IsRefined node_id waiting entry q rq rq' m e c h = record {
    channel = λ i.
        rw (m, e i)
          (elim (text_discrete node_id i)
            as (λ d.
              IsChannel (channel_size rq.max_queue_size) (ite d waiting (q i))
                (ite d entry (rq.queues i))) [ yes _ ↦ c | no _ ↦ h.channel i ]);
  }

  -- What `select` does with a request that is sent to a channel.
  abbrev IsOffered : ℕ → List A → A → Channel A × Bool → Type ℓ
  IsOffered bound waiting req (ch, b) =
      let room = ltb (length waiting) bound in
      (b ≡ room)
      × (ch.buffer ≡ (if room then waiting ++ (req ∷ []) else waiting))
      × (ch.capacity ≡ bound)

  offer_lem : (req : A) (ch : Channel A) → IsOffered ch.capacity ch.buffer req (offer req ch)
  unfolding offer
  offer_lem req ch = elim (Bool-cases (ltb (length ch.buffer) ch.capacity)) [
    | inl e ↦ rw e (refl, refl, refl)
    | inr e ↦ rw e (refl, refl, refl)
  ]

  offered :
      (limit : ℕ) (waiting : List A) (req : A) (entry : Option (Channel A))
      → IsChannel (channel_size limit) waiting entry
      → IsOffered (channel_size limit) waiting req (offer req (channel_or_new limit entry))
  unfolding IsChannel channel_or_new
  offered limit waiting req none e =
      rw e (offer_lem req (record { buffer = []; capacity = channel_size limit }))
  offered limit waiting req (some ch) (e, f) =
      let IsSo = λ (bound : ℕ) (w : List A). IsOffered bound w req (offer req ch) in
      subst (λ bound. IsSo bound waiting) f (subst (IsSo ch.capacity) e (offer_lem req ch))

  polled :
      (limit : ℕ) (waiting : List A) (ch : Channel A)
      → IsChannel limit waiting (some ch)
      → ((poll ch).1 ≡ get_elem? waiting 0) × IsChannel limit (drop 1 waiting) (some (poll ch).0)
  unfolding poll IsChannel
  polled limit [] ch (e, f) = rw e (refl, (refl, f))
  polled limit (req ∷ later) ch (e, f) = rw e (refl, (refl, f))

  dequeue-none :
      (node_id : String) (rq : RequestQueue A)
      → rq.queues node_id ≡ none
      → dequeue node_id rq ≡ (rq, none)
  unfolding dequeue
  dequeue-none node_id rq e = rw (dequeue, e) refl

  dequeue-some :
      (node_id : String) (rq : RequestQueue A) (ch : Channel A)
      → rq.queues node_id ≡ some ch
      → dequeue node_id rq
        ≡ (record rq { queues = insert node_id (poll ch).0 rq.queues }, (poll ch).1)
  unfolding dequeue
  dequeue-some node_id rq ch e = rw (dequeue, e) refl

  abbrev IsDequeued : String → Queues A → RequestQueue A → RequestQueue A × Option A → Type ℓ
  IsDequeued node_id q rq (rq', req) =
      (received req ≡ received (get_elem? (q node_id) 0))
      × IsRefined (replace node_id (drop 1 (q node_id)) q) rq'
      × (rq'.max_queue_size ≡ rq.max_queue_size)

  none_at :
      (node_id i : String) (queues : StringMap (Channel A))
      → queues node_id ≡ none
      → queues i ≡ ite (text_discrete node_id i) none (queues i)
  none_at node_id i queues e =
      elim (text_discrete node_id i) as (λ d. queues i ≡ ite d none (queues i)) [
        | yes f ↦ ap queues (sym f) ∙ e
        | no _ ↦ refl
      ]

  dequeue_refines :
      (node_id : String) (q : Queues A) (rq : RequestQueue A)
      → IsRefined q rq
      → (entry : Option (Channel A)) → rq.queues node_id ≡ entry
      → IsDequeued node_id q rq (dequeue node_id rq)
  unfolding IsChannel
  dequeue_refines node_id q rq h none e =
      let nothing : q node_id ≡ [] =
        subst (IsChannel (channel_size rq.max_queue_size) (q node_id)) e (h.channel node_id) in
      let rest : drop 1 (q node_id) ≡ [] = ap (drop 1) nothing in
      subst (IsDequeued node_id q rq) (sym (dequeue-none node_id rq e)) (
        ap received (sym (ap (λ (l : List A). get_elem? l 0) nothing)),
        replace-IsRefined node_id (drop 1 (q node_id)) none q rq rq refl
            (λ i. none_at node_id i rq.queues e) rest h,
        refl,
      )
  dequeue_refines node_id q rq h (some ch) e =
      let kept =
        subst (IsChannel (channel_size rq.max_queue_size) (q node_id)) e (h.channel node_id) in
      let (f, g) = polled (channel_size rq.max_queue_size) (q node_id) ch kept in
      subst (IsDequeued node_id q rq) (sym (dequeue-some node_id rq ch e)) (
        ap received f,
        replace-IsRefined node_id (drop 1 (q node_id)) (some (poll ch).0) q rq _ refl (λ i. refl) g
            h,
        refl,
      )

  length-buffered :
      (bound : ℕ) (waiting : List A) (entry : Option (Channel A))
      → IsChannel bound waiting entry
      → length (buffered entry) ≡ length waiting
  unfolding buffered IsChannel
  length-buffered bound waiting none e = ap length (sym e)
  length-buffered bound waiting (some ch) (e, f) = ap length e

  step_refines : (c : Call A) (q : Queues A) (rq : RequestQueue A) → IsRefined q rq → Steps c q rq
  unfolding step spec_step Steps enqueue remove_queue get_queue_size IsChannel
  step_refines (enqueue_call node_id req) q rq h =
      let entry = rq.queues node_id in
      let (e, f, g) = offered rq.max_queue_size (q node_id) req entry (h.channel node_id) in
      let ch = (offer req (channel_or_new rq.max_queue_size entry)).0 in
      (ap sent e, replace-IsRefined node_id _ (some ch) q rq _ refl (λ i. refl) (f, g) h, refl)
  step_refines (dequeue_call node_id) q rq h =
      dequeue_refines node_id q rq h (rq.queues node_id) refl
  step_refines (size_call node_id) q rq h =
      (ap size (length-buffered _ (q node_id) (rq.queues node_id) (h.channel node_id)), h, refl)
  step_refines (remove_call node_id) q rq h =
      (refl, replace-IsRefined node_id [] none q rq _ refl (λ i. refl) refl h, refl)

  run_from :
      (calls : List (Call A)) (q : Queues A) (rq : RequestQueue A)
      → IsRefined q rq
      → run calls rq ≡ spec_run (channel_size rq.max_queue_size) calls q
  unfolding run spec_run Steps
  run_from [] q rq h = refl
  run_from (c ∷ later) q rq h =
      let (e, k, m) = step_refines c q rq h in
      let (rq', a) = step c rq in
      let (q', b) = spec_step (channel_size rq.max_queue_size) c q in
      ap₂ ◌∷◌ e (run_from later q' rq' k ∙ ap (λ size. spec_run (channel_size size) later q') m)

  -- Any calls of `Enqueue`, `Dequeue`, `GetQueueSize` and `RemoveQueue`, for any nodes, answer as
  -- first-in-first-out queues do, one for each node and at first empty, each of which takes so many
  -- requests as the channels are made for, and refuses the others.
  pub run_refines :
      (max_queue_size : ℕ) (calls : List (Call A))
      → run calls (new_request_queue max_queue_size)
        ≡ spec_run (channel_size max_queue_size) calls (λ _. [])
  unfolding new_request_queue IsChannel
  run_refines max_queue_size calls =
      run_from calls (λ _. []) (new_request_queue max_queue_size) (record { channel = λ _. refl })

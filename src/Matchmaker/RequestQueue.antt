-- ===== src/Matchmaker/RequestQueue.antt =====
-- matchmaker/latency.go, `RequestQueue`: a buffered channel of requests for each node. A size that
-- is not positive is 0 here.
mod Fifo
mod Examples
use pmi.Base.{
  ℕ, String, Bool, true, false, Option, none, some, List, [], ◌∷◌, ◌++◌, ltb, leb, if◌then◌else◌,
  length, StringMap, empty, insert, delete,
}

module _ {ℓ} (A : Type ℓ) where
  -- `chan *QueuedRequest`, by what waits in it.
  pub record Channel : Type ℓ where
    pub buffer : List A
    pub capacity : ℕ

  pub record RequestQueue : Type ℓ where
    pub queues : StringMap Channel
    pub max_queue_size : ℕ

pub channel_size : ℕ → ℕ
channel_size size = if leb size 0 then 100 else size

module _ {ℓ} {A : Type ℓ} where
  pub new_request_queue : ℕ → RequestQueue A
  new_request_queue max_queue_size = record { queues = empty; max_queue_size = max_queue_size }

  channel_or_new : ℕ → Option (Channel A) → Channel A
  unfolding channel_size
  channel_or_new size none = record { buffer = []; capacity = channel_size size }
  channel_or_new size (some ch) = ch

  -- `select { case ch <- req: return true; default: return false }`
  offer : A → Channel A → Channel A × Bool
  offer req ch =
      if ltb (length ch.buffer) ch.capacity
      then (record ch { buffer = ch.buffer ++ (req ∷ []) }, true)
      else (ch, false)

  pub enqueue : String → A → RequestQueue A → RequestQueue A × Bool
  unfolding channel_or_new offer
  enqueue node_id req rq =
      let (ch, sent) = offer req (channel_or_new rq.max_queue_size (rq.queues node_id)) in
      (record rq { queues = insert node_id ch rq.queues }, sent)

  -- `select { case req := <-ch: return req; default: return nil }`
  poll : Channel A → Channel A × Option A
  poll ch = elim ch.buffer [
    | [] ↦ (ch, none)
    | req ∷ later ↦ (record ch { buffer = later }, some req)
  ]

  pub dequeue : String → RequestQueue A → RequestQueue A × Option A
  unfolding poll
  dequeue node_id rq = elim (rq.queues node_id) [
    | none ↦ (rq, none)
    | some ch ↦
        let (ch', req) = poll ch in (record rq { queues = insert node_id ch' rq.queues }, req)
  ]

  buffered : Option (Channel A) → List A
  buffered none = []
  buffered (some ch) = ch.buffer

  pub get_queue_size : String → RequestQueue A → ℕ
  unfolding buffered
  get_queue_size node_id rq = length (buffered (rq.queues node_id))

  pub remove_queue : String → RequestQueue A → RequestQueue A
  remove_queue node_id rq = record rq { queues = delete node_id rq.queues }

-- ===== src/Gateway/RequestDedup/Invariant.antt =====
-- gateway/request_dedup.go: what holds of the requests in flight after any calls.
use pmi.Base.{
  delete-insert, ℕ, ◌+◌, ◌≤◌, ◌<◌, String, ◌≡◌, refl, sym, ap, ◌∙◌, fun_ext, subst, inl, inr, true,
  false, Option, none, some, List, [], ◌∷◌, arith, ◌==◌, if◌then◌else◌, Option-cases, insert,
  delete,
}
use mathlib.Core.Option.{some-injective}
use pmi.Gateway.RequestDedup.{
  InflightRequest, RequestDeduplicator, new_request_deduplicator, begin_request, complete_request,
  get_node_for_request, cleanup,
}

-- An entry's channel has been made and is open, no node is known yet, and someone waits on it.
pub record IsOpen (rd : RequestDeduplicator) (req : InflightRequest) : Type 0 where
  pub made : req.done < rd.channels
  pub not_closed : rd.closed req.done ≡ false
  pub no_node : req.node_id ≡ ""
  pub counted : 0 < req.ref_count

pub record Inv (rd : RequestDeduplicator) : Type 0 where
  pub entry : (key : String) (req : InflightRequest) → rd.inflight key ≡ some req → IsOpen rd req
  pub distinct :
      (k j : String) (req other : InflightRequest)
      → rd.inflight k ≡ some req
      → rd.inflight j ≡ some other
      → req.done ≡ other.done
      → k ≡ j
  pub fresh : (c : ℕ) → rd.channels ≤ c → rd.closed c ≡ false

new-Inv : Inv new_request_deduplicator
unfolding new_request_deduplicator
new-Inv = record {
  entry = λ key req h. absurd (cc);
  distinct = λ k j req other h. absurd (cc);
  fresh = λ c h. refl;
}

-- What `begin_request` leaves, by whether the key was in flight.
begin_joined :
    (key : String) (rd : RequestDeduplicator) (old : InflightRequest)
    → rd.inflight key ≡ some old
    → (begin_request key rd).0 ≡ record rd {
      inflight = insert key (record old { ref_count = old.ref_count + 1 }) rd.inflight;
    }
unfolding begin_request
begin_joined key rd old e = ground arith

joined-Inv :
    (key : String) (rd : RequestDeduplicator) (old : InflightRequest)
    → rd.inflight key ≡ some old
    → Inv rd
    → Inv (record rd {
      inflight = insert key (record old { ref_count = old.ref_count + 1 }) rd.inflight;
    })
joined-Inv key rd old e v = record {
  entry = λ k req h. ground (arith, v.entry k req, v.entry key old e);
  distinct = λ k j req other h g d.
      ground
        (arith, v.distinct k j req other, v.distinct key j old other e, v.distinct k key req old);
  fresh = v.fresh;
}

fresh-Inv :
    (key : String) (rd : RequestDeduplicator)
    → Inv rd
    → Inv (record rd {
      inflight =
          insert key
            (record { done = rd.channels; err = none; node_id = ""; ref_count = 1 })
            rd.inflight;
      channels = rd.channels + 1;
    })
fresh-Inv key rd v = record {
  entry = λ k req h. ground (arith, v.entry k req, v.fresh rd.channels);
  distinct = λ k j req other h g d.
      ground (arith, v.distinct k j req other, v.entry k req, v.entry j other);
  fresh = λ c h. v.fresh c (omega arith);
}

-- Joining or opening a request keeps the invariant.
begin_request-Inv :
    (key : String) (rd : RequestDeduplicator) → Inv rd → Inv (begin_request key rd).0
unfolding begin_request
begin_request-Inv key rd v = elim (Option-cases (rd.inflight key)) [
  | inl e ↦ rw (e, begin_request) (fresh-Inv key rd v)
  | inr (old, e) ↦ rw (begin_joined key rd old e) (joined-Inv key rd old e v)
]

closed-Inv :
    (key : String) (rd : RequestDeduplicator) (old : InflightRequest)
    → rd.inflight key ≡ some old
    → Inv rd
    → Inv (record rd {
      inflight = delete key rd.inflight;
      closed = λ d. if d == old.done then true else rd.closed d;
    })
closed-Inv key rd old e v = record {
  entry = λ k req h. ground (arith, v.entry k req, v.distinct k key req old);
  distinct = λ k j req other h g d. ground (arith, v.distinct k j req other);
  fresh = λ c h. ground (arith, v.fresh c, v.entry key old e);
}

complete_found :
    (key node_id : String) (err : Option String) (rd : RequestDeduplicator) (old : InflightRequest)
    → rd.inflight key ≡ some old
    → rd.closed old.done ≡ false
    → complete_request key node_id err rd
      ≡ some (record rd {
        inflight = delete key rd.inflight;
        closed = λ d. if d == old.done then true else rd.closed d;
      })
unfolding complete_request
complete_found key node_id err rd old e c =
    rw (e, complete_request)
      (rw (c, complete_request)
        (rw (delete-insert key (record old { err = err; node_id = node_id }) rd.inflight)))

-- Completing a request closes no channel twice, and keeps the invariant.
complete_request-Inv :
    (key node_id : String) (err : Option String) (rd : RequestDeduplicator)
    → Inv rd
    → (rd' : RequestDeduplicator) × (complete_request key node_id err rd ≡ some rd') × Inv rd'
unfolding complete_request
complete_request-Inv key node_id err rd v = elim (Option-cases (rd.inflight key)) [
  | inl e ↦ (rd, rw (e, complete_request), v)
  | inr (old, e) ↦ (
    _,
    complete_found key node_id err rd old e (v.entry key old e).not_closed,
    closed-Inv key rd old e v,
  )
]

cleanup_at :
    (rd : RequestDeduplicator) (key : String) → Inv rd → (cleanup rd).inflight key ≡ rd.inflight key
unfolding cleanup
cleanup_at rd key v = elim (Option-cases (rd.inflight key)) [
  | inl e ↦ rw e
  | inr (old, e) ↦ ground (arith, v.entry key old e)
]

cleanup_idle : (rd : RequestDeduplicator) → Inv rd → cleanup rd ≡ rd
unfolding cleanup
cleanup_idle rd v = λ i. record rd { inflight = fun_ext (λ k. cleanup_at rd k v) i }

-- The calls that a program makes.
pub data Call : Type 0 where
  begin : String → Call
  complete : String → String → Option String → Call
  tick : Call

unfoldable pub step : Call → RequestDeduplicator → Option RequestDeduplicator
step (begin key) rd = some (begin_request key rd).0
step (complete key node_id err) rd = complete_request key node_id err rd
step tick rd = some (cleanup rd)

unfoldable pub run : List Call → RequestDeduplicator → Option RequestDeduplicator
run [] rd = some rd
run (c ∷ cs) rd = elim (step c rd) [ none ↦ none | some rd' ↦ run cs rd' ]

step-Inv :
    (c : Call) (rd : RequestDeduplicator)
    → Inv rd
    → (rd' : RequestDeduplicator) × (step c rd ≡ some rd') × Inv rd'
unfolding step
step-Inv (begin key) rd v = (_, refl, begin_request-Inv key rd v)
step-Inv (complete key node_id err) rd v = complete_request-Inv key node_id err rd v
step-Inv tick rd v = (rd, ap some (cleanup_idle rd v), v)

run-Inv :
    (cs : List Call) (rd : RequestDeduplicator)
    → Inv rd
    → (rd' : RequestDeduplicator) × (run cs rd ≡ some rd') × Inv rd'
unfolding run
run-Inv [] rd v = (rd, refl, v)
run-Inv (c ∷ cs) rd v =
    let (rd', stepped, v') = step-Inv c rd v in rw (stepped, run) (run-Inv cs rd' v')

-- No sequence of calls, cleanup rounds included, closes a channel twice, which would panic.
pub run_total :
    (cs : List Call) → (rd : RequestDeduplicator) × (run cs new_request_deduplicator ≡ some rd)
run_total cs = let (rd, ran, v) = run-Inv cs new_request_deduplicator new-Inv in (rd, ran)

reached-Inv :
    (cs : List Call) (rd : RequestDeduplicator) → run cs new_request_deduplicator ≡ some rd → Inv rd
reached-Inv cs rd h =
    let (rd', ran, v) = run-Inv cs new_request_deduplicator new-Inv in
    subst Inv (some-injective _ _ (sym ran ∙ h)) v

-- After any calls, a request that joins another is given no node, the node of a request in flight
-- reads as the empty text, and a round of `cleanupLoop` removes nothing.
node_never_known :
    (cs : List Call) (rd : RequestDeduplicator)
    → run cs new_request_deduplicator ≡ some rd
    → (key : String)
    → ((begin_request key rd).1.node_id ≡ "")
      × (get_node_for_request key rd ≡ "")
      × ((cleanup rd).inflight key ≡ rd.inflight key)
unfolding begin_request get_node_for_request
node_never_known cs rd h key =
    let v = reached-Inv cs rd h in
    let clean = cleanup_at rd key v in
    elim (Option-cases (rd.inflight key)) [
      | inl e ↦ (rw (e, begin_request), rw (e, get_node_for_request), clean)
      | inr (old, e) ↦
          let blank = (v.entry key old e).no_node in
          (rw (e, begin_request) blank, rw (e, get_node_for_request) blank, clean)
    ]

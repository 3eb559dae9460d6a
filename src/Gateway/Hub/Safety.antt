-- ===== src/Gateway/Hub/Safety.antt =====
-- gateway/websocket.go: no sequence of events makes the hub panic.
use pmi.Base.{
  ℕ, String, ◌≡◌, refl, ◌≢◌, inl, inr, true, false, ◌&&◌, Option, none, some, List, [], ◌∷◌, arith,
  Option-cases,
}
use pmi.Gateway.Hub.{Channel, Hub, new_hub, register, unregister, deliver, broadcast, set_at}

-- The channel of a registered client is open.
abbrev Inv : Hub → Type 0
Inv h = (c : ℕ) → h.clients c ≡ true → (h.channels c).closed ≡ false

pub data Event : Type 0 where
  register_event : ℕ → Event
  unregister_event : ℕ → Event
  broadcast_event : String → List ℕ → Event

unfoldable pub step : Event → Hub → Option Hub
step (register_event c) h = some (register c h)
step (unregister_event c) h = unregister c h
step (broadcast_event message order) h = broadcast message order h

-- `wsHandler` registers a client whose channel it has just made, and so is open.
abbrev pub Fresh : Event → Hub → Type 0
Fresh (register_event c) h = (h.channels c).closed ≡ false
Fresh (unregister_event c) h = Unit {0}
Fresh (broadcast_event message order) h = Unit {0}

unfoldable pub run : List Event → Hub → Option Hub
run [] h = some h
run (e ∷ es) h = elim (step e h) [ none ↦ none | some h' ↦ run es h' ]

deliver_safe : (message : String) (c : ℕ) (h : Hub) → Inv h → deliver message c h ≢ none
unfolding deliver set_at
deliver_safe message c h v = ground (arith, v c)

deliver-Inv :
    (message : String) (c : ℕ) (h h' : Hub) → Inv h → deliver message c h ≡ some h' → Inv h'
unfolding deliver set_at
deliver-Inv message c h h' v e d = ground (arith, v d)

broadcast-Inv :
    (message : String) (order : List ℕ) (h : Hub)
    → Inv h
    → (h' : Hub) × (broadcast message order h ≡ some h') × Inv h'
unfolding broadcast
broadcast-Inv message [] h v = (h, refl, v)
broadcast-Inv message (c ∷ cs) h v = elim (Option-cases (deliver message c h)) [
  | inl e ↦ absurd (deliver_safe message c h v e)
  | inr (h', e) ↦ rw (e, broadcast) (broadcast-Inv message cs h' (deliver-Inv message c h h' v e))
]

unregister_safe : (c : ℕ) (h : Hub) → Inv h → unregister c h ≢ none
unfolding unregister set_at
unregister_safe c h v = ground (arith, v c)

unregister-Inv : (c : ℕ) (h h' : Hub) → Inv h → unregister c h ≡ some h' → Inv h'
unfolding unregister set_at
unregister-Inv c h h' v e d = ground (arith, v d)

register-Inv : (c : ℕ) (h : Hub) → (h.channels c).closed ≡ false → Inv h → Inv (register c h)
unfolding register set_at
register-Inv c h fresh v d = ground (arith, v d)

step-Inv : (e : Event) (h : Hub) → Fresh e h → Inv h → (h' : Hub) × (step e h ≡ some h') × Inv h'
unfolding step
step-Inv (register_event c) h fresh v = (register c h, refl, register-Inv c h fresh v)
step-Inv (unregister_event c) h _ v = elim (Option-cases (unregister c h)) [
  | inl e ↦ absurd (unregister_safe c h v e)
  | inr (h', e) ↦ (h', e, unregister-Inv c h h' v e)
]
step-Inv (broadcast_event message order) h _ v = broadcast-Inv message order h v

-- Every registration in the sequence is of a client whose channel is open at that point.
abbrev pub AllFresh : List Event → Hub → Type 0
AllFresh [] h = Unit {0}
AllFresh (e ∷ es) h = Fresh e h × elim (step e h) [ none ↦ Unit {0} | some h' ↦ AllFresh es h' ]

run-Inv :
    (es : List Event) (h : Hub) → AllFresh es h → Inv h → (h' : Hub) × (run es h ≡ some h') × Inv h'
unfolding run
run-Inv [] h fresh v = (h, refl, v)
run-Inv (e ∷ es) h fresh v =
    let (h', stepped, v') = step-Inv e h fresh.0 v in
    rw (stepped, run) (run-Inv es h' (rw stepped at fresh.1) v')

-- In any order of registrations, unregistrations and broadcasts, slow clients that are dropped
-- included, the hub closes no channel twice and sends on no closed one, as long as a client is
-- registered with an open channel; and the channels of the registered clients stay open.
pub hub_never_panics :
    (es : List Event) (channels : ℕ → Channel)
    → AllFresh es (new_hub channels)
    → (h : Hub) × (run es (new_hub channels) ≡ some h)
      × ((c : ℕ) → (h.clients c && (h.channels c).closed) ≡ false)
unfolding new_hub
hub_never_panics es channels fresh =
    let (h, ran, v) = run-Inv es (new_hub channels) fresh (λ c e. absurd (cc)) in
    (h, ran, λ c. ground (arith, v c))

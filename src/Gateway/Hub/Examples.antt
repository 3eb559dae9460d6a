-- ===== src/Gateway/Hub/Examples.antt =====
-- gateway/websocket.go: a hub with two clients.
use pmi.Base.{ℕ, ◌≡◌, refl, false, ◌&&◌, some, List, [], ◌∷◌}
use pmi.Gateway.Hub.{Channel, Hub, new_hub, register, unregister, deliver, broadcast}
use pmi.Gateway.Hub.Safety.{
  Event, register_event, unregister_event, broadcast_event, step, run, hub_never_panics,
}

abbrev open_channels : ℕ → Channel
open_channels c = record { buffer = []; closed = false }

abbrev events : List Event
events =
    register_event 1
    ∷ register_event 2
    ∷ broadcast_event "hello" (1 ∷ 2 ∷ [])
    ∷ unregister_event 1
    ∷ broadcast_event "again" (2 ∷ [])
    ∷ unregister_event 1
    ∷ []

hub_never_panics_example :
    (h : Hub) × (run events (new_hub open_channels) ≡ some h)
    × ((c : ℕ) → (h.clients c && (h.channels c).closed) ≡ false)
unfolding new_hub step register unregister broadcast deliver
hub_never_panics_example =
    hub_never_panics events open_channels (refl, (refl, (tt, (tt, (tt, (tt, tt))))))

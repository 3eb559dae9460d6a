-- ===== src/PeerSdk/Examples.antt =====
-- peer-sdk/sdk.go: a peer whose heartbeats fail, and one that is stopped too late.
use pmi.Base.{
  ℕ, String, ◌≡◌, refl, Bool, true, false, Option, none, some, List, [], ◌∷◌, text_discrete,
}
use pmi.Base.Floats.{nat_ops}
use pmi.PeerSdk.Client.{PeerClient, ConnectResponse, new_peer_client, connect_call}
use pmi.PeerSdk.{
  PeerConfig, Reading, PeerSdk, Dial, dial, check_eligibility, new_peer_sdk, start, stop,
  trigger_reconnect, Event, tick, reconnect, step, run,
}
use pmi.PeerSdk.Reconnect.{started_peer_never_redials}
use pmi.PeerSdk.Bounded.{Bounded}
use pmi.PeerSdk.Consent.{Request, to_enable, to_disable, requests, new_consent_manager}
use pmi.PeerSdk.Consent.Replay.{replay, consent_replayed}

abbrev config : PeerConfig ℕ
config = record {
  node_id = "n1";
  gateway_endpoint = "gw:50051";
  mtls_enabled = true;
  min_battery = 20;
  max_cpu = 80;
}

abbrev reading : Reading ℕ
reading = record { battery = 50; charging = false; cpu = 10; unmetered_wifi = true }

abbrev accepts : Dial
accepts = some (some (record { success = true; message = ""; session_id = "s1" }))

abbrev fresh : PeerSdk ℕ
fresh = new_peer_sdk config

abbrev events : List (Event nat_ops)
events = tick true ∷ tick false ∷ reconnect 9 reading accepts ∷ tick false ∷ []

started_peer_never_redials_example :
    let p' = (start nat_ops 5 reading "10.0.0.9" accepts fresh).0 in
    ((run nat_ops events p').is_connected ≡ true) × ((run nat_ops events p').dials ≡ p'.dials)
unfolding pmi.PeerSdk.start pmi.PeerSdk.new_peer_sdk pmi.PeerSdk.dial pmi.PeerSdk.Client.connect
    pmi.Base.text_discrete
started_peer_never_redials_example =
    started_peer_never_redials nat_ops 5 reading "10.0.0.9" accepts fresh events refl

abbrev session : PeerClient
session = record { session_id = "s1"; stopped = false; sent = connect_call ∷ [] }

abbrev asked : List Request
asked = to_enable false ∷ to_enable true ∷ to_enable true ∷ to_disable true ∷ []

consent_replayed_example :
    let c = requests asked (new_consent_manager true true) in replay false c.calls ≡ some c.enabled
consent_replayed_example = consent_replayed asked

-- ===== src/PeerSdk/Reconnect.antt =====
-- peer-sdk/sdk.go: when the reconnector connects.
use pmi.Base.{ℕ, ◌≡◌, refl, ◌∙◌, Bool, true, none, some, List, [], ◌∷◌, arith, String}
use pmi.Base.Floats.{FloatOps}
use pmi.PeerSdk.Client.{PeerClient}
use pmi.PeerSdk.{
  Reading, PeerSdk, Dial, dial, check_eligibility, start, started, stop, trigger_reconnect,
  telemetry_tick, telemetry_report, reconnector_round, report_status, report_bandwidth, Event, tick,
  report_sent, reconnect, status_due, reported, triggered, step, run,
}

module _ {ℓ} {F : Type ℓ} (ops : FloatOps F) where
  step-connected :
      (e : Event ops) (p : PeerSdk F)
      → p.is_connected ≡ true
      → ((step ops e p).is_connected ≡ true) × ((step ops e p).dials ≡ p.dials)
  unfolding step telemetry_tick telemetry_report reconnector_round report_status report_bandwidth
      trigger_reconnect
  step-connected (tick answered) p h = ground arith
  step-connected (report_sent answered) p h = ground arith
  step-connected (reconnect now reading answer) p h = ground arith
  step-connected (status_due reading) p h = ground arith
  step-connected (reported bw) p h = (h, refl)
  step-connected triggered p h = (h, refl)

  run-connected :
      (es : List (Event ops)) (p : PeerSdk F)
      → p.is_connected ≡ true
      → ((run ops es p).is_connected ≡ true) × ((run ops es p).dials ≡ p.dials)
  unfolding run
  run-connected [] p h = (h, refl)
  run-connected (e ∷ es) p h =
      let (still, same) = step-connected e p h in
      let (after, same') = run-connected es (step ops e p) still in (after, same' ∙ same)

  start-connected :
      (now : ℕ) (reading : Reading F) (ip : String) (answer : Dial) (p : PeerSdk F)
      → (start ops now reading ip answer p).1 ≡ none
      → (start ops now reading ip answer p).0.is_connected ≡ true
  unfolding start started
  start-connected now reading ip answer p h = ground arith

  -- Once `Start` has succeeded, the peer counts as connected and dials no more, whatever happens
  -- until it is stopped: heartbeats that fail, and the reconnections that they ask for, included.
  pub started_peer_never_redials :
      (now : ℕ) (reading : Reading F) (ip : String) (answer : Dial) (p : PeerSdk F)
      (es : List (Event ops))
      → (start ops now reading ip answer p).1 ≡ none
      → let p' = (start ops now reading ip answer p).0 in
        ((run ops es p').is_connected ≡ true) × ((run ops es p').dials ≡ p'.dials)
  started_peer_never_redials now reading ip answer p es h =
      run-connected es (start ops now reading ip answer p).0
        (start-connected now reading ip answer p h)

  -- A peer that is stopped while a reconnection is asked for connects again, if the reconnector
  -- takes the request before it sees the stop, the device is eligible and the gateway accepts.
  stopped_peer_reconnects :
      (now : ℕ) (reading : Reading F) (answer : Dial) (bye : Bool) (p : PeerSdk F) (c : PeerClient)
      → p.reconn_ch ≡ true
      → check_eligibility ops p.config reading ≡ true
      → dial answer (stop bye p).client ≡ (some c, none)
      → let p' = step ops (reconnect now reading answer) (stop bye p) in
        (p'.is_connected ≡ true) × (p'.client ≡ some c) × (p'.cancelled ≡ true)
  unfolding step reconnector_round stop
  stopped_peer_reconnects now reading answer bye p c asked eligible accepted = ground arith

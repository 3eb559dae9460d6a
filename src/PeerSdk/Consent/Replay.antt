-- ===== src/PeerSdk/Consent/Replay.antt =====
-- peer-sdk/sdk.go: in what order the callbacks of the consent are called.
use pmi.Base.{
  ◌≡◌, refl, ap, Bool, true, false, Option, none, some, List, [], ◌∷◌, ◌++◌, arith, if◌then◌else◌,
}
use mathlib.Core.Option.{some-injective}
use pmi.PeerSdk.Consent.{
  Callback, enabling, disabling, ConsentManager, new_consent_manager, enable, disable, Request,
  to_enable, to_disable, request, requests,
}

-- The consent as the callbacks that succeeded left it, none if one that would change nothing was
-- called.
abbrev pub replay : Bool → List Callback → Option Bool
replay on [] = some on
replay false (enabling answer ∷ calls) = replay answer calls
replay true (disabling answer ∷ calls) = replay (if answer then false else true) calls
replay true (enabling answer ∷ calls) = none
replay false (disabling answer ∷ calls) = none

replay-append :
    (on b : Bool) (xs ys : List Callback)
    → replay on xs ≡ some b
    → replay on (xs ++ ys) ≡ replay b ys
replay-append on b [] ys h = ap (λ on. replay on ys) (some-injective _ _ h)
replay-append false b (enabling answer ∷ xs) ys h = replay-append answer b xs ys h
replay-append true b (disabling answer ∷ xs) ys h =
    replay-append (if answer then false else true) b xs ys h
replay-append true b (enabling answer ∷ xs) ys h = cc
replay-append false b (disabling answer ∷ xs) ys h = cc

-- Both callbacks are there, and have left the consent as it is.
record Replayed (c : ConsentManager) : Type 0 where
  pub enable_there : c.has_on_enable ≡ true
  pub disable_there : c.has_on_disable ≡ true
  pub left : replay false c.calls ≡ some c.enabled

request-Replayed : (r : Request) (c : ConsentManager) → Replayed c → Replayed (request r c)
unfolding request enable disable
request-Replayed (to_enable answer) c h =
    ground (arith, replay-append false false c.calls (enabling answer ∷ []))
request-Replayed (to_disable answer) c h =
    ground (arith, replay-append false true c.calls (disabling answer ∷ []))

requests-Replayed : (rs : List Request) (c : ConsentManager) → Replayed c → Replayed (requests rs c)
unfolding requests
requests-Replayed [] c h = h
requests-Replayed (r ∷ rs) c h = requests-Replayed rs (request r c) (request-Replayed r c h)

-- After any requests to a manager with both callbacks, whatever the callbacks answered: the consent
-- is as the callbacks that succeeded left it, beginning without it, and none was called to enable
-- what was enabled or to disable what was not.
pub consent_replayed :
    (rs : List Request)
    → let c = requests rs (new_consent_manager true true) in replay false c.calls ≡ some c.enabled
unfolding new_consent_manager
consent_replayed rs =
    (requests-Replayed rs (new_consent_manager true true)
      (record { enable_there = refl; disable_there = refl; left = refl })).left

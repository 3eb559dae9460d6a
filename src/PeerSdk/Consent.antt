-- ===== src/PeerSdk/Consent.antt =====
-- peer-sdk/sdk.go, `ConsentManager`. What a callback answers is an argument, and the calls of the
-- callbacks are kept in order; a callback that is nil is not called.
pub mod Replay
use pmi.Base.{Bool, true, false, List, [], ◌∷◌, ◌++◌, if◌then◌else◌}

-- A call of a callback, and whether it returned no error.
pub data Callback : Type 0 where
  enabling : Bool → Callback
  disabling : Bool → Callback

pub record ConsentManager : Type 0 where
  pub enabled : Bool
  pub has_on_enable : Bool
  pub has_on_disable : Bool
  pub calls : List Callback

pub new_consent_manager : Bool → Bool → ConsentManager
new_consent_manager has_on_enable has_on_disable = record {
  enabled = false;
  has_on_enable = has_on_enable;
  has_on_disable = has_on_disable;
  calls = [];
}

-- Each returns whether it returned no error.
pub enable : Bool → ConsentManager → ConsentManager × Bool
enable answer c =
    if c.enabled
    then (c, true)
    else if c.has_on_enable
    then (
      record c {
        enabled = if answer then true else c.enabled;
        calls = c.calls ++ (enabling answer ∷ []);
      },
      answer,
    )
    else (record c { enabled = true }, true)

pub disable : Bool → ConsentManager → ConsentManager × Bool
disable answer c =
    if c.enabled
    then if c.has_on_disable
      then (
        record c {
          enabled = if answer then false else c.enabled;
          calls = c.calls ++ (disabling answer ∷ []);
        },
        answer,
      )
      else (record c { enabled = false }, true)
    else (c, true)

-- `Enable` or `Disable`, with what the callback answers if it is called.
pub data Request : Type 0 where
  to_enable : Bool → Request
  to_disable : Bool → Request

pub request : Request → ConsentManager → ConsentManager
unfolding enable disable
request (to_enable answer) c = (enable answer c).0
request (to_disable answer) c = (disable answer c).0

pub requests : List Request → ConsentManager → ConsentManager
unfolding request
requests [] c = c
requests (r ∷ rs) c = requests rs (request r c)

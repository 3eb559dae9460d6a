-- ===== src/Gateway/KeyExpiry/Examples.antt =====
-- gateway/keyquota.go: keys that expire.
use pmi.Base.{ℕ, ◌+◌, ◌*◌, String, Bool, false, [], empty, insert}
use pmi.Gateway.KeyExpiry.{KeyInfo, KeyExpirationManager}

-- Days of ten units.
abbrev add_tens : ℕ → ℕ → ℕ
add_tens t n = t + n * 10

abbrev no_keys : KeyExpirationManager
no_keys = record { keys = empty; redis = record { connected = false; sent = [] } }

abbrev never : String → Bool
never key = false

abbrev old_key : KeyInfo
old_key = record {
  key = "k";
  name = "name";
  created_at = 5;
  expires_at = 35;
  renewal_period = 1;
  last_renewed = 5;
}

abbrev one_key : KeyExpirationManager
one_key = record no_keys { keys = insert "k" old_key empty }

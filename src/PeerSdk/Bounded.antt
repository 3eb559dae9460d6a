-- ===== src/PeerSdk/Bounded.antt =====
-- peer-sdk/sdk.go: how much waits in the channels, and how long the reconnector waits.
use pmi.Base.{◌≤◌, length}
use pmi.PeerSdk.{PeerSdk, second, max_backoff}

-- Ten values at most wait in a channel, and the pause is of a second to five minutes.
pub record Bounded {ℓ} {F : Type ℓ} (p : PeerSdk F) : Type 0 where
  pub statuses : length p.status_ch ≤ 10
  pub reports : length p.bw_ch ≤ 10
  pub not_short : second ≤ p.backoff
  pub not_long : p.backoff ≤ max_backoff

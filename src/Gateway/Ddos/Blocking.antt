-- ===== src/Gateway/Ddos/Blocking.antt =====
-- gateway/ddos_shaper.go: when failures block a client, without Redis.
use pmi.Base.{
  insert_self, ℕ, ◌+◌, ◌*◌, String, ◌≡◌, ap, ◌∙◌, Bool, false, ◌&&◌, none, some, List, [], ◌∷◌,
  arith, ltb, leb, length, insert,
}
use pmi.Gateway.RateLimit.{second}
use pmi.Gateway.Ddos.{FailedRequestStats, DdosProtection, record_failure, is_blocked}

-- Failures of one client at the times of a list.
pub failures : String → List ℕ → DdosProtection → DdosProtection
failures ip [] ddos = ddos
failures ip (now ∷ ts) ddos = failures ip ts (record_failure 0 now ip ddos)

again : ℕ → String → FailedRequestStats → DdosProtection → DdosProtection
again now ip stats ddos = record ddos {
  failed_requests =
      insert ip (record stats { count = stats.count + 1; last_fail = now }) ddos.failed_requests;
}

repeated_failure :
    (now : ℕ) (ip : String) (ddos : DdosProtection) (stats : FailedRequestStats)
    → ddos.redis.connected ≡ false
    → ddos.failed_requests ip ≡ some stats
    → record_failure 0 now ip ddos ≡ again now ip stats ddos
unfolding record_failure again
repeated_failure now ip ddos stats off e = ground arith

opening_failure :
    (now : ℕ) (ip : String) (ddos : DdosProtection)
    → ddos.redis.connected ≡ false
    → ddos.failed_requests ip ≡ none
    → record_failure 0 now ip ddos
      ≡ again now ip (record { count = 0; first_fail = now; last_fail = 0 }) ddos
unfolding record_failure again
opening_failure now ip ddos off e = ground arith

counted :
    (ip : String) (ts : List ℕ) (now : ℕ) (block_exists : Bool) (ddos : DdosProtection)
    (stats : FailedRequestStats)
    → ddos.redis.connected ≡ false
    → ddos.failed_requests ip ≡ some stats
    → is_blocked block_exists now ip (failures ip ts ddos) ≡ (
        leb ddos.threshold (stats.count + length ts)
        && ltb now (stats.first_fail + ddos.window_seconds * second))
unfolding failures is_blocked again
counted ip [] now b ddos stats off e = ground arith
counted ip (t ∷ ts) now b ddos stats off e =
    let stats' : FailedRequestStats = record stats { count = stats.count + 1; last_fail = t } in
    rw (repeated_failure t ip ddos stats off e) (
      counted ip ts now b (again t ip stats ddos) stats' off
        (insert_self ip stats' ddos.failed_requests)
      ∙ ap (λ n. leb ddos.threshold n && ltb now (stats.first_fail + ddos.window_seconds * second))
          (omega arith))

-- Without Redis, a client whose first failure ever was at `t` is blocked after its failures exactly
-- if they reach the threshold and the window that began at `t` is not over. So once that window is
-- over, no number of further failures blocks it.
blocked_in_first_window_only :
    (ip : String) (t : ℕ) (ts : List ℕ) (now : ℕ) (block_exists : Bool) (ddos : DdosProtection)
    → ddos.redis.connected ≡ false
    → ddos.failed_requests ip ≡ none
    → is_blocked block_exists now ip (failures ip (t ∷ ts) ddos)
      ≡ (leb ddos.threshold (1 + length ts) && ltb now (t + ddos.window_seconds * second))
unfolding failures again
blocked_in_first_window_only ip t ts now b ddos off e =
    let stats : FailedRequestStats = record { count = 0 + 1; first_fail = t; last_fail = t } in
    rw (opening_failure t ip ddos off e) (
      counted ip ts now b (again t ip (record { count = 0; first_fail = t; last_fail = 0 }) ddos)
        stats off (insert_self ip stats ddos.failed_requests))

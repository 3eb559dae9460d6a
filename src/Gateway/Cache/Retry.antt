-- ===== src/Gateway/Cache/Retry.antt =====
-- gateway/cache.go, `ExecuteWithRetry`: how often it calls, and when it succeeds.
use pmi.Base.{
  ℕ, zero, suc, ◌+◌, ◌≤◌, ◌≡◌, Bool, true, false, Option, none, some, List, [], ◌∷◌, arith,
  if◌then◌else◌, length,
}
use pmi.Gateway.Cache.{attempts, execute_with_retry}

-- How many attempts from `i` on fail before the first that works, if one of the first `left + 1`
-- does.
first_success : (ℕ → Bool) → ℕ → ℕ → Option ℕ
first_success works i zero = if works i then some 0 else none
first_success works i (suc left) =
    let rest = first_success works (suc i) left in
    if works i then some 0 else elim rest [ none ↦ none | some n ↦ some (n + 1) ]

total : List ℕ → ℕ
total [] = 0
total (x ∷ xs) = x + total xs

-- What the first success tells of the outcome and the delays.
abbrev pub Tells : ℕ → Option ℕ → Bool × List ℕ → Type 0
Tells left none r = (r.0 ≡ false) × (length r.1 ≡ left)
Tells left (some n) r = (r.0 ≡ true) × (length r.1 ≡ n) × (n ≤ left)

attempts_lem :
    (works : ℕ → Bool) (base i left : ℕ)
    → Tells left (first_success works i left) (attempts works base i left)
unfolding attempts first_success
attempts_lem works base i zero = ground arith
attempts_lem works base i (suc left) = ground (arith, attempts_lem works base (suc i) left)

-- `ExecuteWithRetry` succeeds exactly if its first attempt or one of its `maxRetries` retries
-- works; it sleeps once after each attempt before that one, and after each but the last if none
-- works.
execute_with_retry_lem :
    (works : ℕ → Bool) (max_retries backoff_base : ℕ)
    → Tells max_retries
        (first_success works 0 max_retries)
        (execute_with_retry works max_retries backoff_base)
unfolding execute_with_retry
execute_with_retry_lem works max_retries backoff_base =
    attempts_lem works backoff_base 0 max_retries

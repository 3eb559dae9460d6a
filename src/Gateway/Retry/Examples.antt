-- ===== src/Gateway/Retry/Examples.antt =====
-- gateway/retry.go: a call that times out twice.
use pmi.Base.{
  ℕ, zero, suc, ◌*◌, ◌^◌, ◌≡◌, ◌↔◌, refl, true, Option, none, [], ◌∷◌, arith, ltb, if◌then◌else◌,
  ◌<◌, ◌≤◌,
}
use pmi.Gateway.Retry.Contains.{Bytes, contains_string}
use pmi.Gateway.Retry.Contains.Factors.{Occurs, contains_string_iff}
use pmi.Gateway.Retry.{
  RetryConfig, returned, Attempt, good, bad, execute_with_retry, is_retryable_error,
  calculate_delay,
}
use pmi.Gateway.Retry.Attempts.{FailsAt, pauses, returned_on_retry}

-- "timeout" is cut to "tim", and the text of the error has it in the middle.
abbrev config : RetryConfig
config = record {
  max_retries = 3;
  initial_delay = 100;
  max_delay = 250;
  max_jitter = 60;
  retryable_errors = (b't' ∷ b'i' ∷ b'm' ∷ []) ∷ [];
}

abbrev message : Bytes
message = b'a' ∷ b't' ∷ b'i' ∷ b'm' ∷ b'e' ∷ []

abbrev factor : ℕ → ℕ
factor n = 2 ^ n

abbrev fn : ℕ → Attempt ℕ
fn i = if ltb i 2 then bad message else good 7

abbrev never : ℕ → Option Bytes
never i = none

small_product : (i : ℕ) → i < 2 → 100 * factor i < 2 ^ 63
small_product zero h = omega arith
small_product (suc zero) h = omega arith
small_product (suc (suc i)) h = absurd (omega arith)

fails : (i : ℕ) → i < 2 → FailsAt config factor fn never never i
unfolding is_retryable_error pmi.Gateway.Retry.Contains.contains_string
    pmi.Gateway.Retry.Contains.same
fails i h = record {
  error = message;
  fails = ground arith;
  retryable = refl;
  not_before = refl;
  not_during = refl;
  small = small_product i h;
}

returned_on_retry_example :
    execute_with_retry config factor fn never never ≡ (pauses config factor 0 2, returned 7)
returned_on_retry_example =
    returned_on_retry config factor fn never never 2 7 (omega arith) (omega arith) fails refl refl

two_pauses : pauses config factor 0 2 ≡ (0, 160) ∷ (1, 230) ∷ []
two_pauses = refl

-- Of the default configuration.
abbrev default_config : RetryConfig
default_config = record {
  max_retries = 3;
  initial_delay = 100000000;
  max_delay = 5000000000;
  max_jitter = 0;
  retryable_errors = [];
}

-- After the 38th attempt the delay is negative.
delay_wraps :
    (calculate_delay default_config factor 36 ≡ 5000000000)
    × (2 ^ 63 ≤ calculate_delay default_config factor 37)
unfolding calculate_delay pmi.Gateway.Retry.capped_delay pmi.Gateway.Retry.longer
delay_wraps = (refl, omega arith)

contains_string_iff_example :
    (contains_string message (b't' ∷ b'i' ∷ []) ≡ true) ↔ Occurs (b't' ∷ b'i' ∷ []) message
contains_string_iff_example = contains_string_iff message (b't' ∷ b'i' ∷ [])

-- ===== src/Gateway/Retry.antt =====
-- gateway/retry.go: RetryHandler and NodeRetryState. An error is the bytes of its text. The call
-- that is retried, what `ctx.Err()` is before an attempt and during the pause after it, and the
-- power of the multiplier as a whole number are arguments. Times are in nanoseconds.
pub mod Contains
mod Attempts
mod Examples
use pmi.Base.{
  ℕ, zero, suc, ◌+◌, ◌*◌, ◌/◌, ◌%◌, ◌^◌, ◌&&◌, ◌==◌, Bool, true, false, Option, none, some, List,
  [], ◌∷◌, ◌++◌, ltb, if◌then◌else◌,
}
use Contains.{Bytes, contains_string}

pub record RetryConfig : Type 0 where
  pub max_retries : ℕ
  pub initial_delay : ℕ
  pub max_delay : ℕ
  pub max_jitter : ℕ
  pub retryable_errors : List Bytes

new_retry_handler : RetryConfig → RetryConfig → RetryConfig
new_retry_handler default_config config = if config.max_retries == 0 then default_config else config

set_max_retries : ℕ → RetryConfig → RetryConfig
set_max_retries max_retries config = record config { max_retries = max_retries }

set_retryable_errors : List Bytes → RetryConfig → RetryConfig
set_retryable_errors errors config = record config { retryable_errors = errors }

is_retryable_from : Bytes → List Bytes → Bool
is_retryable_from message [] = false
is_retryable_from message (pattern' ∷ patterns) =
    if contains_string message pattern' then true else is_retryable_from message patterns

pub is_retryable_error : RetryConfig → Bytes → Bool
unfolding is_retryable_from
is_retryable_error config message = is_retryable_from message config.retryable_errors

-- How the call ends; `cancelled` has the context's error.
pub data Outcome {ℓ} (A : Type ℓ) : Type ℓ where
  returned : A → Outcome A
  cancelled : Bytes → Outcome A
  failed : Bytes → Outcome A
  exhausted : Bytes → Outcome A

pub data Attempt {ℓ} (A : Type ℓ) : Type ℓ where
  good : A → Attempt A
  bad : Bytes → Attempt A

-- A Duration is an int64, here its bits as a natural number: those from 2 ^ 63 on are negative.
-- `d > bound`, for a bound that is not negative.
longer : ℕ → ℕ → Bool
longer d bound = ltb d (2 ^ 63) && ltb bound d

-- `factor n` is the multiplier to the power of n, as the int64 that Go makes of it.
module _ (config : RetryConfig) (factor : ℕ → ℕ) where
  capped_delay : ℕ → ℕ
  unfolding longer
  capped_delay attempt =
      let delay = config.initial_delay * factor attempt % 2 ^ 64 in
      if longer delay config.max_delay then config.max_delay else delay

  pub calculate_delay : ℕ → ℕ
  unfolding capped_delay
  calculate_delay attempt =
      if ltb 0 config.max_jitter
      then (capped_delay attempt + config.max_jitter / (attempt + 1)) % 2 ^ 64
      else capped_delay attempt

  module _ {ℓ} {A : Type ℓ} (fn : ℕ → Attempt A) (before during : ℕ → Option Bytes) where
    -- One round of the loop, with what follows if the error allows a retry.
    once : ℕ → List (ℕ × ℕ) → (Bytes → List (ℕ × ℕ) × Outcome A) → List (ℕ × ℕ) × Outcome A
    once attempt retried next = elim (before attempt) [
      | some e ↦ (retried, cancelled e)
      | none ↦ elim (fn attempt) [
        | good a ↦ (retried, returned a)
        | bad e ↦ if is_retryable_error config e then next e else (retried, failed e)
      ]
    ]

    -- The loop, with so many retries left; also the calls of `onRetry`.
    attempts_from : ℕ → ℕ → List (ℕ × ℕ) → List (ℕ × ℕ) × Outcome A
    unfolding once
    attempts_from zero attempt retried = once attempt retried (λ e. (retried, exhausted e))
    attempts_from (suc left) attempt retried =
        let retried' = retried ++ ((attempt, calculate_delay attempt) ∷ []) in
        let later = attempts_from left (suc attempt) retried' in
        once attempt retried
          (λ e. elim (during attempt) [ some c ↦ (retried', cancelled c) | none ↦ later ])

    pub execute_with_retry : List (ℕ × ℕ) × Outcome A
    unfolding attempts_from
    execute_with_retry = attempts_from config.max_retries 0 []

-- NodeRetryState; the moment 0 is Go's zero time.
pub record NodeRetryState : Type 0 where
  pub consecutive_failures : ℕ
  pub last_failure : ℕ
  pub backoff_until : ℕ

pub record_failure : ℕ → NodeRetryState → NodeRetryState
record_failure now nrs = record nrs {
  consecutive_failures = nrs.consecutive_failures + 1;
  last_failure = now;
}

pub record_success : NodeRetryState → NodeRetryState
record_success nrs = record nrs { consecutive_failures = 0; backoff_until = 0 }

is_backed_off : ℕ → NodeRetryState → Bool
is_backed_off now nrs = ltb now nrs.backoff_until

get_backoff_duration : RetryConfig → (ℕ → ℕ) → NodeRetryState → ℕ
unfolding longer
get_backoff_duration default_config factor nrs =
    let base = default_config.initial_delay * factor nrs.consecutive_failures % 2 ^ 64 in
    if longer base default_config.max_delay then default_config.max_delay else base

set_backoff : ℕ → ℕ → NodeRetryState → NodeRetryState
set_backoff now delay nrs = record nrs { backoff_until = now + delay }

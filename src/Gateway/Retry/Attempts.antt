-- ===== src/Gateway/Retry/Attempts.antt =====
-- gateway/retry.go: when the retried call returns, and how long the pauses are.
use pmi.Base.{
  ℕ, zero, suc, ◌+◌, ◌*◌, ◌/◌, ◌^◌, min, ◌≤◌, ◌<◌, ◌≡◌, refl, ◌∙◌, ap, true, Option, none, List, [],
  ◌∷◌, ◌++◌, arith,
}
use mathlib.Core.List.{append_assoc, append-nil}
use pmi.Gateway.Retry.Contains.{Bytes}
use pmi.Gateway.Retry.{
  RetryConfig, Outcome, returned, Attempt, good, bad, is_retryable_error, calculate_delay,
  capped_delay, longer, once, attempts_from, execute_with_retry,
}

div_le : (n k : ℕ) → n / (k + 1) ≤ n
div_le n k = grind arith

-- The same at an equal place.
now {ℓ} : {B : Type ℓ} (attempt : ℕ) (g : ℕ → B) {b : B} → g (attempt + zero) ≡ b → g attempt ≡ b
now attempt g h = ap g (omega arith) ∙ h

later {ℓ} :
    {B : Type ℓ} (attempt n : ℕ) (g : ℕ → B) {b : B}
    → g (attempt + suc n) ≡ b
    → g (suc attempt + n) ≡ b
later attempt n g h = ap g (omega arith) ∙ h

zeroth {ℓ} : {B : Type ℓ} (n : ℕ) (g : ℕ → B) {b : B} → g n ≡ b → g (0 + n) ≡ b
zeroth n g h = ap g (omega arith) ∙ h

module _ (config : RetryConfig) (factor : ℕ → ℕ) where
  -- The pauses after so many attempts, from one on: the first delay times the power, but no more
  -- than the longest delay, and a share of the jitter.
  abbrev pub pauses : ℕ → ℕ → List (ℕ × ℕ)
  pauses attempt zero = []
  pauses attempt (suc n) =
      (
        attempt,
        min config.max_delay (config.initial_delay * factor attempt)
            + config.max_jitter / (attempt + 1),
      )
      ∷ pauses (suc attempt) n

  calculate_delay_small :
      (attempt : ℕ)
      → config.initial_delay * factor attempt < 2 ^ 63
      → config.max_delay + config.max_jitter < 2 ^ 63
      → calculate_delay config factor attempt
        ≡ min config.max_delay (config.initial_delay * factor attempt)
          + config.max_jitter / (attempt + 1)
  unfolding calculate_delay capped_delay longer
  calculate_delay_small attempt small bound = ground (arith, div_le config.max_jitter attempt)

  module _ {ℓ} {A : Type ℓ} (fn : ℕ → Attempt A) (before during : ℕ → Option Bytes) where
    -- The attempt fails with an error that is retried, and nothing is cancelled.
    pub record FailsAt (i : ℕ) : Type ℓ where
      pub error : Bytes
      pub fails : fn i ≡ bad error
      pub retryable : is_retryable_error config error ≡ true
      pub not_before : before i ≡ none
      pub not_during : during i ≡ none
      pub small : config.initial_delay * factor i < 2 ^ 63

    once_good :
        (attempt : ℕ) (a : A) (retried : List (ℕ × ℕ)) (next : Bytes → List (ℕ × ℕ) × Outcome A)
        → before attempt ≡ none
        → fn attempt ≡ good a
        → once config factor fn before during attempt retried next ≡ (retried, returned a)
    unfolding once
    once_good attempt a retried next free gives = rw (once, free, gives) refl

    once_bad :
        (attempt : ℕ) (retried : List (ℕ × ℕ)) (next : Bytes → List (ℕ × ℕ) × Outcome A)
        (f : FailsAt attempt)
        → once config factor fn before during attempt retried next ≡ next f.error
    unfolding once
    once_bad attempt retried next f = rw (once, f.not_before, f.fails) (rw f.retryable refl)

    returns_from :
        (left n attempt : ℕ) (a : A) (retried : List (ℕ × ℕ))
        → n ≤ left
        → config.max_delay + config.max_jitter < 2 ^ 63
        → ((i : ℕ) → attempt ≤ i → i < attempt + n → FailsAt i)
        → before (attempt + n) ≡ none
        → fn (attempt + n) ≡ good a
        → attempts_from config factor fn before during left attempt retried
          ≡ (retried ++ pauses attempt n, returned a)
    unfolding attempts_from
    returns_from zero zero attempt a retried le bound fails free gives =
        rw (append-nil retried)
          (once_good attempt a retried _ (now attempt before free) (now attempt fn gives))
    returns_from (suc left) zero attempt a retried le bound fails free gives =
        rw (append-nil retried)
          (once_good attempt a retried _ (now attempt before free) (now attempt fn gives))
    returns_from zero (suc n) attempt a retried le bound fails free gives = absurd (omega arith)
    returns_from (suc left) (suc n) attempt a retried le bound fails free gives =
        let f = fails attempt (omega arith) (omega arith) in
        let pause : ℕ × ℕ = (
          attempt,
          min config.max_delay (config.initial_delay * factor attempt)
              + config.max_jitter / (attempt + 1),
        ) in
        once_bad attempt retried _ f
        ∙ rw (f.not_during, calculate_delay_small attempt f.small bound)
            (returns_from left n (suc attempt) a (retried ++ (pause ∷ [])) (omega arith) bound
                (λ i lo hi. fails i (omega arith) (omega arith)) (later attempt n before free)
                (later attempt n fn gives)
              ∙ rw (append_assoc retried (pause ∷ []) (pauses (suc attempt) n)) refl)

    -- If the first attempts fail with errors that are retried, not more of them than retries are
    -- allowed, the next succeeds, and nothing is cancelled meanwhile, the call returns what that
    -- attempt gave, after one pause for each failure: the first delay times the power of the
    -- multiplier, but no more than the longest delay, and the jitter divided by the attempts so
    -- far. This is where no such product, nor the longest delay with the jitter, leaves the range
    -- of an int64.
    pub returned_on_retry :
        (n : ℕ) (a : A)
        → n ≤ config.max_retries
        → config.max_delay + config.max_jitter < 2 ^ 63
        → ((i : ℕ) → i < n → FailsAt i)
        → before n ≡ none
        → fn n ≡ good a
        → execute_with_retry config factor fn before during ≡ (pauses 0 n, returned a)
    unfolding execute_with_retry
    returned_on_retry n a le bound fails free gives =
        returns_from config.max_retries n 0 a [] le bound (λ i lo hi. fails i (omega arith))
          (zeroth n before free) (zeroth n fn gives)

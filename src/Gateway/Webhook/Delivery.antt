-- ===== src/Gateway/Webhook/Delivery.antt =====
-- gateway/timeout_webhook.go: when a webhook is delivered, and how long its retries wait.
use pmi.Base.{
  ℕ, zero, suc, ◌+◌, ◌-◌, ◌*◌, ◌^◌, ◌≤◌, ◌<◌, String, ◌≡◌, refl, sym, ap, ◌∙◌, Bool, true, false,
  arith, if◌then◌else◌,
}
use native.Mathlib.Nat.{pow-succ', mul_assoc}
use pmi.Gateway.Webhook.{
  NodeWebhook, Attempt, is_success, attempts_from, send_webhook, record_success, record_failure,
}

zero_add : (n : ℕ) → 0 + n ≡ n
zero_add n = omega arith

shifted : (n j : ℕ) → n + suc j ≡ suc n + j
shifted n j = omega arith

at_zero :
    (outcome : ℕ → Attempt) (n : ℕ) {b : Bool}
    → is_success (outcome (n + 0)) ≡ b
    → is_success (outcome n) ≡ b
at_zero outcome n e =
    let same : n ≡ n + 0 = omega arith in ap (λ i. is_success (outcome i)) same ∙ e

doubled : (b k : ℕ) → b * 2 ^ suc k ≡ b * 2 * 2 ^ k
doubled b k = ap (λ p. b * p) (pow-succ' 2 k) ∙ sym (mul_assoc b 2 (2 ^ k))

-- An attempt that fails waits, and doubles the pause of those after it.
fails_first :
    (outcome : ℕ → Attempt) (b : Bool) (k attempt backoff left : ℕ)
    → is_success (outcome (attempt + 0)) ≡ false
    → (attempts_from outcome (suc attempt) (backoff * 2) left).0 ≡ b
    → (attempts_from outcome (suc attempt) (backoff * 2) left).1 + backoff * 2 ≡ backoff * 2 * 2 ^ k
    → ((attempts_from outcome attempt backoff (suc left)).0 ≡ b)
      × ((attempts_from outcome attempt backoff (suc left)).1 + backoff ≡ backoff * 2 ^ suc k)
unfolding attempts_from
fails_first outcome b k attempt backoff left e f g =
    let here : is_success (outcome attempt) ≡ false = at_zero outcome attempt e in
    rw here (f, omega (arith, g, doubled backoff k))

succeeds_first :
    (outcome : ℕ → Attempt) (attempt backoff left : ℕ)
    → is_success (outcome (attempt + 0)) ≡ true
    → attempts_from outcome attempt backoff left ≡ (true, 0)
unfolding attempts_from
succeeds_first outcome attempt backoff zero e = rw (at_zero outcome attempt e) refl
succeeds_first outcome attempt backoff (suc left) e = rw (at_zero outcome attempt e) refl

-- The attempts are made until one succeeds, and the pauses before it double.
attempts_until :
    (outcome : ℕ → Attempt) (k attempt backoff left : ℕ)
    → k ≤ left
    → ((j : ℕ) → j < k → is_success (outcome (attempt + j)) ≡ false)
    → is_success (outcome (attempt + k)) ≡ true
    → ((attempts_from outcome attempt backoff left).0 ≡ true)
      × ((attempts_from outcome attempt backoff left).1 + backoff ≡ backoff * 2 ^ k)
attempts_until outcome zero attempt backoff left h before now =
    let e = succeeds_first outcome attempt backoff left now in
    (ap (λ r. r.0) e, ap (λ r. r.1 + backoff) e ∙ omega arith)
attempts_until outcome (suc k) attempt backoff zero h before now = absurd (omega arith)
attempts_until outcome (suc k) attempt backoff (suc left) h before now =
    let shift = λ (j : ℕ). ap (λ n. is_success (outcome n)) (sym (shifted attempt j)) in
    let (e, f) =
      attempts_until outcome k (suc attempt) (backoff * 2) left (omega arith)
        (λ j l. shift j ∙ before (suc j) (omega arith)) (shift k ∙ now) in
    fails_first outcome true k attempt backoff left (before 0 (omega arith)) e f

attempts_all :
    (outcome : ℕ → Attempt) (attempt backoff left : ℕ)
    → ((j : ℕ) → j ≤ left → is_success (outcome (attempt + j)) ≡ false)
    → ((attempts_from outcome attempt backoff left).0 ≡ false)
      × ((attempts_from outcome attempt backoff left).1 + backoff ≡ backoff * 2 ^ left)
unfolding attempts_from
attempts_all outcome attempt backoff zero never =
    (at_zero outcome attempt (never 0 (omega arith)), omega arith)
attempts_all outcome attempt backoff (suc left) never =
    let shift = λ (j : ℕ). ap (λ n. is_success (outcome n)) (sym (shifted attempt j)) in
    let (e, f) =
      attempts_all outcome (suc attempt) (backoff * 2) left
        (λ j l. shift j ∙ never (suc j) (omega arith)) in
    fails_first outcome false left attempt backoff left (never 0 (omega arith)) e f

picked :
    (b : Bool) (x y : NodeWebhook) (n : ℕ)
    → ◌≡◌ {A = NodeWebhook × Bool × ℕ}
        (if b then (x, true, n) else (y, false, n))
        ((if b then x else y), b, n)
picked true x y n = refl
picked false x y n = refl

-- What is left when the loop is done.
sent_lem :
    (outcome : ℕ → Attempt) (url : String) (nw : NodeWebhook) (b : Bool) (k : ℕ)
    → (attempts_from outcome 0 500 nw.max_retries).0 ≡ b
    → (attempts_from outcome 0 500 nw.max_retries).1 + 500 ≡ 500 * 2 ^ k
    → send_webhook outcome url nw
      ≡ ((if b then record_success url nw else record_failure url nw), b, 500 * 2 ^ k - 500)
unfolding send_webhook
sent_lem outcome url nw b k e f =
    let slept : (attempts_from outcome 0 500 nw.max_retries).1 ≡ 500 * 2 ^ k - 500 =
      omega (arith, f) in
    rw (attempts_from, e, slept)
      (picked b (record_success url nw) (record_failure url nw) (500 * 2 ^ k - 500))

-- Of attempts of which the one after k retries is the first to succeed, and not more retries than
-- are allowed, `sendWebhook` makes no more than these: it returns no error, clears the address's
-- failures, and has slept 500 ms and twice as long before each further retry, 500 * (2 ^ k - 1) ms
-- in all.
delivered_on_retry :
    (outcome : ℕ → Attempt) (url : String) (nw : NodeWebhook) (k : ℕ)
    → k ≤ nw.max_retries
    → ((j : ℕ) → j < k → is_success (outcome j) ≡ false)
    → is_success (outcome k) ≡ true
    → send_webhook outcome url nw ≡ (record_success url nw, true, 500 * 2 ^ k - 500)
delivered_on_retry outcome url nw k h before now =
    let from_zero = λ (j : ℕ). ap (λ n. is_success (outcome n)) (zero_add j) in
    let (e, f) =
      attempts_until outcome k 0 500 nw.max_retries h (λ j l. from_zero j ∙ before j l)
        (from_zero k ∙ now) in
    sent_lem outcome url nw true k e f

-- When no attempt succeeds, `sendWebhook` ends after all retries that are allowed: it returns an
-- error, counts one more failure of the address, and has slept 500 * (2 ^ max_retries - 1) ms.
pub gives_up_after_retries :
    (outcome : ℕ → Attempt) (url : String) (nw : NodeWebhook)
    → ((j : ℕ) → j ≤ nw.max_retries → is_success (outcome j) ≡ false)
    → send_webhook outcome url nw ≡ (record_failure url nw, false, 500 * 2 ^ nw.max_retries - 500)
gives_up_after_retries outcome url nw never =
    let from_zero = λ (j : ℕ). ap (λ n. is_success (outcome n)) (zero_add j) in
    let (e, f) = attempts_all outcome 0 500 nw.max_retries (λ j l. from_zero j ∙ never j l) in
    sent_lem outcome url nw false nw.max_retries e f

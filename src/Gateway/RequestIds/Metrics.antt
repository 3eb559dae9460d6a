-- ===== src/Gateway/RequestIds/Metrics.antt =====
-- gateway/requestid.go: what the metrics count.
use pmi.Base.{
  ℕ, suc, ◌+◌, String, ◌≡◌, refl, sym, ap, ◌∙◌, subst, Bool, true, false, List, [], ◌∷◌, ◌++◌, map,
  arith, length, length-append, leb, if◌then◌else◌, ite, text_discrete,
}
use mathlib.Core.List.{append-nil, append_assoc, map-append}
use mathlib.Core.Path.{ap₂}
use pmi.Base.Window.{append_bounded, newest, append_bounded-newest, newest_nil}
use pmi.Gateway.RequestIds.{AdminMetrics, new_admin_metrics, record_call, record_request, put_at}

-- One request: its endpoint, its latency and its status.
pub record Served : Type 0 where
  pub endpoint : String
  pub latency_ms : ℕ
  pub status : ℕ

pub record_all : List Served → AdminMetrics → AdminMetrics
record_all [] am = am
record_all (r ∷ later) am = record_all later (record_request r.endpoint r.latency_ms r.status am)

-- The requests of an endpoint.
of_endpoint : String → List Served → List Served
of_endpoint endpoint [] = []
of_endpoint endpoint (r ∷ later) =
    ite (text_discrete r.endpoint endpoint) (r ∷ of_endpoint endpoint later)
      (of_endpoint endpoint later)

-- How many of them have a status that is an error.
unfoldable pub failures : List Served → ℕ
failures [] = 0
failures (r ∷ later) = if leb 400 r.status then suc (failures later) else failures later

abbrev latencies_of : List Served → List ℕ
latencies_of = map (λ r. r.latency_ms)

-- What the metrics of an endpoint are of its requests.
pub record IsCounted (am : AdminMetrics) (endpoint : String) (served : List Served) : Type 0 where
  pub calls : am.api_calls endpoint ≡ length served
  pub errors : am.errors endpoint ≡ failures served
  pub kept : am.latencies endpoint ≡ newest 1000 (map (λ r. r.latency_ms) served)

failures-append : (xs ys : List Served) → failures (xs ++ ys) ≡ failures xs + failures ys
unfolding failures
failures-append [] ys = omega arith
failures-append (r ∷ xs) ys =
    elim (leb 400 r.status)
      as (λ b.
        (if b then suc (failures (xs ++ ys)) else failures (xs ++ ys))
        ≡ (if b then suc (failures xs) else failures xs) + failures ys) [
          | true ↦ omega (arith, failures-append xs ys)
          | false ↦ failures-append xs ys
        ]

-- The requests of an endpoint after one more, which may be for it.
abbrev with_one : {e f : String} → Dec (e ≡ f) → List Served → Served → List Served
with_one d before r = before ++ ite d (r ∷ []) []

calls_one :
    (r : Served) (before : List Served) (calls : String → ℕ) (endpoint : String)
    → calls endpoint ≡ length before
    → put_at r.endpoint (calls r.endpoint + 1) calls endpoint
      ≡ length (with_one (text_discrete r.endpoint endpoint) before r)
unfolding put_at
calls_one r before calls endpoint h =
    elim (text_discrete r.endpoint endpoint)
      as (λ d. ite d (calls r.endpoint + 1) (calls endpoint) ≡ length (with_one d before r)) [
        | yes e ↦ ap (λ i. calls i + 1) e ∙ omega (arith, h, length-append before (r ∷ []))
        | no _ ↦ h ∙ ap length (sym (append-nil before))
      ]

counted_error :
    (b : Bool) (endpoint i : String) (errors : String → ℕ)
    → (if b then put_at endpoint (errors endpoint + 1) errors else errors) i
      ≡ errors i + ite (text_discrete endpoint i) (if b then suc 0 else 0) 0
unfolding put_at
counted_error true endpoint i errors =
    elim (text_discrete endpoint i)
      as (λ d. ite d (errors endpoint + 1) (errors i) ≡ errors i + ite d (suc 0) 0) [
        | yes e ↦ ap (λ k. errors k + 1) e
        | no _ ↦ omega arith
      ]
counted_error false endpoint i errors =
    elim (text_discrete endpoint i) as (λ d. errors i ≡ errors i + ite d 0 0) [
      | yes _ ↦ omega arith
      | no _ ↦ omega arith
    ]

failures_one :
    (r : Served) (endpoint : String)
    → failures (ite (text_discrete r.endpoint endpoint) (r ∷ []) [])
      ≡ ite (text_discrete r.endpoint endpoint) (if leb 400 r.status then suc 0 else 0) 0
unfolding failures
failures_one r endpoint =
    elim (text_discrete r.endpoint endpoint)
      as (λ d. failures (ite d (r ∷ []) []) ≡ ite d (if leb 400 r.status then suc 0 else 0) 0) [
        | yes _ ↦ refl
        | no _ ↦ refl
      ]

errors_one :
    (r : Served) (before : List Served) (errors : String → ℕ) (endpoint : String)
    → errors endpoint ≡ failures before
    → (if leb 400 r.status then put_at r.endpoint (errors r.endpoint + 1) errors else errors)
        endpoint
      ≡ failures (with_one (text_discrete r.endpoint endpoint) before r)
errors_one r before errors endpoint h =
    counted_error (leb 400 r.status) r.endpoint endpoint errors
    ∙ ap₂ ◌+◌ h (sym (failures_one r endpoint))
    ∙ sym (failures-append before _)

kept_one :
    (r : Served) (before : List Served) (latencies : String → List ℕ) (endpoint : String)
    → latencies endpoint ≡ newest 1000 (latencies_of before)
    → put_at r.endpoint (append_bounded 1000 r.latency_ms (latencies r.endpoint)) latencies endpoint
      ≡ newest 1000 (latencies_of (with_one (text_discrete r.endpoint endpoint) before r))
unfolding put_at
kept_one r before latencies endpoint h =
    elim (text_discrete r.endpoint endpoint)
      as (λ d.
        ite d (append_bounded 1000 r.latency_ms (latencies r.endpoint)) (latencies endpoint)
        ≡ newest 1000 (latencies_of (with_one d before r))) [
          | yes e ↦
              ap (append_bounded 1000 r.latency_ms) (ap latencies e ∙ h)
              ∙ append_bounded-newest 1000 r.latency_ms (latencies_of before)
              ∙ ap (newest 1000) (sym (map-append (λ x. x.latency_ms) before (r ∷ [])))
          | no _ ↦ h ∙ ap (λ l. newest 1000 (latencies_of l)) (sym (append-nil before))
        ]

record_one :
    (r : Served) (before : List Served) (am : AdminMetrics) (endpoint : String)
    → IsCounted am endpoint before
    → IsCounted
        (record_request r.endpoint r.latency_ms r.status am)
        endpoint
        (with_one (text_discrete r.endpoint endpoint) before r)
unfolding record_request record_call
record_one r before am endpoint h = record {
  calls = calls_one r before am.api_calls endpoint h.calls;
  errors = errors_one r before am.errors endpoint h.errors;
  kept = kept_one r before am.latencies endpoint h.kept;
}

with_one_later :
    (r : Served) (before later : List Served) (endpoint : String)
    → with_one (text_discrete r.endpoint endpoint) before r ++ of_endpoint endpoint later
      ≡ before ++ of_endpoint endpoint (r ∷ later)
unfolding of_endpoint
with_one_later r before later endpoint =
    elim (text_discrete r.endpoint endpoint)
      as (λ d.
        with_one d before r ++ of_endpoint endpoint later
        ≡ before ++ ite d (r ∷ of_endpoint endpoint later) (of_endpoint endpoint later)) [
          | yes _ ↦ append_assoc before (r ∷ []) (of_endpoint endpoint later)
          | no _ ↦ append_assoc before [] (of_endpoint endpoint later)
        ]

IsCounted-record_all :
    (served before : List Served) (am : AdminMetrics) (endpoint : String)
    → IsCounted am endpoint before
    → IsCounted (record_all served am) endpoint (before ++ of_endpoint endpoint served)
unfolding record_all of_endpoint
IsCounted-record_all [] before am endpoint h =
    subst (IsCounted am endpoint) (sym (append-nil before)) h
IsCounted-record_all (r ∷ later) before am endpoint h =
    let am' = record_request r.endpoint r.latency_ms r.status am in
    subst (IsCounted (record_all later am') endpoint) (with_one_later r before later endpoint) (
      IsCounted-record_all later (with_one (text_discrete r.endpoint endpoint) before r) am'
        endpoint (record_one r before am endpoint h))

-- From new metrics, after any requests were served, each endpoint has been counted once for each of
-- its requests and once as an error for each of these whose status is at least 400, and the newest
-- 1000 of its latencies are kept.
metrics_exact :
    (served : List Served) (endpoint : String)
    → IsCounted (record_all served new_admin_metrics) endpoint (of_endpoint endpoint served)
unfolding new_admin_metrics failures
metrics_exact served endpoint =
    IsCounted-record_all served [] new_admin_metrics endpoint
      (record { calls = refl; errors = refl; kept = sym (newest_nil 1000) })

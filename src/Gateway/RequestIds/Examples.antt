-- ===== src/Gateway/RequestIds/Examples.antt =====
-- gateway/requestid.go: two ids, and the metrics of three requests.
use pmi.Base.{
  text_append, ℕ, ◌+◌, ◌^◌, ◌<◌, String, ◌≡◌, ◌≢◌, refl, sym, ap, ◌∙◌, zero, suc, false, List, [],
  ◌∷◌, arith, replicate, length,
}
use Prim.Native.String.{count}
use text.Mathlib.TextLemmas.{length-append}
use pmi.Gateway.RequestIds.{RequestIdGenerator, new_admin_metrics, set_config_handler}
use pmi.Gateway.RequestIds.Distinct.{Moment}
use pmi.Gateway.RequestIds.Metrics.{Served}

-- A text that shows the counter: so many strokes.
abbrev strokes : ℕ → ℕ → String
strokes t zero = ""
strokes t (suc c) = text_append "|" (strokes t c)

count-strokes : (t c : ℕ) → count (strokes t c) ≡ c
count-strokes t zero = refl
count-strokes t (suc c) = omega (arith, length-append "|" (strokes t c), count-strokes t c)

strokes_show : (t u a b : ℕ) → strokes t a ≡ strokes u b → a ≡ b
strokes_show t u a b e = sym (count-strokes t a) ∙ ap count e ∙ count-strokes u b

abbrev generator : RequestIdGenerator
generator = record {
  config = record { prefix = "req"; format = "unix" };
  counter = 0;
  redis = record { connected = false; sent = [] };
}

-- The clock reads the same in both calls.
abbrev moments : List Moment
moments =
    record { nanos = 7; seconds = 0; uuid = "" } ∷ record { nanos = 7; seconds = 0; uuid = "" } ∷ []

abbrev served : List Served
served =
    record { endpoint = "/a"; latency_ms = 5; status = 200 }
    ∷ record { endpoint = "/b"; latency_ms = 6; status = 200 }
    ∷ record { endpoint = "/a"; latency_ms = 7; status = 404 }
    ∷ []

-- A format that is not one of the three is refused, but the prefix that came with it is kept.
half_applied :
    set_config_handler (λ s. s) (λ s. s) "new" "hex" generator
    ≡ (record generator { config = record { prefix = "new"; format = "unix" } }, 400)
unfolding set_config_handler pmi.Gateway.RequestIds.set_prefix pmi.Gateway.RequestIds.set_format
    pmi.Gateway.RequestIds.normalize_request_id_prefix
    pmi.Gateway.RequestIds.normalize_request_id_format pmi.Base.text_discrete
half_applied = refl

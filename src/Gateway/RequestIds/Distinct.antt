-- ===== src/Gateway/RequestIds/Distinct.antt =====
-- gateway/requestid.go: ids that are generated one after another differ.
use pmi.Base.{
  text_append, ℕ, ◌+◌, ◌^◌, ◌<◌, String, ◌≡◌, ◌≢◌, refl, sym, ◌∙◌, subst, List, [], ◌∷◌, arith,
  length, All, ite, text_discrete,
}
use native.Mathlib.Nat.{mod-eq_of_lt}
use text.Mathlib.TextLemmas.{append_cancel_left}
use pmi.Base.Sort.{Sorted}
use pmi.Base.Redis
use pmi.Base.Redis.{send}
use pmi.Gateway.RequestIds.{RequestIdConfig, RequestIdGenerator, generate, format_value, value_of}

-- One call of `Generate`: the clock, in nanoseconds and in seconds, and a new UUID.
pub record Moment : Type 0 where
  pub nanos : ℕ
  pub seconds : ℕ
  pub uuid : String

module _ (counted : ℕ → ℕ → String) where
  -- The ids of calls one after another.
  generate_all : List Moment → RequestIdGenerator → List String
  generate_all [] rig = []
  generate_all (m ∷ later) rig =
      let (rig', id) = generate counted m.nanos m.seconds m.uuid rig in id ∷ generate_all later rig'

  -- The generator after a call whose counter does not wrap around.
  next_generator : RequestIdGenerator → RequestIdGenerator
  next_generator rig = record rig {
    counter = rig.counter + 1;
    redis = send (Redis.hincr_by "request_id_counter" "global" 1 ∷ []) rig.redis;
  }

  value_counted :
      (m : Moment) (c : ℕ) (format : String)
      → format ≢ "uuid"
      → (t : ℕ) × (value_of counted m.nanos m.seconds m.uuid c format ≡ counted t c)
  unfolding value_of
  value_counted m c format h =
      elim (text_discrete format "uuid")
        as (λ d.
          (t : ℕ) × (ite d m.uuid
              (ite (text_discrete format "timestamp") (counted m.seconds c) (counted m.nanos c))
            ≡ counted t c)) [
              | yes e ↦ absurd (h e)
              | no _ ↦
                  elim (text_discrete format "timestamp")
                    as (λ d.
                      (t : ℕ) × (ite d (counted m.seconds c) (counted m.nanos c) ≡ counted t c)) [
                        | yes _ ↦ (m.seconds, refl)
                        | no _ ↦ (m.nanos, refl)
                      ]
            ]

  generate_step :
      (m : Moment) (rig : RequestIdGenerator)
      → rig.config.format ≢ "uuid"
      → rig.counter + 1 < 2 ^ 64
      → (t : ℕ) × (generate counted m.nanos m.seconds m.uuid rig
          ≡ (next_generator rig, format_value (counted t (rig.counter + 1)) rig.config))
  unfolding generate next_generator
  generate_step m rig h k =
      let (t, e) = value_counted m (rig.counter + 1) rig.config.format h in
      (t, rw (mod-eq_of_lt k, e) refl)

  -- An id that is made of a counter beyond a given one.
  abbrev IsBeyond : RequestIdConfig → ℕ → String → Type 0
  IsBeyond config c id = (t : ℕ) × (a : ℕ) × (c < a) × (id ≡ format_value (counted t a) config)

  IsBeyond-less :
      (config : RequestIdConfig) (c : ℕ) (ids : List String)
      → All (IsBeyond config (c + 1)) ids
      → All (IsBeyond config c) ids
  IsBeyond-less config c [] h = tt
  IsBeyond-less config c (id ∷ ids) ((t, a, l, e), h) =
      ((t, a, omega arith, e), IsBeyond-less config c ids h)

  module _ (counter_shows : (t u a b : ℕ) → counted t a ≡ counted u b → a ≡ b) where
    others_differ :
        (config : RequestIdConfig) (t c : ℕ) (ids : List String)
        → All (IsBeyond config c) ids
        → All (λ id. format_value (counted t c) config ≢ id) ids
    unfolding format_value
    others_differ config t c [] h = tt
    others_differ config t c (id ∷ ids) ((u, a, l, e), h) = (
      λ same.
          let behind =
            append_cancel_left config.prefix (text_append "-" (counted t c))
              (text_append "-" (counted u a)) (same ∙ e) in
          let values = append_cancel_left "-" (counted t c) (counted u a) behind in
          absurd (omega (arith, counter_shows t u c a values, l)),
      others_differ config t c ids h,
    )

    ids_lem :
        (moments : List Moment) (rig : RequestIdGenerator)
        → rig.config.format ≢ "uuid"
        → rig.counter + length moments < 2 ^ 64
        → All (IsBeyond rig.config rig.counter) (generate_all moments rig)
          × Sorted ◌≢◌ (generate_all moments rig)
    unfolding generate_all next_generator
    ids_lem [] rig h k = (tt, tt)
    ids_lem (m ∷ later) rig h k =
        let (t, e) = generate_step m rig h (omega arith) in
        let (beyond, differ) = ids_lem later (next_generator rig) h (omega (arith, k)) in
        let id = format_value (counted t (rig.counter + 1)) rig.config in
        subst
          (λ r.
            All (IsBeyond rig.config rig.counter) (r.1 ∷ generate_all later r.0)
            × Sorted ◌≢◌ (r.1 ∷ generate_all later r.0))
          (sym e)
          (
            (
              (t, rig.counter + 1, omega arith, refl),
              IsBeyond-less rig.config rig.counter _ beyond,
            ),
            (others_differ rig.config t (rig.counter + 1) _ beyond, differ),
          )

    -- Ids that `Generate` makes one after another, with a format other than "uuid", are all
    -- different, whatever the clock reads, as long as the counter stays below 2^64: when the text
    -- of a time and a counter shows the counter.
    ids_distinct :
        (moments : List Moment) (rig : RequestIdGenerator)
        → rig.config.format ≢ "uuid"
        → rig.counter + length moments < 2 ^ 64
        → Sorted ◌≢◌ (generate_all moments rig)
    ids_distinct moments rig h k = (ids_lem moments rig h k).1

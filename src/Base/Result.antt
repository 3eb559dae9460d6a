-- ===== src/Base/Result.antt =====
-- A value or an error, of which the text is kept.
use Prim.Native.String.{String}
use mathlib.Core.Path.{◌≡◌, refl}

pub data Result {ℓ} (A : Type ℓ) : Type ℓ where
  ok : A → Result A
  err : String → Result A

infixl 5 ◌>>=◌
abbrev pub ◌>>=◌ {ℓ κ} : {B : Type κ} {A : Type ℓ} → Result A → (A → Result B) → Result B
err e >>= step = err e
ok a >>= step = step a

-- `fmt.Errorf("…: %w", err)`, of which the first part is kept.
abbrev pub wrap {ℓ} : {A : Type ℓ} → String → Result A → Result A
wrap message (ok a) = ok a
wrap message (err e) = err message

-- The two parts of a chain that returned a value.
pub sequenced {ℓ κ} :
    {B : Type κ} {A : Type ℓ} (step : A → Result B) (first : Result A) {b : B}
    → (first >>= step) ≡ ok b
    → (a : A) × (first ≡ ok a) × (step a ≡ ok b)
sequenced step (err e) h = cc
sequenced step (ok a) h = (a, refl, h)

-- ===== src/Gateway/Retry/Contains.antt =====
-- gateway/retry.go: `containsString`, over the bytes of the texts.
pub mod Factors
use pmi.Base.{
  ℕ, zero, suc, ◌-◌, ◌==◌, Bool, true, false, ◌&&◌, ◌||◌, List, [], ◌∷◌, ltb, leb, length, take,
  drop,
}

abbrev pub Bytes : Type 0
Bytes = List ℕ

-- `==` of two texts.
unfoldable pub same : Bytes → Bytes → Bool
same [] [] = true
same (x ∷ xs) (y ∷ ys) = x == y && same xs ys
same xs ys = false

-- `s[i:i+len(substr)] == substr`
matches_at : Bytes → Bytes → ℕ → Bool
matches_at s substr i = same (take (length substr) (drop i s)) substr

-- The loop of `containsAny`, from `i` on for so many rounds after this one.
any_from : Bytes → Bytes → ℕ → ℕ → Bool
unfolding matches_at same
any_from s substr zero i = matches_at s substr i
any_from s substr (suc rounds) i = matches_at s substr i || any_from s substr rounds (suc i)

-- Where `substr` is not longer than `s`, which the caller has tested.
contains_any : Bytes → Bytes → Bool
unfolding any_from
contains_any s substr = any_from s substr (length s - length substr) 0

unfoldable pub contains_string : Bytes → Bytes → Bool
unfolding contains_any same
contains_string s substr =
    leb (length substr) (length s)
    && (same s substr
        || ltb (length substr) (length s)
          && (same (take (length substr) s) substr
              || same (drop (length s - length substr) s) substr
              || contains_any s substr))

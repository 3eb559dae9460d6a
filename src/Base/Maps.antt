-- ===== src/Base/Maps.antt =====
-- A Go map keyed by strings, as the function that a read computes.
use Prim.Native.String.{String}
use mathlib.Core.Path.{◌≡◌, refl, fun_ext}
use mathlib.Core.Logic.{ite, if_pos}
use native.Mathlib.Omega.{arith}
use mathlib.Core.Option.{Option, none, some}
use pmi.Base.Tests.{text_discrete}

abbrev pub StringMap {ℓ} : Type ℓ → Type ℓ
StringMap V = String → Option V

module _ {ℓ} {V : Type ℓ} where
  -- `make(map[string]V)`
  abbrev pub empty : StringMap V
  empty k = none

  -- `m[k] = v`
  abbrev pub insert : String → V → StringMap V → StringMap V
  insert k v m j = ite (text_discrete k j) (some v) (m j)

  -- `delete(m, k)`
  abbrev pub delete : String → StringMap V → StringMap V
  delete k m j = ite (text_discrete k j) none (m j)

  pub insert_self : (k : String) (v : V) (m : StringMap V) → insert k v m k ≡ some v
  insert_self k v m = if_pos (text_discrete k k) refl _ _

  delete-insert_at :
      (k : String) (v : V) (m : StringMap V) (j : String) → delete k (insert k v m) j ≡ delete k m j
  delete-insert_at k v m j = ground arith

  pub delete-insert : (k : String) (v : V) (m : StringMap V) → delete k (insert k v m) ≡ delete k m
  delete-insert k v m = fun_ext (delete-insert_at k v m)

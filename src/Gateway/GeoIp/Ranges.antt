-- ===== src/Gateway/GeoIp/Ranges.antt =====
-- gateway/geoip.go: which entry answers for an address, and which never does.
use pmi.Base.{
  ℕ, ◌+◌, ◌≤◌, String, ◌≡◌, refl, sym, ap, Bool, true, false, ◌&&◌, Option, none, some, List, [],
  ◌∷◌, arith, leb, Bool-cases, Option-cases, inl, inr, subst,
}
use pmi.Base.Result.{Result}
use mathlib.Core.List.{Memᴰ}
use pmi.Gateway.GeoIp.Table.{Ip, v4, GeoIpEntry, entries4}
use pmi.Gateway.GeoIp.{GeoIpService, to_int, ip_in_range, country_of, lookup, load_csv}

-- Each range begins where it should at the earliest, and those behind it begin after its end.
ascending : ℕ → List GeoIpEntry → Bool
ascending after [] = true
ascending after (e ∷ es) = elim (to_int e.start_ip) [
  | none ↦ false
  | some s ↦ elim (to_int e.end_ip) [
    | none ↦ false
    | some t ↦ leb after s && (leb s t && ascending (t + 1) es)
  ]
]

entries4-ascending : ascending 0 entries4 ≡ true
unfolding ascending to_int
entries4-ascending = refl

in_bounds :
    (n : ℕ) (ip : Ip) (e : GeoIpEntry)
    → to_int ip ≡ some n
    → ip_in_range ip e.start_ip e.end_ip ≡ true
    → (s : ℕ) × (t : ℕ) × (to_int e.start_ip ≡ some s)
      × (to_int e.end_ip ≡ some t)
      × (s ≤ n)
      × (n ≤ t)
unfolding ip_in_range
in_bounds n ip e is h = elim (Option-cases (to_int e.start_ip)) [
  | inl no_start ↦ ground arith
  | inr (s, starts) ↦ elim (Option-cases (to_int e.end_ip)) [
    | inl no_end ↦ ground arith
    | inr (t, ends) ↦ (s, t, starts, ends, ground arith, ground arith)
  ]
]

ascending_parts :
    (after : ℕ) (e : GeoIpEntry) (es : List GeoIpEntry)
    → ascending after (e ∷ es) ≡ true
    → (s : ℕ) × (t : ℕ) × (to_int e.start_ip ≡ some s)
      × (to_int e.end_ip ≡ some t)
      × (after ≤ s)
      × (s ≤ t)
      × (ascending (t + 1) es ≡ true)
unfolding ascending
ascending_parts after e es h = elim (Option-cases (to_int e.start_ip)) [
  | inl no_start ↦ ground arith
  | inr (s, starts) ↦ elim (Option-cases (to_int e.end_ip)) [
    | inl no_end ↦ ground arith
    | inr (t, ends) ↦ (s, t, starts, ends, ground arith, ground arith, ground arith)
  ]
]

-- An address in a range of the list is not before the list begins.
beyond :
    (after n : ℕ) (ip : Ip) (e : GeoIpEntry) (es : List GeoIpEntry)
    → to_int ip ≡ some n
    → ascending after es ≡ true
    → Memᴰ e es
    → ip_in_range ip e.start_ip e.end_ip ≡ true
    → after ≤ n
beyond after n ip e [] is up m h = elim m [ ]
beyond after n ip e (x ∷ xs) is up (Memᴰ.head p) h =
    let (s, t, starts, ends, le, le', up') = ascending_parts after x xs up in
    let here = subst (λ (y : GeoIpEntry). ip_in_range ip y.start_ip y.end_ip ≡ true) p h in
    let (s', t', starts', ends', low, high) = in_bounds n ip x is here in ground arith
beyond after n ip e (x ∷ xs) is up (Memᴰ.tail m) h =
    let (s, t, starts, ends, le, le', up') = ascending_parts after x xs up in
    omega (arith, beyond (t + 1) n ip e xs is up' m h)

country_of_entry :
    (after n : ℕ) (ip : Ip) (e : GeoIpEntry) (es : List GeoIpEntry)
    → to_int ip ≡ some n
    → ascending after es ≡ true
    → Memᴰ e es
    → ip_in_range ip e.start_ip e.end_ip ≡ true
    → country_of ip es ≡ e.country_code
unfolding country_of
country_of_entry after n ip e [] is up m h = elim m [ ]
country_of_entry after n ip e (x ∷ xs) is up (Memᴰ.head p) h =
    let here = subst (λ (y : GeoIpEntry). ip_in_range ip y.start_ip y.end_ip ≡ true) p h in
    rw here (ap (λ (y : GeoIpEntry). y.country_code) (sym p))
country_of_entry after n ip e (x ∷ xs) is up (Memᴰ.tail m) h =
    let (s, t, starts, ends, le, le', up') = ascending_parts after x xs up in
    let later = beyond (t + 1) n ip e xs is up' m h in
    elim (Bool-cases (ip_in_range ip x.start_ip x.end_ip)) [
      | inl here ↦
          let (s', t', starts', ends', low, high) = in_bounds n ip x is here in
          absurd (ground arith)
      | inr not_here ↦ rw not_here (country_of_entry (t + 1) n ip e xs is up' m h)
    ]

module _ (parse_ip : String → Option Ip) (to_lower : String → String) where
  -- An address in the range of an entry of the table is of that entry's country: no two ranges of
  -- the table overlap.
  pub lookup_entry :
      (ip_str : String) (a b c d : ℕ) (e : GeoIpEntry) (g : GeoIpService)
      → parse_ip ip_str ≡ some (v4 a b c d)
      → Memᴰ e entries4
      → ip_in_range (v4 a b c d) e.start_ip e.end_ip ≡ true
      → lookup parse_ip to_lower ip_str g ≡ e.country_code
  unfolding lookup to_int
  lookup_entry ip_str a b c d e g parsed m h =
      rw (lookup, parsed) (country_of_entry 0 _ (v4 a b c d) e entries4 refl entries4-ascending m h)

  -- Whatever database is loaded, every lookup answers as before.
  loaded_database_unused :
      (file : Result (List (List String))) (ip_str : String) (g : GeoIpService)
      → lookup parse_ip to_lower ip_str (load_csv parse_ip to_lower file g).0
        ≡ lookup parse_ip to_lower ip_str g
  unfolding lookup
  loaded_database_unused file ip_str g = refl

-- ===== src/Gateway/GeoIp.antt =====
-- gateway/geoip.go: the country of an address. `net.ParseIP` is a parameter; what the CSV reader
-- makes of the file, or its error, is an argument.
pub mod Table
mod Ranges
mod Examples
use pmi.Base.{
  ℕ, ◌+◌, ◌*◌, ◌^◌, String, Bool, true, false, ◌&&◌, Option, none, some, List, [], ◌∷◌, ◌++◌, leb,
  if◌then◌else◌, ite, text_discrete,
}
use pmi.Base.Result.{Result, ok, err}
use Table.{Ip, v4, v6, GeoIpEntry, entries4}

pub record GeoIpService : Type 0 where
  pub entries : List GeoIpEntry

pub new_geo_ip_service : GeoIpService
new_geo_ip_service = record { entries = [] }

-- The shifts of bytes into separate places, as a sum.
ip4to_int : ℕ → ℕ → ℕ → ℕ → ℕ
ip4to_int a b c d = a * 2 ^ 24 + b * 2 ^ 16 + c * 2 ^ 8 + d

pub to_int : Ip → Option ℕ
unfolding ip4to_int
to_int (v4 a b c d) = some (ip4to_int a b c d)
to_int v6 = none

between : Option ℕ → Option ℕ → Option ℕ → Bool
between (some ip) (some start) (some last) = leb start ip && leb ip last
between ip start last = false

pub ip_in_range : Ip → Ip → Ip → Bool
unfolding to_int between
ip_in_range ip start last = between (to_int ip) (to_int start) (to_int last)

-- The loop of `Lookup`.
pub country_of : Ip → List GeoIpEntry → String
unfolding ip_in_range
country_of ip [] = ""
country_of ip (entry ∷ entries) =
    if ip_in_range ip entry.start_ip entry.end_ip then entry.country_code else country_of ip entries

module _ (parse_ip : String → Option Ip) (to_lower : String → String) where
  pub lookup : String → GeoIpService → String
  unfolding country_of
  lookup ip_str g = elim (parse_ip ip_str) [
    | none ↦ ""
    | some v6 ↦ ""
    | some (v4 a b c d) ↦ country_of (v4 a b c d) entries4
  ]

  entry_of : String → String → String → String → List GeoIpEntry
  entry_of start last country country_code = elim (parse_ip start) [
    | none ↦ []
    | some start_ip ↦ elim (parse_ip last) [
      | none ↦ []
      | some end_ip ↦
          record {
            start_ip = start_ip;
            end_ip = end_ip;
            country = country;
            country_code = country_code;
          }
          ∷ []
    ]
  ]

  -- One round of the loop: the entries that the row adds.
  of_row : List String → List GeoIpEntry
  unfolding entry_of
  of_row (start ∷ last ∷ country ∷ []) = entry_of start last country ""
  of_row (start ∷ last ∷ country ∷ code ∷ others) = entry_of start last country code
  of_row short = []

  of_rows : List (List String) → List GeoIpEntry
  unfolding of_row
  of_rows [] = []
  of_rows (row ∷ rows) = of_row row ++ of_rows rows

  is_header : List String → Bool
  is_header [] = false
  is_header (first ∷ others) = ite (text_discrete (to_lower first) "start_ip") true false

  of_records : List (List String) → List GeoIpEntry
  unfolding is_header of_rows
  of_records [] = []
  of_records (row ∷ rows) = if is_header row then of_rows rows else of_row row ++ of_rows rows

  -- The error, none for nil.
  pub load_csv : Result (List (List String)) → GeoIpService → GeoIpService × Option String
  unfolding of_records
  load_csv (err e) g = (g, some e)
  load_csv (ok records) g = (record g { entries = of_records records }, none)

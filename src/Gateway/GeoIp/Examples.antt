-- ===== src/Gateway/GeoIp/Examples.antt =====
-- gateway/geoip.go: the addresses of the tests, with a parser of two addresses.
use pmi.Base.{String, ◌≡◌, refl, Option, none, some, List, [], ◌∷◌, ite, text_discrete}
use pmi.Base.Result.{Result, ok}
use mathlib.Core.List.{Memᴰ}
use pmi.Gateway.GeoIp.Table.{Ip, v4, GeoIpEntry, block}
use pmi.Gateway.GeoIp.{GeoIpService, new_geo_ip_service, lookup, load_csv, ip_in_range}
use pmi.Gateway.GeoIp.Ranges.{lookup_entry}

abbrev parse_ip : String → Option Ip
parse_ip ip =
    ite (text_discrete ip "8.8.8.8") (some (v4 8 8 8 8))
      (ite (text_discrete ip "151.1.1.1") (some (v4 151 1 1 1)) none)

abbrev to_lower : String → String
to_lower s = s

abbrev service : GeoIpService
service = new_geo_ip_service

abbrev us : GeoIpEntry
us = block 8 8 "United States" "US"

lookup_entry_example : lookup parse_ip to_lower "8.8.8.8" service ≡ "US"
unfolding pmi.Gateway.GeoIp.ip_in_range pmi.Base.text_discrete
lookup_entry_example =
    lookup_entry parse_ip to_lower "8.8.8.8" 8 8 8 8 us service refl
      (Memᴰ.tail (Memᴰ.tail (Memᴰ.head refl))) refl

abbrev rows : Result (List (List String))
rows = ok (("151.1.1.1" ∷ "151.1.1.1" ∷ "Italy" ∷ "IT" ∷ []) ∷ [])

europe : lookup parse_ip to_lower "151.1.1.1" service ≡ "EU"
unfolding lookup pmi.Base.text_discrete
europe = refl

one_entry_loaded :
    (load_csv parse_ip to_lower rows service).0.entries
    ≡ record {
      start_ip = v4 151 1 1 1;
      end_ip = v4 151 1 1 1;
      country = "Italy";
      country_code = "IT";
    }
      ∷ []
unfolding load_csv pmi.Base.text_discrete
one_entry_loaded = refl

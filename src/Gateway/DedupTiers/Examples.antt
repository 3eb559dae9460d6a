-- ===== src/Gateway/DedupTiers/Examples.antt =====
-- gateway/dedup_tiers.go: runs of marks.
use pmi.Base.{◌≡◌, refl, false, text_discrete}
use pmi.Gateway.DedupTiers.{RequestDedup, new_request_dedup, check_and_mark}

abbrev fresh : RequestDedup
fresh = new_request_dedup 100

abbrev marked : RequestDedup
marked = (check_and_mark 5 "h" "n" fresh).0

repeats_within_ttl : (check_and_mark 90 "h" "m" marked).1 ≡ (false, "n")
unfolding check_and_mark new_request_dedup text_discrete
repeats_within_ttl = refl

-- ===== src/Gateway/Distributed/Examples.antt =====
-- gateway/redis_ratelimit.go: two requests in a window of a hundred.
use pmi.Base.{
  ℕ, ◌+◌, ◌-◌, ◌<◌, ◌≡◌, ◌↔◌, refl, sym, ap, String, Bool, true, false, none, List, [], ◌∷◌, length,
  ltb, ite, if_pos, text_discrete, arith,
}
use pmi.Gateway.Distributed.{above, SortedSets, DistributedRateLimiter, limit_key, allow}
use pmi.Gateway.Distributed.Sliding.{Falling, run, allow_sliding}

abbrev Sets : Type 0
Sets = String → List ℕ

abbrev store : SortedSets Sets
store = record {
  score = λ t. t;
  zrev_range = λ k s. s k;
  zrem_range_by_score = λ k bound s j. ite (text_discrete k j) (above (λ t. t) bound (s j)) (s j);
  zcard = λ k s. length (s k);
  zadd = λ k t s j. ite (text_discrete k j) (t ∷ s j) (s j);
  zrem_lem = λ k bound s. if_pos (text_discrete k k) refl _ _;
  score_mono = λ t u le. le;
  zcard_lem = λ k s. refl;
  zadd_lem = λ k t s all. if_pos (text_discrete k k) refl _ _;
}

abbrev limiter : DistributedRateLimiter
limiter = record { limit = 2; window = 100 }

abbrev times : List ℕ
times = 230 ∷ 210 ∷ 90 ∷ []

abbrev none_yet : Sets
none_yet k = []

falling : Falling 250 times
unfolding pmi.Gateway.Distributed.Sliding.Falling
falling = (omega arith, (omega arith, (omega arith, tt)))

allow_sliding_example :
    ((allow store limiter none "10.0.0.1" 250 (run store limiter "10.0.0.1" times none_yet)).1
      ≡ true)
    ↔ (length (above (λ t. t) 150 times) < 2)
allow_sliding_example = allow_sliding store limiter "10.0.0.1" 250 times none_yet refl falling

refused :
    (allow store limiter none "10.0.0.1" 250 (run store limiter "10.0.0.1" times none_yet)).1
    ≡ false
unfolding allow pmi.Gateway.Distributed.counted pmi.Gateway.Distributed.Sliding.run above
    pmi.Gateway.Distributed.limit_key pmi.Base.text_discrete
refused = refl

-- ===== src/Gateway/Distributed/Sliding.antt =====
-- gateway/redis_ratelimit.go: the limit holds in every window, and refused requests count.
use pmi.Base.{
  ℕ, ◌+◌, ◌-◌, ◌<◌, ◌≤◌, ◌≡◌, refl, ap, ◌∙◌, String, true, false, none, Bool-cases, inl, inr, List,
  [], ◌∷◌, length, ltb, if◌then◌else◌, All, arith, ◌↔◌, ltb→lt, lt→ltb,
}
use pmi.Gateway.Distributed.{above, SortedSets, DistributedRateLimiter, limit_key, counted, allow}

-- Times from the latest to the first, all of them before `now`.
unfoldable pub Falling : ℕ → List ℕ → Type 0
Falling now [] = Unit
Falling now (t ∷ ts) = (t < now) × Falling t ts

above_again :
    (score : ℕ → ℕ) (start bound : ℕ) (ts : List ℕ)
    → score bound ≤ score start
    → above score start (above score bound ts) ≡ above score start ts
unfolding above
above_again score start bound [] le = refl
above_again score start bound (t ∷ ts) le =
    let rest = above_again score start bound ts le in
    elim (Bool-cases (ltb (score bound) (score t))) [
      | inl e ↦ rw e (ap (λ l. if ltb (score start) (score t) then t ∷ l else l) rest)
      | inr e ↦ let low : ltb (score start) (score t) ≡ false = ground arith in rw (e, low) rest
    ]

above-All :
    (score : ℕ → ℕ) (now bound : ℕ) (ts : List ℕ)
    → All (λ u. u < now) ts
    → All (λ u. u < now) (above score bound ts)
unfolding above
above-All score now bound [] all = tt
above-All score now bound (t ∷ ts) (lt, all) =
    let rest = above-All score now bound ts all in
    elim (Bool-cases (ltb (score bound) (score t))) [ inl e ↦ rw e (lt, rest) | inr e ↦ rw e rest ]

before_later : (t now : ℕ) (ts : List ℕ) → t < now → All (λ u. u < t) ts → All (λ u. u < now) ts
before_later t now [] lt all = tt
before_later t now (u ∷ ts) lt (first, all) =
    (omega (arith, first, lt), before_later t now ts lt all)

module _ {ℓ} {S : Type ℓ} (redis : SortedSets S) (rl : DistributedRateLimiter)
    (client : String) where
  -- The requests of a client, from the latest to the first.
  unfoldable pub run : List ℕ → S → S
  run [] s = s
  run (t ∷ ts) s = (allow redis rl none client t (run ts s)).0

  kept : List ℕ → S → List ℕ
  kept ts s = redis.zrev_range (limit_key client) (run ts s)

  -- What a request leaves in the set.
  kept_next :
      (t : ℕ) (ts : List ℕ) (s : S)
      → All (λ u. u < t) (kept ts s)
      → kept (t ∷ ts) s ≡ t ∷ above redis.score (t - rl.window) (kept ts s)
  unfolding run kept allow counted
  kept_next t ts s before =
      let key = limit_key client in
      let removed = redis.zrem_lem key (t - rl.window) (run ts s) in
      redis.zadd_lem key t _
        (rw removed (above-All redis.score t (t - rl.window) (kept ts s) before))
      ∙ ap (λ l. t ∷ l) removed

  kept-All :
      (now : ℕ) (ts : List ℕ) (s : S)
      → kept [] s ≡ []
      → Falling now ts
      → All (λ u. u < now) (kept ts s)
  unfolding Falling
  kept-All now [] s none_yet falling = rw none_yet tt
  kept-All now (t ∷ ts) s none_yet (lt, falling) =
      let before = kept-All t ts s none_yet falling in
      rw (kept_next t ts s before)
        (lt, before_later t now _ lt (above-All redis.score t (t - rl.window) (kept ts s) before))

  -- The set holds every request that a later window reaches.
  kept_above :
      (start now : ℕ) (ts : List ℕ) (s : S)
      → kept [] s ≡ []
      → Falling now ts
      → now ≤ start + rl.window
      → above redis.score start (kept ts s) ≡ above redis.score start ts
  unfolding above Falling
  kept_above start now [] s none_yet falling le = ap (above redis.score start) none_yet
  kept_above start now (t ∷ ts) s none_yet (lt, falling) le =
      let before = kept-All t ts s none_yet falling in
      let earlier =
        above_again redis.score start (t - rl.window) (kept ts s)
          (redis.score_mono _ _ (omega arith))
        ∙ kept_above start t ts s none_yet falling (omega arith) in
      ap (above redis.score start) (kept_next t ts s before)
      ∙ ap (λ l. if ltb (redis.score start) (redis.score t) then t ∷ l else l) earlier

  -- After any requests of a client, each later than the one before, where no pipeline fails, the
  -- next is allowed exactly if fewer requests than the limit, the refused ones included, came
  -- less than a window before it: later than the start of its window, as far as float64 tells the
  -- two apart.
  pub allow_sliding :
      (now : ℕ) (ts : List ℕ) (s : S)
      → redis.zrev_range (limit_key client) s ≡ []
      → Falling now ts
      → ((allow redis rl none client now (run ts s)).1 ≡ true)
        ↔ (length (above redis.score (now - rl.window) ts) < rl.limit)
  unfolding allow counted run kept
  allow_sliding now ts s none_yet falling =
      let key = limit_key client in
      let start = now - rl.window in
      let counted =
        redis.zcard_lem key (redis.zrem_range_by_score key start (run ts s))
        ∙ ap length (
            redis.zrem_lem key start (run ts s)
            ∙ kept_above start now ts s none_yet falling (omega arith)) in
      rw counted (λ e. ltb→lt _ _ e, λ lt. lt→ltb _ _ lt)

-- ===== src/Gateway/RateLimit/Window.antt =====
-- gateway/ratelimit.go: how many requests a window lets through.
use pmi.Base.{
  insert_self, ℕ, ◌+◌, ◌-◌, ◌≤◌, ◌<◌, min, String, ◌≡◌, true, false, none, some, List, [], ◌∷◌,
  arith, dec_le, if◌then◌else◌, length, All, insert,
}
use pmi.Gateway.RateLimit.{LocalRateLimiter, ClientRateLimit, allow, start_window}

-- The arrivals of one client, handed to `allow` one after another; how many pass.
admitted : String → List ℕ → LocalRateLimiter → LocalRateLimiter × ℕ
admitted id [] rl = (rl, 0)
admitted id (now ∷ later) rl =
    let (rl', passed) = allow now id rl in
    let (rl'', n) = admitted id later rl' in (rl'', if passed then n + 1 else n)

allow_fresh :
    (now : ℕ) (id : String) (rl : LocalRateLimiter)
    → rl.requests id ≡ none
    → allow now id rl ≡ start_window now id rl
unfolding allow
allow_fresh now id rl e = ground arith

allow_full :
    (now : ℕ) (id : String) (rl : LocalRateLimiter) (client : ClientRateLimit)
    → rl.requests id ≡ some client
    → now ≤ client.reset_time
    → rl.limit ≤ client.count
    → allow now id rl ≡ (record rl { limited = rl.limited + 1 }, false)
unfolding allow
allow_full now id rl client e h full = ground arith

allow_room :
    (now : ℕ) (id : String) (rl : LocalRateLimiter) (client : ClientRateLimit)
    → rl.requests id ≡ some client
    → now ≤ client.reset_time
    → client.count < rl.limit
    → allow now id rl ≡ (
      record rl { requests = insert id (record client { count = client.count + 1 }) rl.requests },
      true,
    )
unfolding allow
allow_room now id rl client e h room = ground arith

counted :
    (id : String) (ts : List ℕ) (rl : LocalRateLimiter) (client : ClientRateLimit)
    → rl.requests id ≡ some client
    → All (λ now. now ≤ client.reset_time) ts
    → (admitted id ts rl).1 ≡ min (length ts) (rl.limit - client.count)
unfolding admitted
counted id [] rl client e h = omega arith
counted id (now ∷ ts) rl client e h = elim (dec_le rl.limit client.count) [
  | yes full ↦
      rw (allow_full now id rl client e h.0 full)
        (omega (arith, counted id ts (record rl { limited = rl.limited + 1 }) client e h.1))
  | no room ↦
      let client' : ClientRateLimit = record client { count = client.count + 1 } in
      rw (allow_room now id rl client e h.0 (omega arith)) (
        omega (
          arith,
          counted id ts (record rl { requests = insert id client' rl.requests }) client'
              (insert_self id client' rl.requests) h.1,
        ))
]

-- A client with no entry, whose requests all arrive within one window of the first: the first
-- passes whatever the limit is, and of the others exactly as many as the limit leaves.
window_exact :
    (id : String) (now : ℕ) (ts : List ℕ) (rl : LocalRateLimiter)
    → rl.requests id ≡ none
    → All (λ t. t ≤ now + rl.window) ts
    → (admitted id (now ∷ ts) rl).1 ≡ 1 + min (length ts) (rl.limit - 1)
unfolding admitted start_window
window_exact id now ts rl e h =
    let client : ClientRateLimit = record { count = 1; reset_time = now + rl.window } in
    rw (allow_fresh now id rl e) (
      omega (
        arith,
        counted id ts (record rl { requests = insert id client rl.requests }) client
            (insert_self id client rl.requests) h,
      ))

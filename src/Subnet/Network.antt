-- ===== src/Subnet/Network.antt =====
-- internal/subnet/allocator.go: which network a subnet that was calculated lies in.
use pmi.Base.{
  ℕ, zero, suc, ◌+◌, ◌-◌, ◌/◌, ◌%◌, ◌^◌, ◌≤◌, ◌<◌, String, ◌≡◌, refl, ap, ◌∙◌, inl, inr, Option,
  some, List, [], ◌∷◌, arith, dec_lt, dec_le, ◌==◌, Bool-cases, take,
}
use native.Mathlib.Nat.{pow-suc, pow-zero, pow-le-pow_right}
use pmi.Base.Result.{ok}
use pmi.Subnet.{or_at, write_index, max_subnets, subnet_bytes}

take-or_at : (n i b : ℕ) (bytes : List ℕ) → n ≤ i → take n (or_at i b bytes) ≡ take n bytes
unfolding or_at
take-or_at zero i b bytes h = refl
take-or_at (suc n) i b [] h = refl
take-or_at (suc n) zero b (x ∷ xs) h = absurd (omega arith)
take-or_at (suc n) (suc i) b (x ∷ xs) h = ap (◌∷◌ x) (take-or_at n i b xs (omega arith))

-- An index of at most `k` bytes, written from byte `8 + k - 1` down, leaves the first eight alone.
take-write_index :
    (k n i : ℕ) (bytes : List ℕ)
    → 8 + k ≤ n
    → i < 256 ^ k
    → take 8 (write_index n i bytes) ≡ take 8 bytes
unfolding write_index
take-write_index k zero i bytes h g = absurd (omega arith)
take-write_index zero (suc n) i bytes h g =
    let none_left : i ≡ 0 = omega (arith, pow-zero 256) in rw none_left
take-write_index (suc k) (suc n) i bytes h g = elim (Bool-cases (i == 0)) [
  | inl e ↦ rw e
  | inr e ↦ rw e (
      take-write_index k n (i / 256) (or_at n (i % 256) bytes) (omega arith)
        (omega (arith, pow-suc 256 k))
      ∙ take-or_at 8 n (i % 256) bytes (omega arith))
]

granted :
    (parse : String → Option (List ℕ)) (prefix : String) (prefix_len index : ℕ) (ip bytes : List ℕ)
    → parse prefix ≡ some ip
    → prefix_len ≤ 64
    → subnet_bytes parse prefix prefix_len index ≡ ok bytes
    → (index < 2 ^ (64 - prefix_len)) × (bytes ≡ write_index (16 - prefix_len / 8) index ip)
unfolding subnet_bytes
granted parse prefix prefix_len index ip bytes e hi h =
    elim (dec_le (max_subnets prefix_len) index) [
      | yes p ↦ absurd (ground arith)
      | no p ↦ (ground arith, ground arith)
    ]

below : (width bits index : ℕ) → index < 2 ^ bits → bits ≤ width → index < 2 ^ width
below width bits index h g = omega (arith, pow-le-pow_right {n = 2} (omega arith) g)

-- The bytes that an index takes, by the length of the prefix.
network_kept :
    (prefix_len index : ℕ) (ip : List ℕ)
    → 48 ≤ prefix_len
    → prefix_len ≤ 64
    → index < 2 ^ (64 - prefix_len)
    → take 8 (write_index (16 - prefix_len / 8) index ip) ≡ take 8 ip
network_kept prefix_len index ip lo hi g = elim (dec_lt prefix_len 56) [
  | yes p ↦
      take-write_index 2 (16 - prefix_len / 8) index ip (omega arith)
        (below 16 (64 - prefix_len) index g (omega arith))
  | no p ↦ elim (dec_lt prefix_len 64) [
    | yes q ↦
        take-write_index 1 (16 - prefix_len / 8) index ip (omega arith)
          (below 8 (64 - prefix_len) index g (omega arith))
    | no q ↦
        take-write_index 0 (16 - prefix_len / 8) index ip (omega arith)
          (below 0 (64 - prefix_len) index g (omega arith))
  ]
]

-- Whatever indices are asked for, the subnets that a pool of a registered length hands out begin
-- with the eight bytes of the pool's prefix: they are all the same /64 network.
pub subnet_bytes-network :
    (parse : String → Option (List ℕ)) (prefix : String) (prefix_len index : ℕ) (ip bytes : List ℕ)
    → parse prefix ≡ some ip
    → 48 ≤ prefix_len
    → prefix_len ≤ 64
    → subnet_bytes parse prefix prefix_len index ≡ ok bytes
    → take 8 bytes ≡ take 8 ip
subnet_bytes-network parse prefix prefix_len index ip bytes e lo hi h =
    let (g, same) = granted parse prefix prefix_len index ip bytes e hi h in
    rw same (network_kept prefix_len index ip lo hi g)

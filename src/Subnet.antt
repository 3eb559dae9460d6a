-- ===== src/Subnet.antt =====
-- internal/subnet/allocator.go: /64 subnets of an IPv6 pool, kept in Redis hashes.
mod Network
mod Allocation
mod Examples
use pmi.Base.{
  [], bit_or, ℕ, zero, suc, ◌+◌, ◌-◌, ◌/◌, ◌%◌, ◌^◌, String, ◌≡◌, ◌≢◌, ite, Bool, true, not, ◌||◌,
  Option, none, some, List, ◌∷◌, ltb, leb, ◌==◌, if◌then◌else◌, text_discrete, length,
}
use pmi.Base.Result.{Result, ok, err}

-- The keys "subnet_pool:<prefix>/<len>" and "subnet_alloc:<prefix>/<len>".
pub data Key : Type 0 where
  pool : String → ℕ → Key
  alloc : String → ℕ → Key

pub data Delta : Type 0 where
  plus_one minus_one : Delta

-- The commands on Redis hashes that the allocator uses, and what it relies on.
pub record HashStore : Type 1 where
  pub Db : Type 0
  pub key_exists : Key → Db → Bool
  pub hget : Key → String → Db → Option String
  pub hlen : Key → Db → ℕ
  pub hset : Key → String → String → Db → Db
  pub hdel : Key → String → Db → Db
  pub hincr_by : Key → String → Delta → Db → Db
  pub create : Key → String → ℕ → Db → Db
  pub hget-hset_self : (k : Key) (f v : String) (db : Db) → hget k f (hset k f v db) ≡ some v
  pub hget-hset_ne :
      (k : Key) (f g v : String) (db : Db) → f ≢ g → hget k g (hset k f v db) ≡ hget k g db
  pub hlen-hset_new :
      (k : Key) (f v : String) (db : Db)
      → hget k f db ≡ none
      → hlen k (hset k f v db) ≡ hlen k db + 1
  pub hget-hdel_ne :
      (k : Key) (f g : String) (db : Db) → f ≢ g → hget k g (hdel k f db) ≡ hget k g db
  pub hlen-hdel :
      (k : Key) (f v : String) (db : Db)
      → hget k f db ≡ some v
      → hlen k (hdel k f db) + 1 ≡ hlen k db
  pub hget-hincr_by :
      (p : String) (n : ℕ) (f g : String) (d : Delta) (db : Db)
      → hget (alloc p n) g (hincr_by (pool p n) f d db) ≡ hget (alloc p n) g db
  pub hlen-hincr_by :
      (p : String) (n : ℕ) (f : String) (d : Delta) (db : Db)
      → hlen (alloc p n) (hincr_by (pool p n) f d db) ≡ hlen (alloc p n) db
  pub exists-hset :
      (p : String) (n : ℕ) (f v : String) (db : Db)
      → key_exists (pool p n) (hset (alloc p n) f v db) ≡ key_exists (pool p n) db
  pub exists-hdel :
      (p : String) (n : ℕ) (f : String) (db : Db)
      → key_exists (pool p n) (hdel (alloc p n) f db) ≡ key_exists (pool p n) db
  pub exists-hincr_by :
      (p : String) (n : ℕ) (f : String) (d : Delta) (db : Db)
      → key_exists (pool p n) db ≡ true
      → key_exists (pool p n) (hincr_by (pool p n) f d db) ≡ true

-- `ipBytes[i] |= b`
or_at : ℕ → ℕ → List ℕ → List ℕ
or_at i b [] = []
or_at zero b (x ∷ xs) = bit_or x b ∷ xs
or_at (suc i) b (x ∷ xs) = x ∷ or_at i b xs

-- The loop of `calculateSubnet`; its first argument is 16 - byteStart, so 15 - byteStart is one
-- less.
pub write_index : ℕ → ℕ → List ℕ → List ℕ
unfolding or_at
write_index zero i bytes = bytes
write_index (suc n) i bytes =
    let rest = write_index n (i / 256) (or_at n (i % 256) bytes) in if i == 0 then bytes else rest

-- `1 << uint(64 - prefixLen)`: a prefix longer than 64 shifts everything out.
abbrev pub max_subnets : ℕ → ℕ
max_subnets prefix_len = if leb prefix_len 64 then 2 ^ (64 - prefix_len) else 0

-- `parse` is `net.ParseIP` with `To16`: sixteen bytes, or none.
pub subnet_bytes : (String → Option (List ℕ)) → String → ℕ → ℕ → Result (List ℕ)
subnet_bytes parse prefix prefix_len index = elim (parse prefix) [
  | none ↦ err "invalid prefix"
  | some ip ↦
      if leb (max_subnets prefix_len) index
      then err "no more subnets available"
      else ok (write_index (16 - prefix_len / 8) index ip)
]

-- `show` is `IP.String` followed by "/64".
pub calculate_subnet :
    (String → Option (List ℕ)) → (List ℕ → String) → String → ℕ → ℕ → Result String
calculate_subnet parse show prefix prefix_len index =
    elim (subnet_bytes parse prefix prefix_len index) [ err e ↦ err e | ok bytes ↦ ok (show bytes) ]

module _ (store : HashStore) (parse : String → Option (List ℕ)) (show : List ℕ → String) where
  open store use {Db, key_exists, hget, hlen, hset, hdel, hincr_by, create}

  -- `fails` says whether the command of the call fails.
  register_pool : Bool → String → ℕ → Db → Db × Result (Unit {0})
  register_pool fails prefix prefix_len db =
      if ltb prefix_len 48 || ltb 64 prefix_len
      then (db, err "prefix length must be between 48 and 64")
      else elim (parse prefix) [
        | none ↦ (db, err "invalid IPv6 prefix")
        | some ip ↦
            if fails
            then (db, err "redis")
            else (create (pool prefix prefix_len) prefix prefix_len db, ok tt)
      ]

  -- `""` in a hash counts as no subnet.
  existing_subnet : Option String → Option String
  existing_subnet none = none
  existing_subnet (some s) = ite (text_discrete s "") none (some s)

  -- From the `HSet` on. `fails i` says whether the i-th command of the call fails; the last one's
  -- error is dropped.
  store_subnet : (ℕ → Bool) → String → String → ℕ → String → Db → Db × Result String
  store_subnet fails node_id prefix prefix_len subnet db = if fails 3 then (db, err "redis") else (
    let db' = hset (alloc prefix prefix_len) node_id subnet db in
        if fails 4 then db' else hincr_by (pool prefix prefix_len) "allocated" plus_one db',
    ok subnet,
  )

  -- From the `HLen` on.
  allocate_new : (ℕ → Bool) → String → String → ℕ → Db → Db × Result String
  allocate_new fails node_id prefix prefix_len db =
      if fails 2
      then (db, err "redis")
      else elim (calculate_subnet parse show prefix prefix_len
          (hlen (alloc prefix prefix_len) db)) [
            | err e ↦ (db, err e)
            | ok subnet ↦ store_subnet fails node_id prefix prefix_len subnet db
          ]

  pub allocate : (ℕ → Bool) → String → String → ℕ → Db → Db × Result String
  allocate fails node_id prefix prefix_len db =
      if fails 0 || not (key_exists (pool prefix prefix_len) db)
      then (db, err "subnet pool not found")
      else elim (if fails 1
          then none
          else existing_subnet (hget (alloc prefix prefix_len) node_id db)) [
            | some subnet ↦ (db, ok subnet)
            | none ↦ allocate_new fails node_id prefix prefix_len db
          ]

  -- The pools' names that `Keys` returned; none of the commands fails.
  pub deallocate : List (String × ℕ) → String → Db → Db
  deallocate [] node_id db = db
  deallocate ((prefix, prefix_len) ∷ keys) node_id db =
      elim (hget (alloc prefix prefix_len) node_id db) [
        | none ↦ deallocate keys node_id db
        | some s ↦
            hincr_by (pool prefix prefix_len) "allocated" minus_one
              (hdel (alloc prefix prefix_len) node_id db)
      ]

  get_node_subnet : List (String × ℕ) → String → Db → Result String
  get_node_subnet [] node_id db = err "no subnet allocated for node"
  get_node_subnet ((prefix, prefix_len) ∷ keys) node_id db =
      let rest = get_node_subnet keys node_id db in
      elim (existing_subnet (hget (alloc prefix prefix_len) node_id db)) [
        | none ↦ rest
        | some s ↦ ok s
      ]

-- ===== src/Subnet/Examples.antt =====
-- internal/subnet/allocator.go: runs over a Redis that holds one pool.
use pmi.Base.{
  ℕ, suc, ◌+◌, ◌-◌, String, ◌≡◌, refl, ◌≢◌, ite, Bool, true, Option, none, some, List, [], ◌∷◌,
  arith, text_discrete, length, get_elem?, take,
}
use pmi.Subnet.{
  Key, pool, alloc, Delta, plus_one, minus_one, HashStore, write_index, subnet_bytes, max_subnets,
}
use pmi.Subnet.Network.{subnet_bytes-network}

-- The fields of a hash and their values, in the order of writing.
abbrev Fields : Type 0
Fields = List (String × String)

lookup : String → Fields → Option String
lookup f [] = none
lookup f ((g, v) ∷ rest) = ite (text_discrete g f) (some v) (lookup f rest)

put : String → String → Fields → Fields
put f v [] = (f, v) ∷ []
put f v ((g, w) ∷ rest) = ite (text_discrete g f) ((f, v) ∷ rest) ((g, w) ∷ put f v rest)

remove : String → Fields → Fields
remove f [] = []
remove f ((g, v) ∷ rest) = ite (text_discrete g f) rest ((g, v) ∷ remove f rest)

lookup-put_self : (f v : String) (h : Fields) → lookup f (put f v h) ≡ some v
unfolding lookup put
lookup-put_self f v [] = ground arith
lookup-put_self f v ((g, w) ∷ rest) = ground (arith, lookup-put_self f v rest)

lookup-put_ne : (f g v : String) (h : Fields) → f ≢ g → lookup g (put f v h) ≡ lookup g h
unfolding lookup put
lookup-put_ne f g v [] d = ground arith
lookup-put_ne f g v ((k, w) ∷ rest) d = ground (arith, lookup-put_ne f g v rest d)

length-put : (f v : String) (h : Fields) → lookup f h ≡ none → length (put f v h) ≡ length h + 1
unfolding lookup put
length-put f v [] e = ground arith
length-put f v ((g, w) ∷ rest) e = ground (arith, length-put f v rest)

lookup-remove_ne : (f g : String) (h : Fields) → f ≢ g → lookup g (remove f h) ≡ lookup g h
unfolding lookup remove
lookup-remove_ne f g [] d = refl
lookup-remove_ne f g ((k, w) ∷ rest) d = ground (arith, lookup-remove_ne f g rest d)

length-remove :
    (f v : String) (h : Fields) → lookup f h ≡ some v → length (remove f h) + 1 ≡ length h
unfolding lookup remove
length-remove f v [] e = absurd (cc)
length-remove f v ((g, w) ∷ rest) e = ground (arith, length-remove f v rest)

record OnePool : Type 0 where
  registered : Bool
  allocated : ℕ
  pool_hash : Fields
  alloc_hash : Fields

abbrev hash : Key → OnePool → Fields
hash (pool p n) db = db.pool_hash
hash (alloc p n) db = db.alloc_hash

abbrev change : Key → (Fields → Fields) → OnePool → OnePool
change (pool p n) f db = record db { pool_hash = f db.pool_hash }
change (alloc p n) f db = record db { alloc_hash = f db.alloc_hash }

abbrev shifted : Delta → ℕ → ℕ
shifted plus_one n = n + 1
shifted minus_one n = n - 1

hash-change :
    (k : Key) (f : Fields → Fields) (db : OnePool) → hash k (change k f db) ≡ f (hash k db)
hash-change (pool p n) f db = refl
hash-change (alloc p n) f db = refl

abbrev one_pool : HashStore
one_pool = record {
  Db = OnePool;
  key_exists = λ k db. db.registered;
  hget = λ k f db. lookup f (hash k db);
  hlen = λ k db. length (hash k db);
  hset = λ k f v db. change k (put f v) db;
  hdel = λ k f db. change k (remove f) db;
  hincr_by = λ k f d db. record db { allocated = shifted d db.allocated };
  create = λ k prefix n db. record db { registered = true };
  hget-hset_self = λ k f v db. rw (hash-change k (put f v) db) (lookup-put_self f v (hash k db));
  hget-hset_ne =
      λ k f g v db d. rw (hash-change k (put f v) db) (lookup-put_ne f g v (hash k db) d);
  hlen-hset_new = λ k f v db e. rw (hash-change k (put f v) db) (length-put f v (hash k db) e);
  hget-hdel_ne =
      λ k f g db d. rw (hash-change k (remove f) db) (lookup-remove_ne f g (hash k db) d);
  hlen-hdel = λ k f v db e. rw (hash-change k (remove f) db) (length-remove f v (hash k db) e);
  hget-hincr_by = λ p n f g d db. refl;
  hlen-hincr_by = λ p n f d db. refl;
  exists-hset = λ p n f v db. refl;
  exists-hdel = λ p n f db. refl;
  exists-hincr_by = λ p n f d db e. e;
}

abbrev zeros : List ℕ
zeros = 0 ∷ 0 ∷ 0 ∷ 0 ∷ 0 ∷ 0 ∷ 0 ∷ 0 ∷ 0 ∷ 0 ∷ []

-- 2001:db8:aaaa::
abbrev address : List ℕ
address = 32 ∷ 1 ∷ 13 ∷ 184 ∷ 170 ∷ 170 ∷ zeros

abbrev parse : String → Option (List ℕ)
parse s = ite (text_discrete s "2001:db8:aaaa::") (some address) none

-- A text that tells the first two addresses apart.
abbrev show : List ℕ → String
show bytes = elim (get_elem? bytes 9) [
  | some (suc n) ↦ "2001:db8:aaaa:0:1::/64"
  | _ ↦ "2001:db8:aaaa::/64"
]

abbrev p : String
p = "2001:db8:aaaa::"

subnet_bytes-network_example :
    take 8 (32 ∷ 1 ∷ 13 ∷ 184 ∷ 170 ∷ 170 ∷ 0 ∷ 0 ∷ 1 ∷ 44 ∷ 0 ∷ 0 ∷ 0 ∷ 0 ∷ 0 ∷ 0 ∷ [])
    ≡ take 8 address
unfolding subnet_bytes write_index text_discrete pmi.Subnet.or_at
subnet_bytes-network_example =
    subnet_bytes-network parse p 48 300 address
      (32 ∷ 1 ∷ 13 ∷ 184 ∷ 170 ∷ 170 ∷ 0 ∷ 0 ∷ 1 ∷ 44 ∷ 0 ∷ 0 ∷ 0 ∷ 0 ∷ 0 ∷ 0 ∷ []) refl
      (omega arith) (omega arith) refl

abbrev first : String
first = "2001:db8:aaaa::/64"

abbrev second : String
second = "2001:db8:aaaa:0:1::/64"

abbrev registered_pool : OnePool
registered_pool = record { registered = true; allocated = 0; pool_hash = []; alloc_hash = [] }

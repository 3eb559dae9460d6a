-- ===== src/Subnet/Allocation.antt =====
-- internal/subnet/allocator.go: `Allocate` and `Deallocate` over any Redis that answers.
use pmi.Base.{ℕ, String, ◌≡◌, ◌≢◌, Bool, true, false, Option, List}
use pmi.Subnet.{pool, alloc, HashStore}

-- No command fails.
abbrev pub up : ℕ → Bool
up i = false

module _ (store : HashStore) (parse : String → Option (List ℕ)) (show : List ℕ → String) where
  open store use {Db, key_exists, hget, hlen, hset, hdel, hincr_by}

  -- What a node's getting or giving up a subnet leaves of the pool.
  record Kept (p : String) (n : ℕ) (node_id : String) (db db' : Db) : Type 0 where
    registered : key_exists (pool p n) db' ≡ true
    others : (g : String) → node_id ≢ g → hget (alloc p n) g db' ≡ hget (alloc p n) g db

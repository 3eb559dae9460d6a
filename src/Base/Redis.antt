-- ===== src/Base/Redis.antt =====
-- Commands that the program sends to Redis without reading their answers.
use Prim.Native.Nat.{ℕ}
use Prim.Native.String.{String}
use mathlib.Core.Bool.{Bool, true, false}
use mathlib.Core.List.{List, ◌++◌}

-- What a field or a key is set to.
pub data Value : Type 0 where
  text : String → Value
  number : ℕ → Value
  flag : Bool → Value
  key_entry : String → ℕ → ℕ → ℕ → Value

pub data Command : Type 0 where
  set : String → Value → ℕ → Command
  hset : String → String → Value → Command
  hincr_by : String → String → ℕ → Command
  incr : String → Command
  decr : String → Command
  expire : String → ℕ → Command
  del : String → Command
  sadd : String → String → Command
  srem : String → String → Command
  rpush : String → String → Command
  ltrim : String → ℕ → Command
  publish : String → String → Command

-- A client, which may be nil, and what was sent through it, in order.
pub record Outbox : Type 0 where
  pub connected : Bool
  pub sent : List Command

-- `if redis != nil { … }`
abbrev pub send : List Command → Outbox → Outbox
send cs o = elim o.connected [ true ↦ record o { sent = o.sent ++ cs } | false ↦ o ]

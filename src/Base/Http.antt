-- ===== src/Base/Http.antt =====
-- What a gin middleware sees of a request and does with it.
use Prim.Native.Nat.{ℕ}
use Prim.Native.String.{String}

-- The parts of a request that the middlewares read; a header that is absent is "".
pub record Request : Type 0 where
  pub client_ip : String
  pub authorization : String
  pub proxy_authorization : String

-- `c.Next()`, or `c.AbortWithStatusJSON(status, …)`.
pub data Reply : Type 0 where
  next : Reply
  abort : ℕ → Reply

-- ===== src/Gateway/ConnPool/Interleaved.antt =====
-- gateway/connpool.go: calls of `Get` and `Put` on one address at once. The mutex covers `active`
-- and not the channel, so between the two a call stands half done.
use pmi.Base.{ℕ, ◌+◌, ◌-◌, ◌≤◌, ◌<◌, ◌≡◌, arith}

-- `reserved` calls of `Put` have counted their connection and not sent it yet; `taken` calls of
-- `Get` have received one and not counted it off yet.
pub record Shared : Type 0 where
  pub active : ℕ
  pub queued : ℕ
  pub reserved : ℕ
  pub taken : ℕ

pub data Step (max_size : ℕ) : Shared → Shared → Type 0 where
  reserve :
      (s : Shared)
      → s.active < max_size
      → Step max_size s (record s { active = s.active + 1; reserved = s.reserved + 1 })
  send :
      (s : Shared)
      → 0 < s.reserved
      → s.queued < max_size
      → Step max_size s (record s { queued = s.queued + 1; reserved = s.reserved - 1 })
  give_up :
      (s : Shared)
      → 0 < s.reserved
      → max_size ≤ s.queued
      → Step max_size s (record s { active = s.active - 1; reserved = s.reserved - 1 })
  receive :
      (s : Shared)
      → 0 < s.queued
      → Step max_size s (record s { queued = s.queued - 1; taken = s.taken + 1 })
  count_off :
      (s : Shared)
      → 0 < s.taken
      → Step max_size s (record s { active = s.active - 1; taken = s.taken - 1 })

pub data Reach (max_size : ℕ) : Shared → Type 0 where
  start : Reach max_size (record { active = 0; queued = 0; reserved = 0; taken = 0 })
  next : {s t : Shared} → Reach max_size s → Step max_size s t → Reach max_size t

pub record Inv (max_size : ℕ) (s : Shared) : Type 0 where
  pub counts : s.active ≡ s.queued + s.reserved + s.taken
  pub bounded : s.active ≤ max_size

Step-Inv : {max_size : ℕ} {s t : Shared} → Step max_size s t → Inv max_size s → Inv max_size t
Step-Inv (reserve s h) v = omega arith
Step-Inv (send s h g) v = omega arith
Step-Inv (give_up s h g) v = omega arith
Step-Inv (receive s h) v = omega arith
Step-Inv (count_off s h) v = omega arith

Reach-Inv : {max_size : ℕ} {s : Shared} → Reach max_size s → Inv max_size s
Reach-Inv start = omega arith
Reach-Inv (next r st) = Step-Inv st (Reach-Inv r)

-- However calls of `Get` and `Put` interleave, whenever a `Put` has counted its connection and not
-- sent it yet, no more connections are counted than the pool may hold and the channel has room: the
-- default of the send, which closes the connection, is never taken.
pub reserved_put_has_room :
    {max_size : ℕ} {s : Shared}
    → Reach max_size s
    → 0 < s.reserved
    → (s.active ≤ max_size) × (s.queued < max_size)
reserved_put_has_room r h = let v = Reach-Inv r in (v.bounded, omega arith)

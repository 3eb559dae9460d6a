-- ===== src/Gateway/Hub.antt =====
-- gateway/websocket.go: the hub that hands messages to the connected clients. A client is a number,
-- and `send` its channel; `none` is a panic, from closing a closed channel or sending on one.
mod Safety
mod Examples
use pmi.Base.{
  [], ℕ, String, Bool, true, false, not, Option, none, some, List, ◌∷◌, ◌++◌, ltb, ◌==◌,
  if◌then◌else◌, length,
}

pub record Channel : Type 0 where
  pub buffer : List String
  pub closed : Bool

pub record Hub : Type 0 where
  pub clients : ℕ → Bool
  pub channels : ℕ → Channel

-- The capacity that `wsHandler` gives each client's channel.
abbrev pub capacity : ℕ
capacity = 256

set_at {ℓ} : {A : Type ℓ} → ℕ → A → (ℕ → A) → ℕ → A
set_at i a f j = if i == j then a else f j

pub new_hub : (ℕ → Channel) → Hub
new_hub channels = record { clients = λ c. false; channels = channels }

pub register : ℕ → Hub → Hub
unfolding set_at
register c h = record h { clients = set_at c true h.clients }

close_channel : ℕ → Hub → Option Hub
close_channel c h =
    if (h.channels c).closed
    then none
    else some (record h {
      channels = set_at c (record { buffer = (h.channels c).buffer; closed = true }) h.channels;
    })

forget : ℕ → Hub → Hub
forget c h = record h { clients = set_at c false h.clients }

pub unregister : ℕ → Hub → Option Hub
unfolding set_at close_channel forget
unregister c h = if h.clients c then close_channel c (forget c h) else some h

-- One client's turn in a broadcast: a full channel is closed and its client dropped.
pub deliver : String → ℕ → Hub → Option Hub
unfolding set_at close_channel forget
deliver message c h =
    if not (h.clients c)
    then some h
    else if (h.channels c).closed
    then none
    else if ltb (length (h.channels c).buffer) capacity
    then some (record h {
      channels =
          set_at c (record { buffer = (h.channels c).buffer ++ message ∷ []; closed = false })
            h.channels;
    })
    else elim (close_channel c h) [ none ↦ none | some h' ↦ some (forget c h') ]

-- The loop of a broadcast, over the clients in the order in which the map yields them.
pub broadcast : String → List ℕ → Hub → Option Hub
broadcast message [] h = some h
broadcast message (c ∷ cs) h = elim (deliver message c h) [
  | none ↦ none
  | some h' ↦ broadcast message cs h'
]

-- ===== src/Gateway/Broadcast.antt =====
-- gateway/broadcast.go, `PeerBroadcaster`: messages to the nodes that are subscribed. `encode` is
-- the JSON of a message, and a limit that is not positive is 0 here.
mod Delivery
mod Examples
use pmi.Base.{
  text_append, ℕ, String, Bool, true, false, ◌||◌, Option, none, some, List, [], ◌∷◌, ◌++◌, ltb,
  leb, if◌then◌else◌, length, take, StringMap, empty, insert,
}
use pmi.Base.Redis
use pmi.Base.Redis.{Outbox, send}
use pmi.Base.Window.{append_bounded}

pub record BroadcastMessage : Type 0 where
  pub id : String
  pub kind : String
  pub payload : String
  pub target : String
  pub sent_at : ℕ

-- A node with a key in `subs` has a map that may have a channel under "default": of the channel,
-- what waits in it. A channel is closed only when it leaves the map.
pub record PeerBroadcaster : Type 0 where
  pub subs : StringMap (Option (List String))
  pub redis : Outbox
  pub history : List BroadcastMessage
  pub max_history : ℕ

pub new_peer_broadcaster : Outbox → ℕ → PeerBroadcaster
new_peer_broadcaster redis_client max_history = record {
  subs = empty;
  redis = redis_client;
  history = [];
  max_history = if leb max_history 0 then 100 else max_history;
}

pub subscribe : String → PeerBroadcaster → PeerBroadcaster
subscribe node_id pb = record pb { subs = insert node_id (some []) pb.subs }

-- None is the panic of closing the channel that is not there.
close_default : String → PeerBroadcaster → Option (List String) → Option PeerBroadcaster
close_default node_id pb none = none
close_default node_id pb (some ch) = some (record pb { subs = insert node_id none pb.subs })

pub unsubscribe : String → PeerBroadcaster → Option PeerBroadcaster
unfolding close_default
unsubscribe node_id pb = elim (pb.subs node_id) [
  | none ↦ some pb
  | some default_channel ↦ close_default node_id pb default_channel
]

-- `select { case ch <- []byte(payload): default: }`, for a channel of 10, and whether it was sent.
pub offer : String → List String → List String × Bool
offer payload ch = if ltb (length ch) 10 then (ch ++ (payload ∷ []), true) else (ch, false)

offer_default : String → Option (List String) → Option (List String)
unfolding offer
offer_default payload none = none
offer_default payload (some ch) = some (offer payload ch).0

offer_sub : String → Option (Option (List String)) → Option (Option (List String))
unfolding offer_default
offer_sub payload none = none
offer_sub payload (some default_channel) = some (offer_default payload default_channel)

not_connected : String → Option String
not_connected node_id = some (text_append "node " (text_append node_id " not connected"))

-- The error, none for nil.
send_default :
    String → String → PeerBroadcaster → Option (List String) → PeerBroadcaster × Option String
unfolding offer not_connected
send_default node_id payload pb none = (pb, not_connected node_id)
send_default node_id payload pb (some ch) =
    let (ch', sent) = offer payload ch in
    if sent
    then (record pb { subs = insert node_id (some ch') pb.subs }, none)
    else (pb, not_connected node_id)

module _ (encode : BroadcastMessage → String) where
  -- What both ways of sending do first.
  record_message : String → BroadcastMessage → PeerBroadcaster → PeerBroadcaster
  record_message channel msg pb = record pb {
    history = append_bounded pb.max_history msg pb.history;
    redis = send (Redis.publish channel (encode msg) ∷ []) pb.redis;
  }

  pub broadcast : BroadcastMessage → PeerBroadcaster → PeerBroadcaster
  unfolding offer_sub record_message
  broadcast msg pb = record (record_message "peer:broadcast" msg pb) {
    subs = λ i. offer_sub msg.payload (pb.subs i);
  }

  -- To the node that is the target of the message.
  pub send_to_node : BroadcastMessage → PeerBroadcaster → PeerBroadcaster × Option String
  unfolding record_message send_default not_connected
  send_to_node msg pb =
      let channel = text_append "peer:" (text_append msg.target ":broadcast") in
      let pb' = record_message channel msg pb in
      elim (pb.subs msg.target) [
        | none ↦ (pb', not_connected msg.target)
        | some default_channel ↦ send_default msg.target msg.payload pb' default_channel
      ]

pub get_history : ℕ → PeerBroadcaster → List BroadcastMessage
get_history limit pb =
    let all = length pb.history in
    take (if leb limit 0 || ltb all limit then all else limit) pb.history

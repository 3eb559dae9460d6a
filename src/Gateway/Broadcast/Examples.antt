-- ===== src/Gateway/Broadcast/Examples.antt =====
-- gateway/broadcast.go: a node that subscribes and leaves twice.
use pmi.Base.{String, true, []}
use pmi.Gateway.Broadcast.{BroadcastMessage, PeerBroadcaster, new_peer_broadcaster, subscribe}

abbrev encode : BroadcastMessage → String
encode msg = msg.payload

abbrev msg : BroadcastMessage
msg = record { id = "msg-1"; kind = "config"; payload = "reload"; target = "n1"; sent_at = 1 }

abbrev subscribed : PeerBroadcaster
subscribed = subscribe "n1" (new_peer_broadcaster (record { connected = true; sent = [] }) 0)

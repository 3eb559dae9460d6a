-- ===== src/Gateway/Broadcast/Delivery.antt =====
-- gateway/broadcast.go: who a message reaches, and when leaving panics.
use pmi.Base.{
  insert_self, ◌<◌, ◌≤◌, String, ◌≡◌, refl, sym, ap, subst, Option, none, some, List, [], ◌∷◌, ◌++◌,
  ltb, ltb→lt, text_append, length, insert, arith, Bool-cases, inl, inr, ◌⊎◌, ◌≢◌,
}
use pmi.Gateway.Broadcast.{
  BroadcastMessage, PeerBroadcaster, unsubscribe, broadcast, send_to_node, offer, offer_sub,
  offer_default, send_default, record_message, close_default, not_connected,
}

module _ (encode : BroadcastMessage → String) where
  -- A message that is sent, to all or to its target.
  pub data Sending : Type 0 where
    to_all : BroadcastMessage → Sending
    to_target : BroadcastMessage → Sending

  send_all : List Sending → PeerBroadcaster → PeerBroadcaster
  send_all [] pb = pb
  send_all (to_all msg ∷ later) pb = send_all later (broadcast encode msg pb)
  send_all (to_target msg ∷ later) pb = send_all later (send_to_node encode msg pb).0

  all-gone :
      (msg : BroadcastMessage) (node_id : String) (pb : PeerBroadcaster)
      → pb.subs node_id ≡ some none
      → (broadcast encode msg pb).subs node_id ≡ some none
  unfolding broadcast offer_sub offer_default
  all-gone msg node_id pb e = ap (offer_sub msg.payload) e

  target-gone :
      (msg : BroadcastMessage) (node_id : String) (pb : PeerBroadcaster)
      → pb.subs node_id ≡ some none
      → (send_to_node encode msg pb).0.subs node_id ≡ some none
  unfolding send_to_node send_default record_message
  target-gone msg node_id pb e = ground arith

  gone_stays :
      (sendings : List Sending) (node_id : String) (pb : PeerBroadcaster)
      → pb.subs node_id ≡ some none
      → (send_all sendings pb).subs node_id ≡ some none
  unfolding send_all
  gone_stays [] node_id pb e = e
  gone_stays (to_all msg ∷ later) node_id pb e =
      gone_stays later node_id (broadcast encode msg pb) (all-gone msg node_id pb e)
  gone_stays (to_target msg ∷ later) node_id pb e =
      gone_stays later node_id (send_to_node encode msg pb).0 (target-gone msg node_id pb e)

  leaves :
      (node_id : String) (ch : List String) (pb : PeerBroadcaster)
      → pb.subs node_id ≡ some (some ch)
      → unsubscribe node_id pb ≡ some (record pb { subs = insert node_id none pb.subs })
  unfolding unsubscribe close_default
  leaves node_id ch pb e = rw (unsubscribe, e) refl

  panics :
      (node_id : String) (pb : PeerBroadcaster)
      → pb.subs node_id ≡ some none
      → unsubscribe node_id pb ≡ none
  unfolding unsubscribe close_default
  panics node_id pb e = rw (unsubscribe, e) refl

  -- A node that has left, and has not subscribed again, makes the next `Unsubscribe` for it panic,
  -- whatever was sent in between.
  second_unsubscribe_panics :
      (node_id : String) (ch : List String) (sendings : List Sending) (pb : PeerBroadcaster)
      → pb.subs node_id ≡ some (some ch)
      → (left : PeerBroadcaster) × (unsubscribe node_id pb ≡ some left)
        × (unsubscribe node_id (send_all sendings left) ≡ none)
  second_unsubscribe_panics node_id ch sendings pb e =
      let left : PeerBroadcaster = record pb { subs = insert node_id none pb.subs } in
      (
        left,
        leaves node_id ch pb e,
        panics node_id (send_all sendings left)
            (gone_stays sendings node_id left (insert_self node_id none pb.subs)),
      )

  -- The payload is the last in the target's channel, which had room, or nothing has changed there.
  abbrev pub IsSent :
      BroadcastMessage → PeerBroadcaster → List String → PeerBroadcaster × Option String → Type 0
  IsSent msg pb ch (pb', error) =
      ((error ≡ none)
        × (length ch < 10)
        × (pb'.subs msg.target ≡ some (some (ch ++ (msg.payload ∷ [])))))
      ⊎ ((error ≢ none) × (10 ≤ length ch) × (pb'.subs ≡ pb.subs))

  send_default_lem :
      (msg : BroadcastMessage) (channel : String) (pb : PeerBroadcaster) (ch : List String)
      → IsSent msg pb ch
          (send_default msg.target msg.payload (record_message encode channel msg pb) (some ch))
  unfolding send_default offer record_message not_connected
  send_default_lem msg channel pb ch = elim (Bool-cases (ltb (length ch) 10)) [
    | inl e ↦ rw e (
        inl (
          refl,
          ltb→lt (length ch) 10 e,
          insert_self msg.target (some (ch ++ (msg.payload ∷ []))) pb.subs,
        ))
    | inr e ↦ rw e (inr ((λ f. cc f), ground arith, refl))
  ]

  opened :
      (msg : BroadcastMessage) (pb : PeerBroadcaster) (ch : List String)
      → pb.subs msg.target ≡ some (some ch)
      → send_to_node encode msg pb
        ≡ send_default msg.target msg.payload
            (record_message encode
              (text_append "peer:" (text_append msg.target ":broadcast"))
              msg
              pb)
            (some ch)
  unfolding send_to_node
  opened msg pb ch e = rw (send_to_node, e) refl

  -- `SendToNode` to a node with a channel returns no error exactly when the channel has room for
  -- one more of its 10 messages, and then the payload is the last in it; otherwise it returns an
  -- error, and no channel has changed.
  send_to_node_lem :
      (msg : BroadcastMessage) (pb : PeerBroadcaster) (ch : List String)
      → pb.subs msg.target ≡ some (some ch)
      → IsSent msg pb ch (send_to_node encode msg pb)
  send_to_node_lem msg pb ch e =
      subst (IsSent msg pb ch) (sym (opened msg pb ch e)) (send_default_lem msg _ pb ch)

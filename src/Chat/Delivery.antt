-- ===== src/Chat/Delivery.antt =====
-- What one user sends, and what the task of the other makes of it.
use saltyrtc_client_rs.Prelude.{◌≡◌, true, some, [], ◌∷◌, ◌++◌, String, ok, arith, string_has_eq}
use saltyrtc_client_rs.Prelude.Dict.{lookup, insert}
use saltyrtc_client_rs.External.{Rmpv, RmpvLaws}
use saltyrtc_client_rs.Tasks.{TaskMessage}
use saltyrtc_client_rs.Chat.{
  ChatMessage, UnboundedSender, ChatTask, nick_map, change_nick, init, receive_map, receive,
  data_for_peer,
}

module _ (rmpv : Rmpv) (laws : RmpvLaws rmpv) where
  -- What a text message does at the task that receives it
  abbrev pub with_message : ChatMessage → ChatTask rmpv.Value → ChatTask rmpv.Value
  with_message m b = record b {
    incoming_tx = record (b.incoming_tx) { sent = b.incoming_tx.sent ++ (m ∷ []) };
  }

  -- After a user has changed its nickname, the other's task has the new one, and its user is told.
  -- Both channels have to have their receivers.
  pub receive-change_nick :
      (nick : String) (a b : ChatTask rmpv.Value) (tx : UnboundedSender (TaskMessage rmpv.Value))
      → a.outgoing_tx ≡ some tx
      → tx.has_receiver ≡ true
      → b.incoming_tx.has_receiver ≡ true
      → (m : TaskMessage rmpv.Value) × (change_nick rmpv nick a
          ≡ ok tt (record a {
            our_name = nick;
            outgoing_tx = some (record tx { sent = tx.sent ++ (m ∷ []) });
          }))
        × (receive rmpv m b
            ≡ ok tt
                (record (with_message (ChatMessage.nick_change nick) b) { peer_name = some nick }))
  unfolding change_nick receive receive_map nick_map lookup insert
  receive-change_nick nick a b tx started held heard = (
    TaskMessage.value (nick_map rmpv nick),
    ground (arith, started, held),
    ground (arith, heard, laws.as_str-from_str "nick_change", laws.as_str-from_str nick),
  )

  -- A task that is initialised with the data of the other has the other's nickname.
  pub init-data_for_peer :
      (a b : ChatTask rmpv.Value)
      → init rmpv (data_for_peer rmpv a) b ≡ ok tt (record b { peer_name = some a.our_name })
  unfolding init data_for_peer lookup insert
  init-data_for_peer a b = ground (arith, laws.as_string-from_str a.our_name)

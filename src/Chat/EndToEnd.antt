-- ===== src/Chat/EndToEnd.antt =====
-- A text message, from the user of one client to the user of its peer.
use saltyrtc_client_rs.Prelude.{
  any, ◌<◌, ◌≡◌, true, some, [], ◌∷◌, ◌++◌, ok, arith, length, nat_has_eq, string_has_eq, false,
  refl, String,
}
use saltyrtc_client_rs.External.{Rmpv, SodiumLaws, BigEndianLaws, RmpvLaws, PrivateKey}
use saltyrtc_client_rs.Types.{is_server}
use saltyrtc_client_rs.Nonce.RoundTrip.{IsNonce}
use saltyrtc_client_rs.Crypto.{from_private_key}
use saltyrtc_client_rs.Prelude.Dict.{Dict, lookup, insert, keys, distinct}
use saltyrtc_client_rs.Deps.{Deps, Value, EntryOrderLaws}
use saltyrtc_client_rs.Tasks.{TaskMessage}
use saltyrtc_client_rs.Boxes.{ByteBox, into_bytes}
use saltyrtc_client_rs.Context.{PeerContext, keypair, session_key}
use saltyrtc_client_rs.Signaling.{Signaling, common}
use saltyrtc_client_rs.Signaling.Peers.{get_peer}
use saltyrtc_client_rs.Signaling.Validate.{validate_nonce}
use saltyrtc_client_rs.Signaling.Encode.{encode_task_message}
use saltyrtc_client_rs.Signaling.Replies.{in_task}
use saltyrtc_client_rs.Client.WebSocket.{OwnedMessage, Incoming}
use saltyrtc_client_rs.Client.TaskLoop.{
  TaskSession, Next, Item, value_of_entries, transform_message, read_one,
}
use saltyrtc_client_rs.Client.TaskLoop.Reading.{all_held}
use saltyrtc_client_rs.Client.TaskLoop.Maps.{map-delivered}
use saltyrtc_client_rs.Chat.{
  ChatMessage, UnboundedSender, ChatTask, text_map, send_msg, receive_map, receive,
  chat_supported_types,
}
use saltyrtc_client_rs.Chat.Delivery.{with_message}

module _ (rmpv : Rmpv) (laws : RmpvLaws rmpv) where
  type_of_text : (text : String) → lookup "type" (text_map rmpv text) ≡ some (rmpv.from_str "msg")
  unfolding lookup text_map insert
  type_of_text text = refl

  text_of_text : (text : String) → lookup "text" (text_map rmpv text) ≡ some (rmpv.from_str text)
  unfolding lookup text_map insert
  text_of_text text = refl

  text_map-distinct : (text : String) → distinct (keys (text_map rmpv text)) ≡ true
  unfolding text_map insert keys distinct
  text_map-distinct text = refl

  -- A map with the entries of a text message is received as that text.
  receive-entries :
      (text : String) (entries : Dict String rmpv.Value) (y : ChatTask rmpv.Value)
      → ((k : String) → lookup k entries ≡ lookup k (text_map rmpv text))
      → y.incoming_tx.has_receiver ≡ true
      → receive rmpv (TaskMessage.value entries) y
        ≡ ok tt (with_message rmpv laws (ChatMessage.msg text) y)
  unfolding receive receive_map
  receive-entries text entries y same heard = ground (
    arith,
    same "type",
    same "text",
    type_of_text text,
    text_of_text text,
    laws.as_str-from_str "msg",
    laws.as_str-from_str text,
    heard,
  )

module _ {dep : Deps} where
  -- A text that a user sends becomes a message for the signaling, which one client encrypts into a
  -- frame; when the other client reads the frame in the task state, its chat task gets a message that
  -- it passes on to its user as the same text. Both chat tasks have to have their receivers, and the
  -- receiving client has to support the chat's types. The clients have to have each other's session
  -- keys, and the receiver has to accept the nonce, which is well-formed and not the server's.
  -- libsodium, msgpack and byteorder have to read what they wrote, a hash table has to be the same
  -- after its entries are collected again, and sealed data is not empty.
  pub text-delivered :
      (text : String) (x y : ChatTask (Value dep)) (tx : UnboundedSender (TaskMessage (Value dep)))
      (a a' : Signaling dep) (b : ByteBox) (s : TaskSession dep) (t : Signaling dep)
      (p q : PeerContext) (ours theirs : PrivateKey) (sodium : SodiumLaws dep.sodium)
      (big : BigEndianLaws dep.byte_order) (rmpv : RmpvLaws dep.rmpv) (order : EntryOrderLaws dep)
      → dep.msgpack.value_from_msgpack
          (dep.msgpack.value_to_msgpack (value_of_entries dep (text_map dep.rmpv text)))
        ≡ some (value_of_entries dep (text_map dep.rmpv text))
      → x.outgoing_tx ≡ some tx
      → tx.has_receiver ≡ true
      → y.incoming_tx.has_receiver ≡ true
      → get_peer a ≡ some p
      → keypair p ≡ some (from_private_key dep.sodium ours)
      → session_key p ≡ some (dep.sodium.scalarmult_base theirs)
      → encode_task_message (value_of_entries dep (text_map dep.rmpv text)) a ≡ ok b a'
      → IsNonce b.nonce
      → 0 < length b.bytes
      → in_task (common s.salty).signaling_state ≡ true
      → is_server b.nonce.source ≡ false
      → validate_nonce b.nonce s.salty ≡ ok tt t
      → (common t).task_supported_types ≡ some (chat_supported_types dep.rmpv)
      → get_peer t ≡ some q
      → keypair q ≡ some (from_private_key dep.sodium theirs)
      → session_key q ≡ some (dep.sodium.scalarmult_base ours)
      → (m m' : TaskMessage (Value dep)) × (send_msg dep.rmpv text x
          ≡ ok tt (record x { outgoing_tx = some (record tx { sent = tx.sent ++ (m ∷ []) }) }))
        × (transform_message m a
            ≡ ok (Item.message (OwnedMessage.binary (into_bytes dep.byte_order b)) ∷ []) a')
        × (read_one all_held
              (Incoming.message (OwnedMessage.binary (into_bytes dep.byte_order b)))
              s
            ≡ ok Next.next (record s { salty = t; incoming = s.incoming ++ (m' ∷ []) }))
        × (receive dep.rmpv m' y ≡ ok tt (with_message dep.rmpv rmpv (ChatMessage.msg text) y))
  unfolding send_msg any
  text-delivered text x y tx a a' b s t p q ours theirs sodium big rmpv order m started held heard
        ps kp sp e n k now far ok' types qs kq sq =
      let (entries, same, transformed, delivered) =
        map-delivered (text_map dep.rmpv text) "msg" (dep.rmpv.from_str "msg")
          (chat_supported_types dep.rmpv) a a' b s t p q ours theirs sodium big rmpv order m
          (text_map-distinct dep.rmpv rmpv text) (type_of_text dep.rmpv rmpv text)
          (rmpv.as_str-from_str "msg") refl ps kp sp e n k now far ok' types qs kq sq in
      (
        TaskMessage.value (text_map dep.rmpv text),
        TaskMessage.value entries,
        ground (arith, started, held),
        transformed,
        delivered,
        receive-entries dep.rmpv rmpv text entries y same heard,
      )

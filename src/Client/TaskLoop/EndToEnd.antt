-- ===== src/Client/TaskLoop/EndToEnd.antt =====
-- An application message, from the task of one client to the task of its peer.
use saltyrtc_client_rs.Prelude.{
  ◌<◌, ◌≡◌, true, some, [], ◌∷◌, ◌++◌, ok, arith, length, nat_has_eq, string_has_eq, false, refl,
}
use mathlib.Core.List.{append-nil}
use saltyrtc_client_rs.External.{SodiumLaws, BigEndianLaws, RmpvLaws, PrivateKey}
use saltyrtc_client_rs.Types.{is_server}
use saltyrtc_client_rs.State.{signaling_state_eq}
use saltyrtc_client_rs.Nonce.RoundTrip.{IsNonce}
use saltyrtc_client_rs.Crypto.{from_private_key}
use saltyrtc_client_rs.Prelude.Dict.{lookup, insert}
use saltyrtc_client_rs.Deps.{Deps, Value}
use saltyrtc_client_rs.Tasks.{TaskMessage}
use saltyrtc_client_rs.Boxes.{ByteBox, into_bytes}
use saltyrtc_client_rs.Boxes.RoundTrip.{from_slice-into_bytes}
use saltyrtc_client_rs.Context.{PeerContext, keypair, session_key}
use saltyrtc_client_rs.Signaling.{HandleAction, Signaling, common}
use saltyrtc_client_rs.Signaling.Peers.{get_peer}
use saltyrtc_client_rs.Signaling.Decode.{decode_task_message}
use saltyrtc_client_rs.Client.{encrypt_task_message}
use saltyrtc_client_rs.Signaling.Validate.{validate_nonce}
use saltyrtc_client_rs.Signaling.Encode.{encode_task_message}
use saltyrtc_client_rs.Signaling.Encode.Sending.{decode_task_message-encode_task_message}
use saltyrtc_client_rs.Signaling.Handle.{
  handle_message, after_validation, process_message, peer_branch, handle_task_peer_message,
  handle_task_value, dispatch_task_message, to_hash_map,
}
use saltyrtc_client_rs.Signaling.Replies.{in_task}
use saltyrtc_client_rs.Signaling.Replies.Unchanged.{validate_nonce-state}
use saltyrtc_client_rs.Client.WebSocket.{OwnedMessage, Incoming, decode_ws_message}
use saltyrtc_client_rs.Client.Handshake.Answer.{replies_of, events_of}
use saltyrtc_client_rs.Client.TaskLoop.{
  TaskSession, Next, Item, application_value, transform_message, read_one, is_close,
}
use saltyrtc_client_rs.Client.TaskLoop.Reading.{
  all_held, messages_of, has_close, handle_decoded-delivers,
}

module _ {dep : Deps} where
  -- The value of an application message is taken as one.
  application-handled :
      (content : Value dep) (s : Signaling dep)
      → RmpvLaws dep.rmpv
      → handle_task_value (application_value dep content) s
        ≡ ok (HandleAction.task_message (TaskMessage.application content) ∷ []) s
  unfolding handle_task_value application_value to_hash_map lookup insert dispatch_task_message
  application-handled content s laws = ground (
    arith,
    laws.as_map-from_map (
        (dep.rmpv.from_str "type", dep.rmpv.from_str "application")
        ∷ (dep.rmpv.from_str "data", content)
        ∷ []),
    laws.as_str-from_str "type",
    laws.as_str-from_str "data",
    laws.as_str-from_str "application",
  )

  pub accepted :
      (value : Value dep) (m : TaskMessage (Value dep)) (b : ByteBox) (s t : Signaling dep)
      → in_task (common s).signaling_state ≡ true
      → is_server b.nonce.source ≡ false
      → validate_nonce b.nonce s ≡ ok tt t
      → decode_task_message b t ≡ ok (record { message = value; nonce = b.nonce }) t
      → handle_task_value value t ≡ ok (HandleAction.task_message m ∷ []) t
      → handle_message b s ≡ ok (HandleAction.task_message m ∷ []) t
  unfolding handle_message after_validation process_message peer_branch handle_task_peer_message
      signaling_state_eq
  accepted value m b s t now far e d h =
      ground (arith, e, d, now, far, validate_nonce-state b.nonce s t e, h)

  -- A frame with a message that the signaling takes goes to the task.
  pub read_one-delivers :
      (m : TaskMessage (Value dep)) (b : ByteBox) (s : TaskSession dep) (t : Signaling dep)
      → BigEndianLaws dep.byte_order
      → IsNonce b.nonce
      → 0 < length b.bytes
      → in_task (common s.salty).signaling_state ≡ true
      → is_close m ≡ false
      → handle_message b s.salty ≡ ok (HandleAction.task_message m ∷ []) t
      → read_one all_held (Incoming.message (OwnedMessage.binary (into_bytes dep.byte_order b))) s
        ≡ ok Next.next (record s { salty = t; incoming = s.incoming ++ (m ∷ []) })
  unfolding read_one decode_ws_message replies_of events_of messages_of has_close
  read_one-delivers m b s t big n k now more h = ground (
    arith,
    from_slice-into_bytes dep.byte_order big b n k,
    handle_decoded-delivers b s t (HandleAction.task_message m ∷ []) now h,
    append-nil s.raw_outgoing,
    append-nil s.events,
    more,
  )

  -- An application message that the task of one client sends is encrypted into a frame which, when
  -- the other client reads it in the task state, goes to that client's task as the same message, and
  -- nothing else happens. The clients have to have each other's session keys, and the receiver has to
  -- accept the nonce, which is well-formed and not the server's. libsodium, msgpack and byteorder
  -- have to read what they wrote, and sealed data is not empty.
  pub application-delivered :
      (content : Value dep) (a a' : Signaling dep) (b : ByteBox) (s : TaskSession dep)
      (t : Signaling dep) (p q : PeerContext) (ours theirs : PrivateKey)
      → SodiumLaws dep.sodium
      → BigEndianLaws dep.byte_order
      → RmpvLaws dep.rmpv
      → dep.msgpack.value_from_msgpack
          (dep.msgpack.value_to_msgpack (application_value dep content))
        ≡ some (application_value dep content)
      → get_peer a ≡ some p
      → keypair p ≡ some (from_private_key dep.sodium ours)
      → session_key p ≡ some (dep.sodium.scalarmult_base theirs)
      → encode_task_message (application_value dep content) a ≡ ok b a'
      → IsNonce b.nonce
      → 0 < length b.bytes
      → in_task (common s.salty).signaling_state ≡ true
      → is_server b.nonce.source ≡ false
      → validate_nonce b.nonce s.salty ≡ ok tt t
      → get_peer t ≡ some q
      → keypair q ≡ some (from_private_key dep.sodium theirs)
      → session_key q ≡ some (dep.sodium.scalarmult_base ours)
      → (transform_message (TaskMessage.application content) a
          ≡ ok (Item.message (OwnedMessage.binary (into_bytes dep.byte_order b)) ∷ []) a')
        × (read_one all_held
              (Incoming.message (OwnedMessage.binary (into_bytes dep.byte_order b)))
              s
            ≡ ok Next.next (record s {
              salty = t;
              incoming = s.incoming ++ (TaskMessage.application content ∷ []);
            }))
  unfolding transform_message encrypt_task_message
  application-delivered content a a' b s t p q ours theirs sodium big rmpv m ps kp sp e n k now far
        v qs kq sq =
      let d =
        decode_task_message-encode_task_message (application_value dep content) a a' t b p q ours
          theirs sodium m ps kp sp qs kq sq e in
      let h =
        accepted (application_value dep content) (TaskMessage.application content) b s.salty t now
          far v d (application-handled content t rmpv) in
      (
        ground (arith, e),
        read_one-delivers (TaskMessage.application content) b s t big n k now refl h,
      )

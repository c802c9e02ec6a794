-- ===== src/Signaling/Handle.antt =====
-- `handle_message` and the dispatch below it, in the trait `Signaling` of src/protocol/mod.rs.
pub mod Ignored
pub mod Sealed
pub mod Outcome
use saltyrtc_client_rs.Prelude.{
  Option, none, some, List, [], ◌∷◌, String, ltb, if◌then◌else◌, ◌==◌, nat_has_eq, string_has_eq,
  bytes_has_eq, any, Step, ok, err, panic, M, pure, throw, panics, or_throw, ◌>>=◌, ◌>>◌, gets,
  throw_if, Panic,
}
use saltyrtc_client_rs.Errors.{SignalingError, ValidationError}
use saltyrtc_client_rs.Types.{Address, is_server}
use saltyrtc_client_rs.State.{SignalingState, ServerHandshakeState}
use saltyrtc_client_rs.CloseCode.{from_number}
use saltyrtc_client_rs.Nonce.{Nonce}
use saltyrtc_client_rs.Messages.{Message, ServerAuth, DropReason, get_type}
use saltyrtc_client_rs.Deps.{Deps, Value}
use saltyrtc_client_rs.Tasks.{TaskMessage}
use saltyrtc_client_rs.Boxes.{OpenBox, ByteBox}
use saltyrtc_client_rs.Prelude.Dict.{Dict, lookup, insert}
use saltyrtc_client_rs.Signaling.{HandleAction, Actions, Signaling, common, dispatch, in_common}
use saltyrtc_client_rs.Signaling.Encode.{send_drop_responder}
use saltyrtc_client_rs.Signaling.Validate.{validate_nonce}
use saltyrtc_client_rs.Signaling.Decode.{
  decode_server_message, decode_peer_message, decode_task_message,
}
use saltyrtc_client_rs.Signaling.Server.{handle_server_hello, check_server_auth, finish_server_auth}
use saltyrtc_client_rs.Signaling.Paths.{
  initiator_handle_server_auth, initiator_handle_new_responder, initiator_handle_disconnected,
  initiator_handle_new_initiator,
}
use saltyrtc_client_rs.Signaling.Initiator.{initiator_handle_peer_message}
use saltyrtc_client_rs.Signaling.Responder.{
  responder_handle_server_auth, responder_handle_new_initiator, responder_handle_new_responder,
  responder_handle_disconnected, responder_handle_peer_message,
}

module _ (dep : Deps) where
  -- The pairs of a msgpack map as a hash table; `none` for a key that is no string
  unfoldable pub to_hash_map :
      List (Value dep × Value dep) → Dict String (Value dep) → Option (Dict String (Value dep))
  unfolding insert
  to_hash_map [] acc = some acc
  to_hash_map ((k, v) ∷ pairs) acc = elim (dep.rmpv.as_str k) [
    | some key ↦ to_hash_map pairs (insert key v acc)
    | none ↦ none
  ]

module _ {dep : Deps} where
  -- `handle_server_auth`
  unfoldable pub handle_server_auth :
      ServerAuth → Option Nonce → M (Signaling dep) SignalingError (Actions dep)
  handle_server_auth msg nonce_clone = do
    in_common (check_server_auth msg nonce_clone)
    actions ← dispatch (initiator_handle_server_auth msg) (responder_handle_server_auth msg)
    in_common finish_server_auth
    pure actions

  -- The match of `handle_server_message`. The source has `unimplemented!` for `drop-responder`, and
  -- `handle_send_error` always fails.
  unfoldable pub dispatch_server_message :
      ServerHandshakeState
      → Message (Value dep)
      → Option Nonce
      → M (Signaling dep) SignalingError (Actions dep)
  dispatch_server_message ServerHandshakeState.new (Message.server_hello msg) nonce_clone =
      in_common (handle_server_hello msg)
  dispatch_server_message ServerHandshakeState.client_info_sent (Message.server_auth msg)
        nonce_clone =
      handle_server_auth msg nonce_clone
  dispatch_server_message ServerHandshakeState.done Message.new_initiator nonce_clone =
      dispatch initiator_handle_new_initiator responder_handle_new_initiator
  dispatch_server_message ServerHandshakeState.done (Message.new_responder msg) nonce_clone =
      dispatch (initiator_handle_new_responder msg) responder_handle_new_responder
  dispatch_server_message ServerHandshakeState.done (Message.drop_responder msg) nonce_clone =
      panics Panic.drop_responder_unimplemented
  dispatch_server_message ServerHandshakeState.done (Message.send_error msg) nonce_clone =
      throw SignalingError.send_error
  dispatch_server_message ServerHandshakeState.done (Message.disconnected msg) nonce_clone =
      dispatch (initiator_handle_disconnected msg) (responder_handle_disconnected msg)
  dispatch_server_message _ _ nonce_clone = throw SignalingError.invalid_state_transition

  unfoldable pub handle_server_message :
      OpenBox (Message (Value dep)) → Option Nonce → M (Signaling dep) SignalingError (Actions dep)
  handle_server_message obox nonce_clone = do
    c ← gets common
    dispatch_server_message c.server.handshake_state obox.message nonce_clone

  unfoldable pub handle_peer_message :
      OpenBox (Message (Value dep)) → M (Signaling dep) SignalingError (Actions dep)
  handle_peer_message obox =
      dispatch (initiator_handle_peer_message obox) (responder_handle_peer_message obox)

  -- The end of `handle_handshake_peer_message`, once the message is decoded
  unfoldable pub dispatch_handshake_message :
      SignalingState
      → OpenBox (Message (Value dep))
      → M (Signaling dep) SignalingError (Actions dep)
  unfolding is_server
  dispatch_handshake_message SignalingState.server_handshake obox = throw SignalingError.crash
  dispatch_handshake_message SignalingState.peer_handshake obox =
      if is_server obox.nonce.source
      then handle_server_message obox none
      else handle_peer_message obox
  dispatch_handshake_message SignalingState.task obox = throw SignalingError.crash

  -- What `handle_handshake_peer_message` does with the result of `decode_peer_message`
  unfoldable pub continue_handshake :
      Address
      → Step (Signaling dep) SignalingError (OpenBox (Message (Value dep)))
      → Step (Signaling dep) SignalingError (Actions dep)
  continue_handshake source (ok obox s) =
      dispatch_handshake_message (common s).signaling_state obox s
  continue_handshake source (err SignalingError.initiator_could_not_decrypt s) =
      (do
        action ← in_common (send_drop_responder source DropReason.initiator_could_not_decrypt)
        pure (action ∷ []))
        s
  continue_handshake source (err e s) = err e s
  continue_handshake source (panic p) = panic p

  unfoldable pub handle_handshake_peer_message :
      ByteBox → M (Signaling dep) SignalingError (Actions dep)
  unfolding is_server
  handle_handshake_peer_message bbox = do
    throw_if (is_server bbox.nonce.source) SignalingError.crash
    λ s. continue_handshake bbox.nonce.source (decode_peer_message bbox s)

  -- A close message of the task phase: its reason is a `u16`
  unfoldable pub close_reason :
      Dict String (Value dep) → M (Signaling dep) SignalingError (Actions dep)
  unfolding lookup from_number
  close_reason entries = do
    reason ← or_throw (lookup "reason" entries) SignalingError.invalid_message
    val ← or_throw (dep.rmpv.as_u64 reason) SignalingError.invalid_message
    throw_if (ltb 65535 val) SignalingError.invalid_message
    pure (HandleAction.task_message (TaskMessage.close (from_number val)) ∷ [])

  -- `handle_task_peer_message`, for a map with the type `msg_type`
  unfoldable pub dispatch_task_message :
      String → Dict String (Value dep) → M (Signaling dep) SignalingError (Actions dep)
  unfolding lookup any close_reason
  dispatch_task_message msg_type entries =
      if msg_type == "application"
      then (do
        content ← or_throw (lookup "data" entries) SignalingError.invalid_message
        pure (HandleAction.task_message (TaskMessage.application content) ∷ []))
      else if msg_type == "close"
      then close_reason entries
      else (do
        c ← gets common
        supported ← or_throw c.task_supported_types SignalingError.crash
        pure (
            if any (λ t. t == msg_type) supported
            then HandleAction.task_message (TaskMessage.value entries) ∷ []
            else []))

  -- `handle_task_peer_message`, once the value is decoded
  unfoldable pub handle_task_value : Value dep → M (Signaling dep) SignalingError (Actions dep)
  unfolding lookup
  handle_task_value value = do
    pairs ← or_throw (dep.rmpv.as_map value) SignalingError.invalid_message
    entries ← or_throw (to_hash_map dep pairs []) SignalingError.invalid_message
    type_value ← or_throw (lookup "type" entries) SignalingError.invalid_message
    msg_type ← or_throw (dep.rmpv.as_str type_value) SignalingError.invalid_message
    dispatch_task_message msg_type entries

  unfoldable pub handle_task_peer_message : ByteBox → M (Signaling dep) SignalingError (Actions dep)
  unfolding is_server
  handle_task_peer_message bbox = do
    throw_if (is_server bbox.nonce.source) SignalingError.crash
    obox ← decode_task_message bbox
    handle_task_value obox.message

  -- The branch of `handle_message` for a message from the server
  unfoldable pub server_branch : ByteBox → M (Signaling dep) SignalingError (Actions dep)
  unfolding get_type
  server_branch bbox = do
    obox ← in_common (decode_server_message bbox)
    handle_server_message obox
        (if get_type obox.message == "server-auth" then some bbox.nonce else none)

  -- The branch for a message from a peer, by the signaling state
  unfoldable pub peer_branch :
      SignalingState → ByteBox → M (Signaling dep) SignalingError (Actions dep)
  peer_branch SignalingState.server_handshake bbox = handle_handshake_peer_message bbox
  peer_branch SignalingState.peer_handshake bbox = handle_handshake_peer_message bbox
  peer_branch SignalingState.task bbox = handle_task_peer_message bbox

  -- `handle_message`, once the nonce is valid
  unfoldable pub process_message : ByteBox → M (Signaling dep) SignalingError (Actions dep)
  unfolding is_server
  process_message bbox = do
    c ← gets common
    if is_server bbox.nonce.source then server_branch bbox else peer_branch c.signaling_state bbox

  -- What `handle_message` does with the result of `validate_nonce`
  unfoldable pub after_validation :
      ByteBox
      → Step (Signaling dep) ValidationError (Unit {0})
      → Step (Signaling dep) SignalingError (Actions dep)
  after_validation bbox (ok _ s) = process_message bbox s
  after_validation bbox (err ValidationError.drop_msg s) = ok [] s
  after_validation bbox (err ValidationError.fail s) = err SignalingError.invalid_nonce s
  after_validation bbox (err ValidationError.crash s) = err SignalingError.crash s
  after_validation bbox (panic p) = panic p

  unfoldable pub handle_message : ByteBox → M (Signaling dep) SignalingError (Actions dep)
  handle_message bbox s = after_validation bbox (validate_nonce bbox.nonce s)

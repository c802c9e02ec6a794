-- ===== src/Signaling/Decode.antt =====
-- Which key opens an incoming message: `decode_server_message`, `decode_peer_message` of both
-- roles, `decode_task_message`.
pub mod Sealed
use saltyrtc_client_rs.Prelude.{
  not, ◌&&◌, Option, none, some, if◌then◌else◌, nat_has_eq, string_has_eq, bytes_has_eq, M, throw,
  or_throw, ◌>>=◌, ◌>>◌, get, throw_if,
}
use saltyrtc_client_rs.Errors.{SignalingError}
use saltyrtc_client_rs.Types.{is_initiator, is_responder}
use saltyrtc_client_rs.State.{
  SignalingState, InitiatorHandshakeState, ResponderHandshakeState, signaling_state_eq,
  is_server_new,
}
use saltyrtc_client_rs.Messages.{Message}
use saltyrtc_client_rs.Deps.{Deps, Value}
use saltyrtc_client_rs.Boxes.{OpenBox, ByteBox, decode, decrypt, decrypt_token, decrypt_value}
use saltyrtc_client_rs.Context.{ResponderContext, session_key, keypair}
use saltyrtc_client_rs.Prelude.Dict.{lookup}
use saltyrtc_client_rs.Signaling.{
  Common, AuthProvider, InitiatorSignaling, ResponderSignaling, Signaling, dispatch,
}
use saltyrtc_client_rs.Signaling.Peers.{get_peer}

module _ {dep : Deps} where
  unfoldable pub decode_server_message :
      ByteBox → M (Common dep) SignalingError (OpenBox (Message (Value dep)))
  unfolding decode decrypt signaling_state_eq
  decode_server_message bbox = do
    c ← get
    if signaling_state_eq c.signaling_state SignalingState.server_handshake
          && is_server_new c.server.handshake_state
        then or_throw (decode dep bbox) SignalingError.decode
        else (do
          key ← or_throw c.server.session_key SignalingError.crash
          or_throw (decrypt dep bbox c.permanent_keypair key) SignalingError.decode)

  -- A token message, under the auth token
  decode_token :
      ByteBox
      → Option AuthProvider
      → M (InitiatorSignaling dep) SignalingError (OpenBox (Message (Value dep)))
  unfolding decrypt_token
  decode_token bbox (some (AuthProvider.token token)) =
      or_throw (decrypt_token dep bbox token) SignalingError.decode
  decode_token bbox (some (AuthProvider.trusted_key _)) = throw SignalingError.crash
  decode_token bbox none = throw SignalingError.crash

  -- The match on the responder's handshake state in `decode_peer_message`. A key message that
  -- cannot be opened is the error `InitiatorCouldNotDecrypt`.
  decode_from_responder :
      ByteBox
      → ResponderContext
      → ResponderHandshakeState
      → M (InitiatorSignaling dep) SignalingError (OpenBox (Message (Value dep)))
  unfolding decode_token decrypt
  decode_from_responder bbox responder ResponderHandshakeState.new = do
    s ← get
    decode_token bbox s.common.auth_provider
  decode_from_responder bbox responder ResponderHandshakeState.token_received = do
    s ← get
    key ← or_throw responder.permanent_key SignalingError.crash
    or_throw (decrypt dep bbox s.common.permanent_keypair key)
        SignalingError.initiator_could_not_decrypt
  decode_from_responder bbox responder ResponderHandshakeState.key_sent = do
    key ← or_throw responder.session_key SignalingError.crash
    or_throw (decrypt dep bbox responder.keypair key) SignalingError.decode
  decode_from_responder bbox responder ResponderHandshakeState.key_received =
      throw SignalingError.crash
  decode_from_responder bbox responder ResponderHandshakeState.auth_received =
      throw SignalingError.crash
  decode_from_responder bbox responder ResponderHandshakeState.auth_sent =
      throw SignalingError.crash

  -- `InitiatorSignaling::decode_peer_message`
  unfoldable pub initiator_decode_peer_message :
      ByteBox → M (InitiatorSignaling dep) SignalingError (OpenBox (Message (Value dep)))
  unfolding is_responder lookup decode_from_responder
  initiator_decode_peer_message bbox = do
    throw_if (not (is_responder bbox.nonce.source)) SignalingError.crash
    s ← get
    responder ← or_throw (lookup bbox.nonce.source s.responders) SignalingError.crash
    decode_from_responder bbox responder responder.handshake_state

  -- The match on the initiator's handshake state
  decode_from_initiator :
      ByteBox
      → InitiatorHandshakeState
      → M (ResponderSignaling dep) SignalingError (OpenBox (Message (Value dep)))
  unfolding decrypt
  decode_from_initiator bbox InitiatorHandshakeState.key_sent = do
    s ← get
    or_throw (decrypt dep bbox s.common.permanent_keypair s.initiator.permanent_key)
        SignalingError.decode
  decode_from_initiator bbox InitiatorHandshakeState.auth_sent = do
    s ← get
    key ← or_throw s.initiator.session_key SignalingError.crash
    or_throw (decrypt dep bbox s.initiator.keypair key) SignalingError.decode
  decode_from_initiator bbox InitiatorHandshakeState.new = throw SignalingError.crash
  decode_from_initiator bbox InitiatorHandshakeState.key_received = throw SignalingError.crash
  decode_from_initiator bbox InitiatorHandshakeState.auth_received = throw SignalingError.crash

  -- `ResponderSignaling::decode_peer_message`
  unfoldable pub responder_decode_peer_message :
      ByteBox → M (ResponderSignaling dep) SignalingError (OpenBox (Message (Value dep)))
  unfolding is_initiator decode_from_initiator
  responder_decode_peer_message bbox = do
    throw_if (not (is_initiator bbox.nonce.source)) SignalingError.crash
    s ← get
    decode_from_initiator bbox s.initiator.handshake_state

  unfoldable pub decode_peer_message :
      ByteBox → M (Signaling dep) SignalingError (OpenBox (Message (Value dep)))
  unfolding initiator_decode_peer_message responder_decode_peer_message
  decode_peer_message bbox =
      dispatch (initiator_decode_peer_message bbox) (responder_decode_peer_message bbox)

  unfoldable pub decode_task_message :
      ByteBox → M (Signaling dep) SignalingError (OpenBox (Value dep))
  unfolding get_peer decrypt_value
  decode_task_message bbox = do
    s ← get
    peer ← or_throw (get_peer s) SignalingError.crash
    key ← or_throw (session_key peer) SignalingError.crash
    pair ← or_throw (keypair peer) SignalingError.crash
    or_throw (decrypt_value dep bbox pair key) SignalingError.decode

-- ===== src/Signaling/Server.antt =====
-- The server handshake: `handle_server_hello`, and `handle_server_auth` up to the part that
-- depends on the role.
use saltyrtc_client_rs.Prelude.{
  ℕ, ◌^◌, not, Option, none, some, [], ◌∷◌, ◌++◌, ltb, bytes_eq, if◌then◌else◌, is_some, nat_has_eq,
  string_has_eq, bytes_has_eq, M, pure, or_throw, or_panic, ◌>>=◌, ◌>>◌, get, modify, throw_if,
  Panic,
}
use saltyrtc_client_rs.External.{PublicKey}
use saltyrtc_client_rs.Errors.{SignalingError}
use saltyrtc_client_rs.Types.{Role, is_responder_role, is_unknown_client}
use saltyrtc_client_rs.State.{SignalingState, ServerHandshakeState}
use saltyrtc_client_rs.Nonce.{Nonce}
use saltyrtc_client_rs.Crypto.{SignedKeys, signed_keys_decrypt}
use saltyrtc_client_rs.Messages.{Message, ServerHello, ServerAuth}
use saltyrtc_client_rs.Deps.{Deps, Value}
use saltyrtc_client_rs.Boxes.{encode, encrypt}
use saltyrtc_client_rs.Context.{session_key}
use saltyrtc_client_rs.Prelude.Dict.{keys}
use saltyrtc_client_rs.Signaling.{
  Common, HandleAction, Actions, set_server, set_signaling_state, set_server_handshake_state,
}
use saltyrtc_client_rs.Signaling.Encode.{server_nonce}
use saltyrtc_client_rs.Signaling.Validate.{validate_repeated_cookie}
use Prim.Native.Nat.{◌-◌}

-- The ping interval in seconds, cut to a `u32`; 0 for none
unfoldable pub ping_seconds : Option ℕ → ℕ
ping_seconds none = 0
ping_seconds (some secs) = if ltb (2 ^ 32 - 1) secs then 2 ^ 32 - 1 else secs

module _ {dep : Deps} where
  -- The reply of a responder, `client-hello`, which is not encrypted
  client_hello_reply : M (Common dep) SignalingError (HandleAction (Value dep))
  unfolding server_nonce encode
  client_hello_reply = do
    nonce ← server_nonce
    c ← get
    pure (
        HandleAction.reply (
          encode dep (record {
            message = Message.client_hello (record { key = c.permanent_keypair.public_key });
            nonce = nonce;
          })))

  -- The reply `client-auth`
  client_auth_reply : M (Common dep) SignalingError (HandleAction (Value dep))
  unfolding server_nonce encrypt ping_seconds
  client_auth_reply = do
    c ← get
    your_cookie ← or_panic c.server.cookie_pair.theirs Panic.missing_server_cookie
    nonce ← server_nonce
    key ← or_throw c.server.session_key SignalingError.crash
    pure (
        HandleAction.reply (
          encrypt dep c.permanent_keypair key (record {
            message = Message.client_auth (record {
              your_cookie = your_cookie;
              subprotocols = "v1.saltyrtc.org" ∷ [];
              ping_interval = ping_seconds c.ping_interval;
              your_key = c.server.permanent_key;
            });
            nonce = nonce;
          })))

  unfoldable pub handle_server_hello : ServerHello → M (Common dep) SignalingError (Actions dep)
  unfolding client_hello_reply client_auth_reply is_responder_role
  handle_server_hello msg = do
    c ← get
    throw_if (is_some c.server.session_key) SignalingError.protocol
    modify (λ c. set_server (record (c.server) { session_key = some msg.key }) c)
    hello ← elim c.role [
      | Role.responder ↦ (do reply ← client_hello_reply; pure (reply ∷ []))
      | Role.initiator ↦ pure []
    ]
    auth ← client_auth_reply
    modify (set_server_handshake_state ServerHandshakeState.client_info_sent)
    pure (hello ++ (auth ∷ []))

  -- The check of `signed_keys` in `handle_server_auth`, for a known permanent key of the server
  check_signed_keys :
      Option Nonce → Option SignedKeys → PublicKey → M (Common dep) SignalingError (Unit {0})
  unfolding signed_keys_decrypt bytes_eq
  check_signed_keys nonce_clone keys server_key = do
    nonce ← or_throw nonce_clone SignalingError.crash
    signed_keys ← or_throw keys SignalingError.protocol
    c ← get
    decrypted ←
        signed_keys_decrypt dep.sodium dep.byte_order signed_keys c.permanent_keypair server_key
          nonce
    session_key ← or_throw c.server.session_key SignalingError.crash
    throw_if (not (bytes_eq decrypted.server_public_session_key session_key))
        SignalingError.protocol
    throw_if (not (bytes_eq decrypted.client_public_permanent_key c.permanent_keypair.public_key))
        SignalingError.protocol

  -- `handle_server_auth`, up to the call of `handle_server_auth_impl`
  unfoldable pub check_server_auth :
      ServerAuth → Option Nonce → M (Common dep) SignalingError (Unit {0})
  unfolding check_signed_keys validate_repeated_cookie
  check_server_auth msg nonce_clone = do
    c ← get
    throw_if (is_unknown_client c.identity) SignalingError.crash
    validate_repeated_cookie msg.your_cookie c.server.cookie_pair.ours
    elim c.server.permanent_key [
      | some server_key ↦ check_signed_keys nonce_clone msg.signed_keys server_key
      | none ↦ pure tt
    ]

  -- The end of `handle_server_auth`
  unfoldable pub finish_server_auth : M (Common dep) SignalingError (Unit {0})
  unfolding set_signaling_state
  finish_server_auth = do
    modify (set_server_handshake_state ServerHandshakeState.done)
    set_signaling_state SignalingState.peer_handshake

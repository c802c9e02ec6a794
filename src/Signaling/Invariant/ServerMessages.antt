-- ===== src/Signaling/Invariant/ServerMessages.antt =====
-- The messages of the server, for either role, on a well-formed state.
use saltyrtc_client_rs.Prelude.{
  ℕ, ◌≡◌, Bool, true, ◌&&◌, Option, arith, is_some, M, pure, string_has_eq, nat_has_eq,
}
use saltyrtc_client_rs.Prelude.Outcome.{holds, keeps, keeps-continue, keeps-continue_from}
use saltyrtc_client_rs.Nonce.{Nonce}
use saltyrtc_client_rs.Boxes.{ByteBox}
use saltyrtc_client_rs.State.{ServerHandshakeState}
use saltyrtc_client_rs.Types.{Role}
use saltyrtc_client_rs.Messages.{Message, ServerAuth}
use saltyrtc_client_rs.Deps.{Deps, Value, IterOrderLaws}
use saltyrtc_client_rs.Signaling.{
  Common, InitiatorSignaling, ResponderSignaling, Signaling, common, dispatch, in_common,
}
use saltyrtc_client_rs.Signaling.Decode.{decode_server_message}
use saltyrtc_client_rs.Signaling.Server.{handle_server_hello, check_server_auth, finish_server_auth}
use saltyrtc_client_rs.Signaling.Paths.{
  initiator_handle_server_auth, initiator_handle_new_responder, initiator_handle_disconnected,
  initiator_handle_new_initiator,
}
use saltyrtc_client_rs.Signaling.Responder.{
  responder_handle_server_auth, responder_handle_new_initiator, responder_handle_new_responder,
  responder_handle_disconnected,
}
use saltyrtc_client_rs.Signaling.Handle.{
  handle_server_auth, dispatch_server_message, handle_server_message, server_branch,
}
use saltyrtc_client_rs.Signaling.Invariant.{
  is_valid_initiator, is_valid_responder, is_valid_common, is_valid,
}
use saltyrtc_client_rs.Signaling.Invariant.Server.{
  handle_server_hello-is_valid, check_server_auth-is_valid, finish_server_auth-is_valid,
}
use saltyrtc_client_rs.Signaling.Invariant.Paths.{
  initiator_handle_server_auth-is_valid, initiator_handle_new_responder-is_valid,
  initiator_handle_disconnected-is_valid,
}
use saltyrtc_client_rs.Signaling.Invariant.Responder.{
  responder_handle_server_auth-is_valid, responder_handle_new_initiator-is_valid,
}

module _ {dep : Deps} (from : ℕ) where
  -- A method that each role has its own version of.
  pub dispatch-is_valid :
      {E A : Type 0} (m : M (InitiatorSignaling dep) E A) (n : M (ResponderSignaling dep) E A)
      (s : Signaling dep)
      → ((t : InitiatorSignaling dep)
          → is_valid_initiator from t ≡ true
          → keeps (is_valid_initiator from) (m t) ≡ true)
      → ((t : ResponderSignaling dep)
          → is_valid_responder from t ≡ true
          → keeps (is_valid_responder from) (n t) ≡ true)
      → is_valid from s ≡ true
      → keeps (is_valid from) (dispatch m n s) ≡ true
  unfolding is_valid holds
  dispatch-is_valid m n (Signaling.initiator s) f g h = ground (arith, f s h)
  dispatch-is_valid m n (Signaling.responder s) f g h = ground (arith, g s h)

  -- A method of the data that both roles share.
  pub in_common-is_valid :
      {E A : Type 0} (m : M (Common dep) E A) (s : Signaling dep)
      → ((role : Role)
          → is_valid_common role from (common s) ≡ true
          → keeps (is_valid_common role from) (m (common s)) ≡ true)
      → is_valid from s ≡ true
      → keeps (is_valid from) (in_common m s) ≡ true
  unfolding is_valid is_valid_initiator is_valid_responder holds
  in_common-is_valid m (Signaling.initiator s) f h = ground (arith, f Role.initiator)
  in_common-is_valid m (Signaling.responder s) f h = ground (arith, f Role.responder)

  -- Decoding leaves the state as it is.
  decode_server_message-keeps :
      (r : Signaling dep → Bool) (bbox : ByteBox) (s : Signaling dep)
      → r s ≡ true
      → keeps r (in_common (decode_server_message bbox) s) ≡ true
  unfolding decode_server_message holds
  decode_server_message-keeps r bbox (Signaling.initiator s) h = ground arith
  decode_server_message-keeps r bbox (Signaling.responder s) h = ground arith

  module _ (laws : IterOrderLaws dep) where
    handle_server_auth-is_valid :
        (msg : ServerAuth) (n : Option Nonce) (s : Signaling dep)
        → is_valid from s ≡ true
        → keeps (is_valid from) (handle_server_auth msg n s) ≡ true
    unfolding handle_server_auth holds
    handle_server_auth-is_valid msg n s h =
        keeps-continue (is_valid from) _ (in_common (check_server_auth msg n) s)
          (in_common-is_valid (check_server_auth msg n) s
            (λ role. check_server_auth-is_valid role from msg n (common s)) h)
          (λ _ t k.
            keeps-continue (is_valid from) _
              (dispatch (initiator_handle_server_auth msg) (responder_handle_server_auth msg) t)
              (dispatch-is_valid _ _ t (initiator_handle_server_auth-is_valid from laws msg)
                (responder_handle_server_auth-is_valid from msg) k)
              (λ actions u l.
                keeps-continue (is_valid from) (λ _. pure actions) (in_common finish_server_auth u)
                  (in_common-is_valid finish_server_auth u
                    (λ role. finish_server_auth-is_valid role from (common u)) l)
                  (λ _ v m. m)))

    dispatch_server_message-is_valid :
        (st : ServerHandshakeState) (m : Message (Value dep)) (n : Option Nonce) (s : Signaling dep)
        → is_valid from s ≡ true
        → is_some (common s).server.cookie_pair.theirs ≡ true
        → keeps (is_valid from) (dispatch_server_message st m n s) ≡ true
    unfolding dispatch_server_message holds initiator_handle_new_initiator
        responder_handle_new_responder responder_handle_disconnected
    dispatch_server_message-is_valid ServerHandshakeState.new (Message.server_hello msg) n s h k =
        in_common-is_valid (handle_server_hello msg) s
          (λ role v. handle_server_hello-is_valid role from msg (common s) v k) h
    dispatch_server_message-is_valid ServerHandshakeState.client_info_sent (Message.server_auth msg)
          n s h k =
        handle_server_auth-is_valid msg n s h
    dispatch_server_message-is_valid ServerHandshakeState.done Message.new_initiator n s h k =
        dispatch-is_valid initiator_handle_new_initiator responder_handle_new_initiator s (λ t v. v)
          (responder_handle_new_initiator-is_valid from) h
    dispatch_server_message-is_valid ServerHandshakeState.done (Message.new_responder msg) n s h k =
        dispatch-is_valid (initiator_handle_new_responder msg) responder_handle_new_responder s
          (initiator_handle_new_responder-is_valid from msg) (λ t v. v) h
    dispatch_server_message-is_valid ServerHandshakeState.done (Message.disconnected msg) n s h k =
        dispatch-is_valid (initiator_handle_disconnected msg) (responder_handle_disconnected msg) s
          (initiator_handle_disconnected-is_valid from msg) (λ t v. ground arith) h
    dispatch_server_message-is_valid _ _ n s h k = ground arith

    pub server_branch-is_valid :
        (bbox : ByteBox) (s : Signaling dep)
        → is_valid from s ≡ true
        → is_some (common s).server.cookie_pair.theirs ≡ true
        → keeps (is_valid from) (server_branch bbox s) ≡ true
    unfolding server_branch handle_server_message
    server_branch-is_valid bbox s h k =
        keeps-continue_from (λ t. is_valid from t && is_some (common t).server.cookie_pair.theirs)
          (is_valid from) _ (in_common (decode_server_message bbox) s)
          (decode_server_message-keeps
            (λ t. is_valid from t && is_some (common t).server.cookie_pair.theirs) bbox s
            (ground arith))
          (λ t v. ground arith)
          (λ obox t v.
            dispatch_server_message-is_valid (common t).server.handshake_state obox.message _ t
              (ground arith) (ground arith))

-- ===== src/Signaling/Replies/Phases.antt =====
-- The actions that `handle_message` gives, before and in the task state.
use saltyrtc_client_rs.Prelude.{
  ◌≡◌, refl, Bool, true, false, Option, none, [], ◌∷◌, arith, Step, ok, err, panic, M, throw_if,
  if◌then◌else◌, string_has_eq, nat_has_eq,
}
use saltyrtc_client_rs.Prelude.Outcome.{
  ensures, ensures-continue, ensures-continue_from, ensures-weaken,
}
use saltyrtc_client_rs.Errors.{SignalingError, ValidationError}
use saltyrtc_client_rs.Types.{Address, is_server}
use saltyrtc_client_rs.State.{SignalingState, ServerHandshakeState, signaling_state_eq}
use saltyrtc_client_rs.Nonce.{Nonce}
use saltyrtc_client_rs.Messages.{Message, ServerAuth, DropReason}
use saltyrtc_client_rs.Deps.{Deps, Value}
use saltyrtc_client_rs.Boxes.{OpenBox, ByteBox}
use saltyrtc_client_rs.Signaling.{
  Common, Actions, InitiatorSignaling, ResponderSignaling, Signaling, common, dispatch, in_common,
}
use saltyrtc_client_rs.Signaling.Validate.{validate_nonce}
use saltyrtc_client_rs.Signaling.Encode.{send_drop_responder}
use saltyrtc_client_rs.Signaling.Server.{handle_server_hello, check_server_auth, finish_server_auth}
use saltyrtc_client_rs.Signaling.Decode.{
  decode_server_message, decode_peer_message, decode_task_message,
}
use saltyrtc_client_rs.Signaling.Paths.{
  initiator_handle_server_auth, initiator_handle_new_responder, initiator_handle_new_initiator,
}
use saltyrtc_client_rs.Signaling.Initiator.{initiator_handle_peer_message}
use saltyrtc_client_rs.Signaling.Responder.{
  responder_handle_server_auth, responder_handle_new_initiator, responder_handle_new_responder,
  responder_handle_peer_message,
}
use saltyrtc_client_rs.Signaling.Handle.{
  handle_server_auth, dispatch_server_message, handle_server_message, handle_peer_message,
  dispatch_handshake_message, continue_handshake, handle_handshake_peer_message, close_reason,
  dispatch_task_message, handle_task_value, handle_task_peer_message, server_branch, peer_branch,
  process_message, after_validation, handle_message,
}
use saltyrtc_client_rs.Signaling.Replies.{
  allowed, plain-allowed, plain, settles, carries_on, plain-settles, in_task,
}
use saltyrtc_client_rs.Signaling.Replies.Unchanged.{validate_nonce-state}
use saltyrtc_client_rs.Signaling.Replies.Roles.{
  handle_server_hello-plain, initiator_handle_server_auth-plain,
  initiator_handle_new_responder-plain, initiator_handle_disconnected-plain,
  responder_handle_server_auth-plain, responder_handle_new_initiator-plain,
  responder_handle_disconnected-plain, send_drop_responder-plain,
  initiator_handle_peer_message-settles, responder_handle_peer_message-settles,
}

module _ {dep : Deps} where
  -- A method that each role has its own version of.
  dispatch-ensures :
      {A : Type 0} (q : A → Bool → Bool) (m : M (InitiatorSignaling dep) SignalingError A)
      (n : M (ResponderSignaling dep) SignalingError A) (s : Signaling dep)
      → ((t : InitiatorSignaling dep)
          → ensures (λ a u. q a (in_task u.common.signaling_state)) (m t) ≡ true)
      → ((t : ResponderSignaling dep)
          → ensures (λ a u. q a (in_task u.common.signaling_state)) (n t) ≡ true)
      → ensures (λ a u. q a (in_task (common u).signaling_state)) (dispatch m n s) ≡ true
  unfolding ensures
  dispatch-ensures q m n (Signaling.initiator s) f g = ground (arith, f s)
  dispatch-ensures q m n (Signaling.responder s) f g = ground (arith, g s)

  in_common-ensures :
      {A : Type 0} (q : A → Bool) (m : M (Common dep) SignalingError A) (s : Signaling dep)
      → ensures (λ a _. q a) (m (common s)) ≡ true
      → ensures (λ a _. q a) (in_common m s) ≡ true
  unfolding ensures
  in_common-ensures q m s h = ground arith

  handle_server_auth-plain :
      (msg : ServerAuth) (n : Option Nonce) (s : Signaling dep)
      → ensures (λ xs _. plain xs) (handle_server_auth msg n s) ≡ true
  unfolding handle_server_auth ensures
  handle_server_auth-plain msg n s =
      ensures-continue _ _ (in_common (check_server_auth msg n) s) (λ _ t.
        ensures-continue_from (λ xs _. plain xs) _ _
          (dispatch (initiator_handle_server_auth msg) (responder_handle_server_auth msg) t)
          (dispatch-ensures (λ xs _. plain xs) _ _ t (initiator_handle_server_auth-plain msg)
            (responder_handle_server_auth-plain msg))
          (λ xs u h. ensures-continue _ _ (in_common finish_server_auth u) (λ _ v. h)))

  dispatch_server_message-plain :
      (state : ServerHandshakeState) (msg : Message (Value dep)) (n : Option Nonce)
      (s : Signaling dep)
      → ensures (λ xs _. plain xs) (dispatch_server_message state msg n s) ≡ true
  unfolding dispatch_server_message ensures initiator_handle_new_initiator
      responder_handle_new_responder
  dispatch_server_message-plain ServerHandshakeState.new (Message.server_hello msg) n s =
      in_common-ensures plain (handle_server_hello msg) s (handle_server_hello-plain msg (common s))
  dispatch_server_message-plain ServerHandshakeState.client_info_sent (Message.server_auth msg) n
        s =
      handle_server_auth-plain msg n s
  dispatch_server_message-plain ServerHandshakeState.done Message.new_initiator n s =
      dispatch-ensures (λ xs _. plain xs) initiator_handle_new_initiator
        responder_handle_new_initiator s (λ _. refl) responder_handle_new_initiator-plain
  dispatch_server_message-plain ServerHandshakeState.done (Message.new_responder msg) n s =
      dispatch-ensures (λ xs _. plain xs) (initiator_handle_new_responder msg)
        responder_handle_new_responder s (initiator_handle_new_responder-plain msg) (λ _. refl)
  dispatch_server_message-plain ServerHandshakeState.done (Message.disconnected msg) n s =
      dispatch-ensures (λ xs _. plain xs) _ _ s (initiator_handle_disconnected-plain msg)
        (responder_handle_disconnected-plain msg)
  dispatch_server_message-plain state msg n s = ground arith

  pub server_branch-plain :
      (bbox : ByteBox) (s : Signaling dep)
      → ensures (λ xs _. plain xs) (server_branch bbox s) ≡ true
  unfolding server_branch handle_server_message
  server_branch-plain bbox s =
      ensures-continue _ _ (in_common (decode_server_message bbox) s)
        (λ obox t. dispatch_server_message-plain (common t).server.handshake_state obox.message _ t)

  handshake-settles :
      (state : SignalingState) (obox : OpenBox (Message (Value dep))) (s : Signaling dep)
      → ensures
          (λ xs t. settles (in_task (common t).signaling_state) xs)
          (dispatch_handshake_message state obox s)
        ≡ true
  unfolding dispatch_handshake_message handle_server_message handle_peer_message ensures
  handshake-settles SignalingState.server_handshake obox s = refl
  handshake-settles SignalingState.task obox s = refl
  handshake-settles SignalingState.peer_handshake obox s = branch (is_server obox.nonce.source)
    where
      branch :
          (b : Bool)
          → ensures
              (λ xs t. settles (in_task (common t).signaling_state) xs)
              ((if b then handle_server_message obox none else handle_peer_message obox) s)
            ≡ true
      branch true =
          ensures-weaken (λ xs _. plain xs) _
            (dispatch_server_message (common s).server.handshake_state obox.message none s)
            (dispatch_server_message-plain (common s).server.handshake_state obox.message none s)
            (λ xs t h. plain-settles (in_task (common t).signaling_state) xs h)
      branch false =
          dispatch-ensures (λ xs b. settles b xs) (initiator_handle_peer_message obox)
            (responder_handle_peer_message obox) s (initiator_handle_peer_message-settles obox)
            (responder_handle_peer_message-settles obox)

  -- What is decoded is handled by the signaling state.
  continue_handshake-settles :
      (source : Address) (x : Step (Signaling dep) SignalingError (OpenBox (Message (Value dep))))
      → ensures
          (λ xs t. settles (in_task (common t).signaling_state) xs)
          (continue_handshake source x)
        ≡ true
  unfolding continue_handshake ensures
  continue_handshake-settles source (ok obox s) =
      handshake-settles (common s).signaling_state obox s
  continue_handshake-settles source (panic p) = refl
  continue_handshake-settles source (err SignalingError.initiator_could_not_decrypt s) =
      ensures-continue_from (λ x _. plain (x ∷ [])) _ _
        (in_common (send_drop_responder source DropReason.initiator_could_not_decrypt) s)
        (in_common-ensures (λ x. plain (x ∷ []))
          (send_drop_responder source DropReason.initiator_could_not_decrypt) s
          (send_drop_responder-plain source DropReason.initiator_could_not_decrypt (common s)))
        (λ x t h. plain-settles (in_task (common t).signaling_state) (x ∷ []) h)
  continue_handshake-settles source (err _ s) = ground arith

  pub handle_handshake_peer_message-settles :
      (bbox : ByteBox) (s : Signaling dep)
      → ensures
          (λ xs t. settles (in_task (common t).signaling_state) xs)
          (handle_handshake_peer_message bbox s)
        ≡ true
  unfolding handle_handshake_peer_message
  handle_handshake_peer_message-settles bbox s =
      ensures-continue _ _ (throw_if (is_server bbox.nonce.source) SignalingError.crash s)
        (λ _ t. continue_handshake-settles bbox.nonce.source (decode_peer_message bbox t))

  handle_task_value-carries_on :
      (value : Value dep) (s : Signaling dep)
      → ensures (λ xs _. carries_on xs) (handle_task_value value s) ≡ true
  unfolding handle_task_value dispatch_task_message close_reason ensures carries_on
  handle_task_value-carries_on value s = ground arith

  handle_task_peer_message-carries_on :
      (bbox : ByteBox) (s : Signaling dep)
      → ensures (λ xs _. carries_on xs) (handle_task_peer_message bbox s) ≡ true
  unfolding handle_task_peer_message
  handle_task_peer_message-carries_on bbox s =
      ensures-continue _ _ (throw_if (is_server bbox.nonce.source) SignalingError.crash s) (λ _ t.
        ensures-continue _ _ (decode_task_message bbox t)
          (λ obox u. handle_task_value-carries_on obox.message u))

  peer_branch-allowed :
      (state : SignalingState) (bbox : ByteBox) (s : Signaling dep)
      → ensures
          (λ xs t. allowed (in_task state) xs (in_task (common t).signaling_state))
          (peer_branch state bbox s)
        ≡ true
  unfolding peer_branch allowed signaling_state_eq
  peer_branch-allowed SignalingState.server_handshake bbox s =
      handle_handshake_peer_message-settles bbox s
  peer_branch-allowed SignalingState.peer_handshake bbox s =
      handle_handshake_peer_message-settles bbox s
  peer_branch-allowed SignalingState.task bbox s = handle_task_peer_message-carries_on bbox s

  process_message-allowed :
      (bbox : ByteBox) (s : Signaling dep)
      → ensures
          (λ xs t.
            allowed (in_task (common s).signaling_state) xs (in_task (common t).signaling_state))
          (process_message bbox s)
        ≡ true
  unfolding process_message ensures
  process_message-allowed bbox s = grind (
    arith,
    peer_branch-allowed (common s).signaling_state bbox s,
    server_branch-plain bbox s,
    plain-allowed,
  )

  -- In the task state, the actions that `handle_message` gives neither end a handshake nor report
  -- an error of one. Before, they have no task message, and if they end the handshake, then the
  -- signaling is in the task state.
  pub handle_message-allowed :
      (bbox : ByteBox) (s t : Signaling dep) (actions : Actions dep)
      → handle_message bbox s ≡ ok actions t
      → allowed (in_task (common s).signaling_state) actions (in_task (common t).signaling_state)
        ≡ true
  unfolding handle_message after_validation ensures plain
  handle_message-allowed bbox s t actions e = validated (validate_nonce bbox.nonce s) refl e
    where
      nothing : (before after : Bool) → allowed {V = Value dep} before [] after ≡ true
      nothing before after = plain-allowed before [] after refl

      validated :
          (x : Step (Signaling dep) ValidationError (Unit {0}))
          → validate_nonce bbox.nonce s ≡ x
          → after_validation bbox x ≡ ok actions t
          → allowed
              (in_task (common s).signaling_state)
              actions
              (in_task (common t).signaling_state)
            ≡ true
      validated (ok _ u) v e =
          let h = process_message-allowed bbox u in
          let k = validate_nonce-state bbox.nonce s u v in ground (arith, h, k, e)
      validated (err ValidationError.drop_msg u) v e = ground (
        arith,
        nothing (in_task (common s).signaling_state) (in_task (common t).signaling_state),
        e,
      )
      validated (err ValidationError.fail u) v e = ground (arith, e)
      validated (err ValidationError.crash u) v e = ground (arith, e)
      validated (panic p) v e = ground (arith, e)

-- ===== src/Signaling/Invariant/Handle.antt =====
-- `handle_message` on a well-formed state.
use saltyrtc_client_rs.Prelude.{
  ℕ, ◌≡◌, true, false, not, ◌&&◌, ◌||◌, [], String, arith, is_some, Step, ok, err, panic, ◌>>=◌,
  nat_eq, string_has_eq, nat_has_eq,
}
use saltyrtc_client_rs.Prelude.Outcome.{holds, keeps, keeps-continue, keeps-or_throw}
use saltyrtc_client_rs.Prelude.Dict.{Dict, lookup}
use saltyrtc_client_rs.Boxes.{OpenBox, ByteBox}
use saltyrtc_client_rs.State.{SignalingState}
use saltyrtc_client_rs.Types.{Address, is_server}
use saltyrtc_client_rs.Messages.{Message, DropReason}
use saltyrtc_client_rs.Deps.{Deps, Value, IterOrderLaws}
use saltyrtc_client_rs.Errors.{SignalingError, ValidationError}
use saltyrtc_client_rs.Signaling.{Signaling, common, in_common}
use saltyrtc_client_rs.Signaling.Encode.{send_drop_responder}
use saltyrtc_client_rs.Signaling.Validate.{validate_nonce}
use saltyrtc_client_rs.Signaling.Decode.{decode_peer_message, decode_task_message}
use saltyrtc_client_rs.Signaling.Initiator.{initiator_handle_peer_message}
use saltyrtc_client_rs.Signaling.Responder.{responder_handle_peer_message}
use saltyrtc_client_rs.Signaling.Handle.{
  handle_peer_message, dispatch_handshake_message, continue_handshake,
  handle_handshake_peer_message, close_reason, dispatch_task_message, handle_task_value,
  to_hash_map, handle_task_peer_message, peer_branch, process_message, after_validation,
  handle_message,
}
use saltyrtc_client_rs.Signaling.Invariant.{is_valid}
use saltyrtc_client_rs.Signaling.Invariant.Nonces.{validate_nonce-is_valid}
use saltyrtc_client_rs.Signaling.Invariant.Server.{send_drop_responder-is_valid}
use saltyrtc_client_rs.Signaling.Invariant.Paths.{initiator_decode_peer_message-is_valid}
use saltyrtc_client_rs.Signaling.Invariant.Initiator.{initiator_handle_peer_message-is_valid}
use saltyrtc_client_rs.Signaling.Invariant.Responder.{
  responder_decode_peer_message-is_valid, responder_handle_peer_message-is_valid,
}
use saltyrtc_client_rs.Signaling.Invariant.ServerMessages.{
  dispatch-is_valid, in_common-is_valid, server_branch-is_valid,
}

module _ {dep : Deps} (from : ℕ) where
  module _ (laws : IterOrderLaws dep) where
    handle_peer_message-is_valid :
        (obox : OpenBox (Message (Value dep))) (s : Signaling dep)
        → is_valid from s ≡ true
        → keeps (is_valid from) (handle_peer_message obox s) ≡ true
    unfolding handle_peer_message
    handle_peer_message-is_valid obox s h =
        dispatch-is_valid from (initiator_handle_peer_message obox)
          (responder_handle_peer_message obox) s (initiator_handle_peer_message-is_valid from obox)
          (responder_handle_peer_message-is_valid from obox) h

    -- Decoding gives the nonce of the box, and leaves the state as it is.
    decode_peer_message-is_valid :
        (bbox : ByteBox) (s : Signaling dep)
        → is_valid from s ≡ true
        → holds
            (λ obox t. nat_eq obox.nonce.source bbox.nonce.source && is_valid from t)
            (is_valid from)
            (decode_peer_message bbox s)
          ≡ true
    unfolding decode_peer_message is_valid holds
    decode_peer_message-is_valid bbox (Signaling.initiator s) h =
        ground (arith, initiator_decode_peer_message-is_valid from bbox s h)
    decode_peer_message-is_valid bbox (Signaling.responder s) h =
        ground (arith, responder_decode_peer_message-is_valid from bbox s h)

    dispatch_handshake_message-is_valid :
        (st : SignalingState) (obox : OpenBox (Message (Value dep))) (s : Signaling dep)
        → is_valid from s ≡ true
        → is_server obox.nonce.source ≡ false
        → keeps (is_valid from) (dispatch_handshake_message st obox s) ≡ true
    unfolding dispatch_handshake_message holds
    dispatch_handshake_message-is_valid SignalingState.server_handshake obox s h k = h
    dispatch_handshake_message-is_valid SignalingState.peer_handshake obox s h k =
        ground (arith, handle_peer_message-is_valid obox s h)
    dispatch_handshake_message-is_valid SignalingState.task obox s h k = h

    drop_undecrypted-is_valid :
        (a : Address) (s : Signaling dep)
        → is_valid from s ≡ true
        → keeps
            (is_valid from)
            (in_common (send_drop_responder a DropReason.initiator_could_not_decrypt) s)
          ≡ true
    drop_undecrypted-is_valid a s h =
        in_common-is_valid from (send_drop_responder a DropReason.initiator_could_not_decrypt) s
          (λ role.
            send_drop_responder-is_valid role from a DropReason.initiator_could_not_decrypt
              (common s))
          h

    continue_handshake-is_valid :
        (bbox : ByteBox) (x : Step (Signaling dep) SignalingError (OpenBox (Message (Value dep))))
        → is_server bbox.nonce.source ≡ false
        → holds
            (λ obox t. nat_eq obox.nonce.source bbox.nonce.source && is_valid from t)
            (is_valid from)
            x
          ≡ true
        → keeps (is_valid from) (continue_handshake bbox.nonce.source x) ≡ true
    unfolding continue_handshake holds is_server
    continue_handshake-is_valid bbox (ok obox s) h k =
        dispatch_handshake_message-is_valid (common s).signaling_state obox s (ground arith)
          (ground arith)
    continue_handshake-is_valid bbox (err SignalingError.initiator_could_not_decrypt s) h k =
        ground (arith, drop_undecrypted-is_valid bbox.nonce.source s k)
    continue_handshake-is_valid bbox (err _ s) h k = k
    continue_handshake-is_valid bbox (panic p) h k = k

    handle_handshake_peer_message-is_valid :
        (bbox : ByteBox) (s : Signaling dep)
        → is_valid from s ≡ true
        → keeps (is_valid from) (handle_handshake_peer_message bbox s) ≡ true
    unfolding handle_handshake_peer_message holds
    handle_handshake_peer_message-is_valid bbox s h = grind (
      arith,
      continue_handshake-is_valid bbox (decode_peer_message bbox s),
      decode_peer_message-is_valid bbox s h,
    )

    dispatch_task_message-is_valid :
        (type' : String) (entries : Dict String (Value dep)) (s : Signaling dep)
        → is_valid from s ≡ true
        → keeps (is_valid from) (dispatch_task_message type' entries s) ≡ true
    unfolding dispatch_task_message close_reason holds
    dispatch_task_message-is_valid type' entries s h = ground arith

    decode_task_message-is_valid :
        (bbox : ByteBox) (s : Signaling dep)
        → is_valid from s ≡ true
        → keeps (is_valid from) (decode_task_message bbox s) ≡ true
    unfolding decode_task_message holds
    decode_task_message-is_valid bbox s h = ground arith

    handle_task_value-is_valid :
        (value : Value dep) (s : Signaling dep)
        → is_valid from s ≡ true
        → keeps (is_valid from) (handle_task_value value s) ≡ true
    unfolding handle_task_value
    handle_task_value-is_valid value s h =
        keeps-or_throw (is_valid from) _ (dep.rmpv.as_map value) _ s h (λ pairs _.
          keeps-or_throw (is_valid from) _ (to_hash_map dep pairs []) _ s h (λ entries _.
            keeps-or_throw (is_valid from) _ (lookup "type" entries) _ s h (λ type_value _.
              keeps-or_throw (is_valid from) _ (dep.rmpv.as_str type_value) _ s h
                (λ type' _. dispatch_task_message-is_valid type' entries s h))))

    decoded_task-is_valid :
        (bbox : ByteBox) (s : Signaling dep)
        → is_valid from s ≡ true
        → keeps
            (is_valid from)
            ((decode_task_message bbox >>= λ obox. handle_task_value obox.message) s)
          ≡ true
    decoded_task-is_valid bbox s h =
        keeps-continue (is_valid from) (λ obox. handle_task_value obox.message)
          (decode_task_message bbox s) (decode_task_message-is_valid bbox s h)
          (λ obox t k. handle_task_value-is_valid obox.message t k)

    handle_task_peer_message-is_valid :
        (bbox : ByteBox) (s : Signaling dep)
        → is_valid from s ≡ true
        → keeps (is_valid from) (handle_task_peer_message bbox s) ≡ true
    unfolding handle_task_peer_message holds
    handle_task_peer_message-is_valid bbox s h = ground (arith, decoded_task-is_valid bbox s h)

    peer_branch-is_valid :
        (st : SignalingState) (bbox : ByteBox) (s : Signaling dep)
        → is_valid from s ≡ true
        → keeps (is_valid from) (peer_branch st bbox s) ≡ true
    unfolding peer_branch
    peer_branch-is_valid SignalingState.server_handshake bbox s h =
        handle_handshake_peer_message-is_valid bbox s h
    peer_branch-is_valid SignalingState.peer_handshake bbox s h =
        handle_handshake_peer_message-is_valid bbox s h
    peer_branch-is_valid SignalingState.task bbox s h = handle_task_peer_message-is_valid bbox s h

    after_validation-is_valid :
        (bbox : ByteBox) (x : Step (Signaling dep) ValidationError (Unit {0}))
        → holds
            (λ _ t.
              is_valid from t
              && (not (is_server bbox.nonce.source)
                  || is_some (common t).server.cookie_pair.theirs))
            (is_valid from)
            x
          ≡ true
        → keeps (is_valid from) (after_validation bbox x) ≡ true
    unfolding after_validation process_message holds
    after_validation-is_valid bbox (ok _ s) h = grind (
      arith,
      server_branch-is_valid from laws bbox s,
      peer_branch-is_valid (common s).signaling_state bbox s,
    )
    after_validation-is_valid bbox (err ValidationError.drop_msg s) h = h
    after_validation-is_valid bbox (err ValidationError.fail s) h = h
    after_validation-is_valid bbox (err ValidationError.crash s) h = h
    after_validation-is_valid bbox (panic p) h = h

    pub handle_message-is_valid :
        (bbox : ByteBox) (s : Signaling dep)
        → is_valid from s ≡ true
        → keeps (is_valid from) (handle_message bbox s) ≡ true
    unfolding handle_message
    handle_message-is_valid bbox s h =
        after_validation-is_valid bbox (validate_nonce bbox.nonce s)
          (validate_nonce-is_valid from bbox.nonce s h)

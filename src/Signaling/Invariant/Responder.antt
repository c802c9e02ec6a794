-- ===== src/Signaling/Invariant/Responder.antt =====
-- The messages that a responder gets, on a well-formed state.
use saltyrtc_client_rs.Prelude.{ℕ, ◌≡◌, true, nat_eq, ◌&&◌, String, Option, List, arith, ◌>>=◌}
use saltyrtc_client_rs.Prelude.Outcome.{holds, keeps, keeps-continue}
use saltyrtc_client_rs.Cookie.{Cookie}
use saltyrtc_client_rs.State.{InitiatorHandshakeState}
use saltyrtc_client_rs.Prelude.Dict.{Dict}
use saltyrtc_client_rs.Nonce.{Nonce}
use saltyrtc_client_rs.Boxes.{OpenBox, ByteBox}
use saltyrtc_client_rs.Types.{Role, ClientIdentity}
use saltyrtc_client_rs.Messages.{Message, TaskData, ServerAuth, Key, Auth}
use saltyrtc_client_rs.Messages.Builders.Outcomes.{add_tasks-keeps, build_responder_auth-keeps}
use saltyrtc_client_rs.Messages.Builders.{new_responder_auth}
use saltyrtc_client_rs.Deps.{Deps, Value, BoxedTask}
use saltyrtc_client_rs.Signaling.{ResponderSignaling}
use saltyrtc_client_rs.Signaling.Encode.{peer_nonce}
use saltyrtc_client_rs.Signaling.Validate.{validate_repeated_cookie}
use saltyrtc_client_rs.Signaling.Responder.{
  responder_handle_server_auth, responder_handle_new_initiator, handle_key, handle_auth,
  responder_handle_peer_message, handle_peer_handshake_close, proposal, init_chosen_task,
  start_task, handle_initiator_message, take_chosen_task, on_initiator, start_peer_handshake,
}
use saltyrtc_client_rs.Signaling.Decode.{responder_decode_peer_message}
use saltyrtc_client_rs.Signaling.Invariant.{is_valid_responder, is_valid_common, fits}

module _ {dep : Deps} (from : ℕ) where
  pub responder_decode_peer_message-is_valid :
      (bbox : ByteBox) (s : ResponderSignaling dep)
      → is_valid_responder from s ≡ true
      → holds
          (λ obox t. nat_eq obox.nonce.source bbox.nonce.source && is_valid_responder from t)
          (is_valid_responder from)
          (responder_decode_peer_message bbox s)
        ≡ true
  unfolding responder_decode_peer_message holds
  responder_decode_peer_message-is_valid bbox s h = ground arith

  start_peer_handshake-is_valid :
      (s : ResponderSignaling dep)
      → is_valid_responder from s ≡ true
      → keeps (is_valid_responder from) (start_peer_handshake s) ≡ true
  unfolding start_peer_handshake holds is_valid_responder is_valid_common
  start_peer_handshake-is_valid s h = ground arith

  pub responder_handle_server_auth-is_valid :
      (msg : ServerAuth) (s : ResponderSignaling dep)
      → is_valid_responder from s ≡ true
      → keeps (is_valid_responder from) (responder_handle_server_auth msg s) ≡ true
  unfolding responder_handle_server_auth holds is_valid_responder is_valid_common
  responder_handle_server_auth-is_valid msg s h = ground arith

  pub responder_handle_new_initiator-is_valid :
      (s : ResponderSignaling dep)
      → is_valid_responder from s ≡ true
      → keeps (is_valid_responder from) (responder_handle_new_initiator s) ≡ true
  unfolding responder_handle_new_initiator holds is_valid_responder is_valid_common
  responder_handle_new_initiator-is_valid s h = ground arith

  identity-fits :
      (s : ResponderSignaling dep)
      → is_valid_responder from s ≡ true
      → fits Role.responder s.common.identity ≡ true
  unfolding is_valid_responder is_valid_common
  identity-fits s h = ground arith

  own_nonce-is_valid :
      (own : ClientIdentity) (s : ResponderSignaling dep)
      → is_valid_responder from s ≡ true
      → fits Role.responder own ≡ true
      → keeps (is_valid_responder from) (on_initiator (peer_nonce own) s) ≡ true
  unfolding peer_nonce holds is_valid_responder is_valid_common
  own_nonce-is_valid own s h k = ground arith

  proposal-keeps :
      (ts : List (BoxedTask dep)) (cookie : Cookie) (s : ResponderSignaling dep)
      → is_valid_responder from s ≡ true
      → keeps (is_valid_responder from) (proposal dep ts cookie s) ≡ true
  unfolding proposal new_responder_auth holds
  proposal-keeps ts cookie s h = grind (
    arith,
    add_tasks-keeps dep.task (is_valid_responder {dep = dep} from),
    build_responder_auth-keeps {V = Value dep} (is_valid_responder {dep = dep} from),
  )

  handle_key-is_valid :
      (msg : Key) (n : Nonce) (s : ResponderSignaling dep)
      → is_valid_responder from s ≡ true
      → keeps (is_valid_responder from) (handle_key msg n s) ≡ true
  unfolding handle_key holds is_valid_responder
  handle_key-is_valid msg n s h =
      grind (arith, proposal-keeps, own_nonce-is_valid, identity-fits s h)

  take_chosen_task-is_valid :
      (name : Option String) (s : ResponderSignaling dep)
      → is_valid_responder from s ≡ true
      → keeps (is_valid_responder from) (take_chosen_task name s) ≡ true
  unfolding take_chosen_task holds is_valid_responder is_valid_common
  take_chosen_task-is_valid name s h = ground arith

  init_chosen_task-is_valid :
      (entries : Dict String (TaskData (Value dep))) (task : BoxedTask dep)
      (s : ResponderSignaling dep)
      → is_valid_responder from s ≡ true
      → keeps (is_valid_responder from) (init_chosen_task entries task s) ≡ true
  unfolding init_chosen_task holds
  init_chosen_task-is_valid entries task s h = ground arith

  start_task-is_valid :
      (task : BoxedTask dep) (s : ResponderSignaling dep)
      → is_valid_responder from s ≡ true
      → keeps (is_valid_responder from) (start_task task s) ≡ true
  unfolding start_task holds is_valid_responder is_valid_common
  start_task-is_valid task s h = ground arith

  accept_auth-is_valid :
      (msg : Auth (Value dep)) (s : ResponderSignaling dep)
      → is_valid_responder from s ≡ true
      → keeps (is_valid_responder from) (
          (take_chosen_task msg.task >>= λ task. init_chosen_task msg.entries task >>= start_task)
            s)
        ≡ true
  accept_auth-is_valid msg s h =
      keeps-continue (is_valid_responder from)
        (λ task. init_chosen_task msg.entries task >>= start_task) (take_chosen_task msg.task s)
        (take_chosen_task-is_valid msg.task s h)
        (λ task t k.
          keeps-continue (is_valid_responder from) start_task (init_chosen_task msg.entries task t)
            (init_chosen_task-is_valid msg.entries task t k) (λ c u l. start_task-is_valid c u l))

  handle_auth-is_valid :
      (msg : Auth (Value dep)) (s : ResponderSignaling dep)
      → is_valid_responder from s ≡ true
      → keeps (is_valid_responder from) (handle_auth msg s) ≡ true
  unfolding handle_auth holds validate_repeated_cookie
  handle_auth-is_valid msg s h = ground (arith, accept_auth-is_valid msg s h)

  handle_initiator_message-is_valid :
      (st : InitiatorHandshakeState) (m : Message (Value dep)) (n : Nonce)
      (s : ResponderSignaling dep)
      → is_valid_responder from s ≡ true
      → keeps (is_valid_responder from) (handle_initiator_message st m n s) ≡ true
  unfolding handle_initiator_message holds handle_peer_handshake_close
  handle_initiator_message-is_valid InitiatorHandshakeState.key_sent (Message.key msg) n s h =
      handle_key-is_valid msg n s h
  handle_initiator_message-is_valid InitiatorHandshakeState.auth_sent (Message.auth msg) n s h =
      handle_auth-is_valid msg s h
  handle_initiator_message-is_valid InitiatorHandshakeState.auth_sent (Message.close msg) n s h =
      ground arith
  handle_initiator_message-is_valid _ _ n s h = ground arith

  pub responder_handle_peer_message-is_valid :
      (obox : OpenBox (Message (Value dep))) (s : ResponderSignaling dep)
      → is_valid_responder from s ≡ true
      → keeps (is_valid_responder from) (responder_handle_peer_message obox s) ≡ true
  unfolding responder_handle_peer_message
  responder_handle_peer_message-is_valid obox s h =
      handle_initiator_message-is_valid s.initiator.handshake_state obox.message obox.nonce s h

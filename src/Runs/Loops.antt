-- ===== src/Runs/Loops.antt =====
-- The theorems on `do_handshake` of src/lib.rs, at a handshake that ends.
use saltyrtc_client_rs.Signaling.Handle.{
  handle_peer_message, dispatch_handshake_message, continue_handshake,
  handle_handshake_peer_message, peer_branch, process_message, after_validation, handle_message,
}
use saltyrtc_client_rs.External.Examples.{toy, big_endian, repeat}
use saltyrtc_client_rs.State.{signaling_state_eq}
use saltyrtc_client_rs.Client.Handshake.Answer.{
  replies_of, events_of, error_of, answer, process_action-answer,
}
use saltyrtc_client_rs.Client.Handshake.Outcome.{closes, do_handshake-in_task}
use saltyrtc_client_rs.Client.Handshake.{
  handshake_turn, collect_actions, send_collected, loop_action, process_action, do_handshake,
}
use saltyrtc_client_rs.Signaling.Validate.{
  validate_repeated_cookie, accept_cookie, accept_csn, validate_nonce_cookie, validate_nonce_csn,
  validate_nonce_source, validate_nonce_destination, validate_nonce,
}
use saltyrtc_client_rs.Signaling.Decode.{decode_peer_message}
use saltyrtc_client_rs.Signaling.Responder.{
  responder_handle_peer_message, handle_initiator_message, handle_auth, take_chosen_task,
  init_chosen_task, start_task,
}
use saltyrtc_client_rs.Prelude.{ℕ, ◌≡◌, refl, true, false, none, some, [], ◌∷◌, ◌++◌, ok, any}
use saltyrtc_client_rs.Crypto
use saltyrtc_client_rs.Nonce
use saltyrtc_client_rs.Context.{InitiatorContext}
use saltyrtc_client_rs.Boxes.{ByteBox, into_bytes}
use saltyrtc_client_rs.Signaling.{
  Actions, Event, HandleAction, ResponderSignaling, Signaling, common,
}
use saltyrtc_client_rs.Signaling.Replies.{allowed, in_task, finishes}
use saltyrtc_client_rs.Signaling.Replies.Phases.{handle_message-allowed}
use saltyrtc_client_rs.Client.WebSocket.{
  OwnedMessage, Session, Incoming, Turn, Loop, PipelineAction,
}
use saltyrtc_client_rs.Runs.Handlers.{waiting, settled}

-- The auth message of the initiator, which chooses the task
abbrev choosing : ByteBox
choosing = record {
  bytes = repeat 16 0 ++ (6 ∷ repeat 16 11);
  nonce = record {
    cookie = repeat 16 6;
    source = 1;
    destination = 2;
    csn = record { overflow = 0; sequence = 1 };
  };
}

abbrev pub arrived : ℕ → InitiatorContext → InitiatorContext
arrived n i = record i {
  csn_pair = record (i.csn_pair) { theirs = some (record { overflow = 0; sequence = n }) };
}

abbrev agreed : ResponderSignaling toy
agreed = record settled { initiator = arrived 1 settled.initiator }

choosing-handled :
    handle_message choosing (Signaling.responder waiting)
    ≡ ok (HandleAction.handshake_done ∷ []) (Signaling.responder agreed)
unfolding handle_message after_validation process_message peer_branch handle_handshake_peer_message
    continue_handshake dispatch_handshake_message handle_peer_message validate_nonce
    validate_nonce_destination validate_nonce_source validate_nonce_csn validate_nonce_cookie
    accept_csn accept_cookie decode_peer_message responder_handle_peer_message
    handle_initiator_message handle_auth take_chosen_task init_chosen_task start_task
    validate_repeated_cookie Crypto.decrypt
choosing-handled = refl

abbrev reported : Actions toy
reported = HandleAction.handshake_done ∷ []

handle_message-allowed_example :
    allowed
      (in_task waiting.common.signaling_state)
      reported
      (in_task agreed.common.signaling_state)
    ≡ true
handle_message-allowed_example =
    handle_message-allowed choosing (Signaling.responder waiting) (Signaling.responder agreed)
      (HandleAction.handshake_done ∷ []) choosing-handled

abbrev turn : Turn
turn = record {
  incoming = Incoming.message (OwnedMessage.binary (into_bytes big_endian choosing));
  write_fails = none;
  has_receiver = true;
}

abbrev before : Session toy
before = record { salty = Signaling.responder waiting; sent = []; events = [] }

abbrev after : Session toy
after = record {
  salty = Signaling.responder agreed;
  sent = [];
  events = Event.peer_handshake_done ∷ [];
}

not_yet : in_task waiting.common.signaling_state ≡ false
unfolding signaling_state_eq
not_yet = refl

process_action-answer_example :
    process_action turn (PipelineAction.byte_box choosing) before
    ≡ answer
        (replies_of big_endian reported)
        (error_of none reported)
        (finishes reported)
        (record before { salty = Signaling.responder agreed; events = [] ++ events_of reported })
process_action-answer_example =
    process_action-answer turn choosing before (Signaling.responder agreed)
      (HandleAction.handshake_done ∷ []) refl refl not_yet choosing-handled

handshake-ends : do_handshake (turn ∷ []) before ≡ ok Loop.break after
unfolding do_handshake handshake_turn process_action collect_actions send_collected loop_action
    handle_message after_validation process_message peer_branch handle_handshake_peer_message
    continue_handshake dispatch_handshake_message handle_peer_message validate_nonce
    validate_nonce_destination validate_nonce_source validate_nonce_csn validate_nonce_cookie
    accept_csn accept_cookie decode_peer_message responder_handle_peer_message
    handle_initiator_message handle_auth take_chosen_task init_chosen_task start_task
    validate_repeated_cookie Crypto.decrypt Nonce.into_bytes Nonce.from_bytes
handshake-ends = refl

no_close : any (λ t. closes t.incoming) (turn ∷ []) ≡ false
unfolding any
no_close = refl

do_handshake-in_task_example : in_task (common after.salty).signaling_state ≡ true
do_handshake-in_task_example = do_handshake-in_task (turn ∷ []) before after no_close handshake-ends

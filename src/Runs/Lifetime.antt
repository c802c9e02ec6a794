-- ===== src/Runs/Lifetime.antt =====
-- The theorem on both loops, at an initiator that the server sends a `drop-responder` message.
use saltyrtc_client_rs.Prelude.{◌≡◌, refl, true, none, some, [], ◌∷◌, Panic}
use saltyrtc_client_rs.Prelude.Outcome.{is_foreign}
use saltyrtc_client_rs.External.Examples.{toy, toy-laws, big_endian}
use saltyrtc_client_rs.Crypto
use saltyrtc_client_rs.Nonce
use saltyrtc_client_rs.Boxes.{ByteBox, into_bytes}
use saltyrtc_client_rs.Signaling.{Signaling}
use saltyrtc_client_rs.Signaling.Handle.{
  handle_message, after_validation, process_message, server_branch, handle_server_message,
  dispatch_server_message, handle_server_auth,
}
use saltyrtc_client_rs.Signaling.Validate.{
  validate_nonce, validate_nonce_destination, validate_nonce_source, validate_nonce_csn,
  validate_nonce_cookie, accept_csn, accept_cookie,
}
use saltyrtc_client_rs.Signaling.Server.{handle_server_hello, check_server_auth, finish_server_auth}
use saltyrtc_client_rs.Signaling.Paths.{
  initiator_handle_server_auth, process_new_responders, process_new_responder, register_responder,
}
use saltyrtc_client_rs.Signaling.Decode.{decode_server_message}
use saltyrtc_client_rs.Client.WebSocket.{OwnedMessage, Session, Incoming, Turn}
use saltyrtc_client_rs.Client.Handshake.{
  do_handshake, handshake_turn, process_action, collect_actions, send_collected, loop_action,
}
use saltyrtc_client_rs.Client.TaskLoop.Reading.{all_held}
use saltyrtc_client_rs.Client.Lifetime.{run_panic, run-is_foreign}
use saltyrtc_client_rs.Runs.{first, first-IsNew, hello, listing, dropping}

abbrev turn_with : ByteBox → Turn
turn_with bbox = record {
  incoming = Incoming.message (OwnedMessage.binary (into_bytes big_endian bbox));
  write_fails = none;
  has_receiver = true;
}

abbrev beginning : Session toy
beginning = record { salty = Signaling.initiator first; sent = []; events = [] }

handshake-panics :
    run_panic (turn_with hello ∷ turn_with listing ∷ turn_with dropping ∷ []) all_held [] beginning
    ≡ some Panic.drop_responder_unimplemented
unfolding run_panic do_handshake handshake_turn process_action collect_actions send_collected
    loop_action handle_message after_validation process_message server_branch handle_server_message
    dispatch_server_message validate_nonce validate_nonce_destination validate_nonce_source
    validate_nonce_csn validate_nonce_cookie accept_csn accept_cookie decode_server_message
    handle_server_hello handle_server_auth check_server_auth finish_server_auth
    initiator_handle_server_auth process_new_responders process_new_responder register_responder
    Crypto.encrypt Crypto.decrypt Nonce.into_bytes Nonce.from_bytes
handshake-panics = refl

run-is_foreign_example : is_foreign Panic.drop_responder_unimplemented ≡ true
run-is_foreign_example =
    run-is_foreign toy-laws beginning
      (turn_with hello ∷ turn_with listing ∷ turn_with dropping ∷ []) all_held []
      Panic.drop_responder_unimplemented first-IsNew handshake-panics

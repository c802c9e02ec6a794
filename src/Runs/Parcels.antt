-- ===== src/Runs/Parcels.antt =====
-- The theorems on `task_loop` of src/lib.rs, at one application message.
use saltyrtc_client_rs.Signaling.Handle.{
  to_hash_map, dispatch_task_message, handle_task_value, handle_task_peer_message, peer_branch,
  process_message, after_validation, handle_message,
}
use saltyrtc_client_rs.External.Examples.{
  ToyValue, toy, toy_sodium-laws, toy_rmpv-laws, big_endian, big_endian-laws, repeat, number,
  all_bytes-IsByte,
}
use saltyrtc_client_rs.Types.{is_server}
use saltyrtc_client_rs.Signaling.Peers.{get_peer}
use saltyrtc_client_rs.Client.{encrypt_task_message}
use saltyrtc_client_rs.Client.TaskLoop.{
  TaskSession, Next, Item, application_value, transform_message, forward_items, transformer,
  read_one, handle_decoded,
}
use saltyrtc_client_rs.Client.TaskLoop.Reading.{
  all_held, messages_of, has_close, handle_decoded-delivers,
}
use saltyrtc_client_rs.Client.TaskLoop.Writing.{
  Framed, Numbered, transformer-numbers, transformer-close,
}
use saltyrtc_client_rs.Client.TaskLoop.EndToEnd.{application-delivered}
use saltyrtc_client_rs.Runs.Sending.{
  seven-own, seven-IsCsn, peer-chosen, chosen-keys, initiator-keys, busy, chosen, known_initiator,
  other,
}
use saltyrtc_client_rs.State.{signaling_state_eq}
use saltyrtc_client_rs.Client.Handshake.Answer.{replies_of, events_of}
use saltyrtc_client_rs.Signaling.Validate.{
  accept_cookie, accept_csn, validate_nonce_cookie, validate_nonce_csn, validate_nonce_source,
  validate_nonce_destination, validate_nonce,
}
use saltyrtc_client_rs.Signaling.Decode.{decode_task_message}
use saltyrtc_client_rs.Prelude.{
  if◌then◌else◌, ℕ, ◌≡◌, refl, true, false, some, List, [], ◌∷◌, ◌++◌, ok, arith,
}
use saltyrtc_client_rs.Crypto
use saltyrtc_client_rs.Nonce.RoundTrip.{IsNonce}
use saltyrtc_client_rs.Context.{PeerContext}
use saltyrtc_client_rs.Tasks.{TaskMessage}
use saltyrtc_client_rs.CloseCode.{CloseCode}
use saltyrtc_client_rs.Boxes.{ByteBox, into_bytes}
use saltyrtc_client_rs.Signaling.{Actions, HandleAction, ResponderSignaling, Signaling}
use saltyrtc_client_rs.Signaling.Encode.{encode_task_message}
use saltyrtc_client_rs.Signaling.Replies.{in_task}
use saltyrtc_client_rs.Client.WebSocket.{OwnedMessage, WsMessageDecoded, Incoming}
use saltyrtc_client_rs.Runs.Loops.{arrived}

-- An application message of the initiator, and its frame
abbrev pub parcel : ℕ → ByteBox
parcel n = record {
  bytes = repeat 16 0 ++ (9 ∷ 42 ∷ []);
  nonce = record {
    cookie = repeat 16 6;
    source = 1;
    destination = 2;
    csn = record { overflow = 0; sequence = n };
  };
}

parcel-sent :
    encode_task_message {dep = toy}
      (application_value toy (number 42))
      (Signaling.initiator (busy 7))
    ≡ ok (parcel 8) (Signaling.initiator (busy 8))
unfolding encode_task_message Crypto.encrypt application_value
parcel-sent = refl

abbrev pub reached : ResponderSignaling toy
reached = record other { initiator = arrived 8 known_initiator }

parcel-validated :
    validate_nonce (parcel 8).nonce (Signaling.responder other)
    ≡ ok tt (Signaling.responder reached)
unfolding validate_nonce validate_nonce_destination validate_nonce_source validate_nonce_csn
    validate_nonce_cookie accept_csn accept_cookie
parcel-validated = refl

pub parcel-IsNonce : IsNonce (parcel 8).nonce
parcel-IsNonce = record {
  cookie_length = refl;
  cookie_bytes = all_bytes-IsByte (repeat 16 6) refl;
  source_u8 = omega arith;
  destination_u8 = omega arith;
  csn = record { overflow_u16 = omega arith; sequence_u32 = omega arith };
}

abbrev reading : TaskSession toy
reading = record {
  salty = Signaling.responder other;
  raw_outgoing = [];
  incoming = [];
  events = [];
}

pub now_tasking : in_task other.common.signaling_state ≡ true
unfolding signaling_state_eq
now_tasking = refl

pub not_server : is_server (parcel 8).nonce.source ≡ false
unfolding is_server
not_server = refl

peer-now :
    get_peer (Signaling.responder reached)
    ≡ some (PeerContext.initiator (arrived 8 known_initiator))
unfolding get_peer
peer-now = refl

wrapped-read :
    toy.msgpack.value_from_msgpack
      (toy.msgpack.value_to_msgpack (application_value toy (number 42)))
    ≡ some (application_value toy (number 42))
unfolding application_value
wrapped-read = refl

application-delivered_example :
    (transform_message {dep = toy}
        (TaskMessage.application (number 42))
        (Signaling.initiator (busy 7))
      ≡ ok
          (Item.message (OwnedMessage.binary (into_bytes big_endian (parcel 8))) ∷ [])
          (Signaling.initiator (busy 8)))
    × (read_one all_held
          (Incoming.message (OwnedMessage.binary (into_bytes big_endian (parcel 8))))
          reading
        ≡ ok Next.next (record reading {
          salty = Signaling.responder reached;
          incoming = TaskMessage.application (number 42) ∷ [];
        }))
application-delivered_example =
    application-delivered {dep = toy} (number 42) (Signaling.initiator (busy 7))
      (Signaling.initiator (busy 8)) (parcel 8) reading (Signaling.responder reached)
      (PeerContext.responder (chosen 7)) (PeerContext.initiator (arrived 8 known_initiator))
      (repeat 32 4) (repeat 32 7) toy_sodium-laws big_endian-laws toy_rmpv-laws wrapped-read
      peer-chosen chosen-keys refl parcel-sent parcel-IsNonce (omega arith) now_tasking not_server
      parcel-validated peer-now initiator-keys refl

pub parcel-handled :
    handle_message (parcel 8) (Signaling.responder other)
    ≡ ok
        (HandleAction.task_message (TaskMessage.application (number 42)) ∷ [])
        (Signaling.responder reached)
unfolding handle_message after_validation process_message peer_branch handle_task_peer_message
    validate_nonce validate_nonce_destination validate_nonce_source validate_nonce_csn
    validate_nonce_cookie accept_csn accept_cookie decode_task_message handle_task_value
    dispatch_task_message to_hash_map Crypto.decrypt
parcel-handled = refl

abbrev pub delivered : Actions toy
delivered = HandleAction.task_message (TaskMessage.application (number 42)) ∷ []

handle_decoded-delivers_example :
    handle_decoded all_held (WsMessageDecoded.byte_box (parcel 8)) reading
    ≡ ok (if has_close (messages_of delivered) then Next.stop else Next.next) (record {
      salty = Signaling.responder reached;
      raw_outgoing = replies_of big_endian delivered;
      incoming = messages_of delivered;
      events = events_of delivered;
    })
handle_decoded-delivers_example =
    handle_decoded-delivers (parcel 8) reading (Signaling.responder reached) delivered now_tasking
      parcel-handled

abbrev writing : TaskSession toy
writing = record {
  salty = Signaling.initiator (busy 7);
  raw_outgoing = [];
  incoming = [];
  events = [];
}

abbrev written : TaskSession toy
written = record writing {
  salty = Signaling.initiator (busy 9);
  raw_outgoing =
      OwnedMessage.binary (into_bytes big_endian (parcel 8))
      ∷ OwnedMessage.binary (into_bytes big_endian (parcel 9))
      ∷ [];
}

abbrev twice : List (TaskMessage ToyValue)
twice = TaskMessage.application (number 42) ∷ TaskMessage.application (number 42) ∷ []

twice-written : transformer {dep = toy} all_held twice writing ≡ ok Next.next written
unfolding transformer transform_message forward_items encrypt_task_message encode_task_message
    Crypto.encrypt application_value
twice-written = refl

transformer-numbers_example :
    (frames : List OwnedMessage) × (written.raw_outgoing ≡ writing.raw_outgoing ++ frames)
    × Framed twice
        (record { overflow = 0; sequence = 7 })
        (Signaling.initiator (busy 7))
        frames
        (Signaling.initiator (busy 9))
    × Numbered (Signaling.initiator (busy 9)) (record { overflow = 0; sequence = 7 }) 2
transformer-numbers_example =
    transformer-numbers {dep = toy} all_held twice writing written
      (record { overflow = 0; sequence = 7 }) seven-own seven-IsCsn twice-written

transformer-close_example :
    transformer {dep = toy} all_held
      (TaskMessage.close CloseCode.ws_going_away ∷ TaskMessage.application (number 42) ∷ [])
      writing
    ≡ transformer all_held (TaskMessage.close CloseCode.ws_going_away ∷ []) writing
transformer-close_example =
    transformer-close {dep = toy} all_held [] CloseCode.ws_going_away
      (TaskMessage.application (number 42) ∷ []) writing

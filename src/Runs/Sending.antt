-- ===== src/Runs/Sending.antt =====
-- The theorems on what is sent, at a client in the task state and its peer.
use saltyrtc_client_rs.Prelude.{ℕ, ◌+◌, ◌≡◌, ◌<◌, refl, none, some, [], ◌∷◌, ◌++◌, ok, arith}
use saltyrtc_client_rs.External.Examples.{toy, toy_sodium-laws, repeat, number}
use saltyrtc_client_rs.Types.{Role, ClientIdentity}
use saltyrtc_client_rs.State.{SignalingState, InitiatorHandshakeState, ResponderHandshakeState}
use saltyrtc_client_rs.Crypto
use saltyrtc_client_rs.Crypto.{from_private_key}
use saltyrtc_client_rs.Csn.{combined_sequence_number, snapshot_number, from_snapshot}
use saltyrtc_client_rs.Csn.Increment.{IsCsn}
use saltyrtc_client_rs.Context.{ResponderContext, InitiatorContext, PeerContext}
use saltyrtc_client_rs.Boxes.{ByteBox}
use saltyrtc_client_rs.Signaling.{InitiatorSignaling, ResponderSignaling, Signaling}
use saltyrtc_client_rs.Signaling.Encode.{encode_task_message}
use saltyrtc_client_rs.Signaling.Decode.{decode_task_message}
use saltyrtc_client_rs.Signaling.Peers.{get_peer}
use saltyrtc_client_rs.Signaling.Encode.Sending.{
  own_csn, encode_task_message-number, encode_task_message-distinct,
  decode_task_message-encode_task_message,
}
use saltyrtc_client_rs.Runs.{connected, listed}

-- The chosen responder after its messages, with `n` as the last number that was sent to it
abbrev pub chosen : ℕ → ResponderContext
chosen n = record listed {
  handshake_state = ResponderHandshakeState.auth_sent;
  permanent_key = some (repeat 32 5);
  session_key = some (repeat 32 7);
  csn_pair = record { ours = record { overflow = 0; sequence = n }; theirs = none };
}

abbrev pub busy : ℕ → InitiatorSignaling toy
busy n = record connected {
  common = record (connected.common) {
    signaling_state = SignalingState.task;
    tasks = none;
    task = some "chat";
    task_supported_types = some ("chat" ∷ []);
  };
  responders = [];
  responder = some (chosen n);
}

-- The other side
abbrev pub known_initiator : InitiatorContext
known_initiator = record {
  handshake_state = InitiatorHandshakeState.auth_received;
  permanent_key = repeat 32 9;
  session_key = some (repeat 32 4);
  keypair = record { public_key = repeat 32 7; private_key = repeat 32 7 };
  csn_pair = record { ours = record { overflow = 0; sequence = 17 }; theirs = none };
  cookie_pair = record { ours = repeat 16 11; theirs = some (repeat 16 6) };
}

abbrev pub other : ResponderSignaling toy
other = record {
  common = record (connected.common) {
    signaling_state = SignalingState.task;
    role = Role.responder;
    identity = ClientIdentity.responder 2;
    auth_provider = none;
    tasks = none;
    task = some "chat";
    task_supported_types = some ("chat" ∷ []);
  };
  initiator = known_initiator;
}

abbrev sent : ℕ → ℕ → ByteBox
sent value n = record {
  bytes = repeat 16 0 ++ (value ∷ []);
  nonce = record {
    cookie = repeat 16 6;
    source = 1;
    destination = 2;
    csn = record { overflow = 0; sequence = n };
  };
}

first-sent :
    encode_task_message {dep = toy} (number 42) (Signaling.initiator (busy 7))
    ≡ ok (sent 42 8) (Signaling.initiator (busy 8))
unfolding encode_task_message Crypto.encrypt
first-sent = refl

second-sent :
    encode_task_message {dep = toy} (number 43) (Signaling.initiator (busy 8))
    ≡ ok (sent 43 9) (Signaling.initiator (busy 9))
unfolding encode_task_message Crypto.encrypt
second-sent = refl

pub seven-own :
    own_csn (Signaling.initiator (busy 7)) ≡ some (record { overflow = 0; sequence = 7 })
unfolding own_csn
seven-own = refl

pub seven-IsCsn : IsCsn (record { overflow = 0; sequence = 7 })
seven-IsCsn = record { overflow_u16 = omega arith; sequence_u32 = omega arith }

encode_task_message-number_example :
    (snapshot_number (sent 42 8).nonce.csn
      ≡ combined_sequence_number (record { overflow = 0; sequence = 7 }) + 1)
    × (own_csn (Signaling.initiator (busy 8)) ≡ some (from_snapshot (sent 42 8).nonce.csn))
    × IsCsn (from_snapshot (sent 42 8).nonce.csn)
    × (SignalingState.task ≡ SignalingState.task)
encode_task_message-number_example =
    encode_task_message-number (number 42) (Signaling.initiator (busy 7))
      (Signaling.initiator (busy 8)) (sent 42 8) (record { overflow = 0; sequence = 7 }) seven-own
      seven-IsCsn first-sent

encode_task_message-distinct_example :
    snapshot_number (sent 42 8).nonce.csn < snapshot_number (sent 43 9).nonce.csn
encode_task_message-distinct_example =
    encode_task_message-distinct (number 42) (number 43) (Signaling.initiator (busy 7))
      (Signaling.initiator (busy 8)) (Signaling.initiator (busy 9)) (sent 42 8) (sent 43 9)
      (record { overflow = 0; sequence = 7 }) seven-own seven-IsCsn first-sent second-sent

pub peer-chosen : get_peer (Signaling.initiator (busy 7)) ≡ some (PeerContext.responder (chosen 7))
unfolding get_peer
peer-chosen = refl

pub peer-initiator :
    get_peer (Signaling.responder other) ≡ some (PeerContext.initiator known_initiator)
unfolding get_peer
peer-initiator = refl

pub chosen-keys :
    some (record { public_key = repeat 32 4; private_key = repeat 32 4 })
    ≡ some (from_private_key toy.sodium (repeat 32 4))
unfolding from_private_key
chosen-keys = refl

pub initiator-keys :
    some (record { public_key = repeat 32 7; private_key = repeat 32 7 })
    ≡ some (from_private_key toy.sodium (repeat 32 7))
unfolding from_private_key
initiator-keys = refl

decode_task_message-encode_task_message_example :
    decode_task_message (sent 42 8) (Signaling.responder other)
    ≡ ok (record { message = number 42; nonce = (sent 42 8).nonce }) (Signaling.responder other)
decode_task_message-encode_task_message_example =
    decode_task_message-encode_task_message (number 42) (Signaling.initiator (busy 7))
      (Signaling.initiator (busy 8)) (Signaling.responder other) (sent 42 8)
      (PeerContext.responder (chosen 7)) (PeerContext.initiator known_initiator) (repeat 32 4)
      (repeat 32 7) toy_sodium-laws refl peer-chosen chosen-keys refl peer-initiator initiator-keys
      refl first-sent

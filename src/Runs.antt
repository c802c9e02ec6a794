-- ===== src/Runs.antt =====
-- Concrete runs of an initiator, from its first state: the server's hello, its auth message, which
-- lists one responder, and what may follow; and the theorems at these and other inputs.
pub mod Nonces
pub mod Sending
pub mod Handlers
pub mod Loops
pub mod Parcels
pub mod Values
pub mod Chatting
pub mod Lifetime
pub mod Formats
use saltyrtc_client_rs.Prelude.{
  ℕ, ◌≡◌, ◌≤◌, refl, nat_has_eq, true, false, none, some, [], ◌∷◌, ◌++◌, ok, err, panic, Panic,
}
use saltyrtc_client_rs.External.Examples.{toy, toy-laws, repeat}
use saltyrtc_client_rs.Prelude.Dict.{lookup}
use saltyrtc_client_rs.Prelude.Outcome.{is_foreign}
use saltyrtc_client_rs.Signaling.Invariant.{rank, fits}
use saltyrtc_client_rs.Boxes.{ByteBox}
use saltyrtc_client_rs.Nonce.{Nonce}
use saltyrtc_client_rs.Types.{Role, ClientIdentity}
use saltyrtc_client_rs.State.{SignalingState, ServerHandshakeState, ResponderHandshakeState}
use saltyrtc_client_rs.Crypto
use saltyrtc_client_rs.Crypto.{KeyPair}
use saltyrtc_client_rs.Context.{ServerContext, ResponderContext}
use saltyrtc_client_rs.Signaling.{
  Common, AuthProvider, HandleAction, Event, Actions, InitiatorSignaling, Signaling,
}
use saltyrtc_client_rs.Signaling.New.{new_initiator}
use saltyrtc_client_rs.Signaling.Handle.{
  handle_message, after_validation, process_message, server_branch, handle_server_message,
  dispatch_server_message, handle_server_auth,
}
use saltyrtc_client_rs.Signaling.Validate.{
  validate_nonce, validate_nonce_destination, validate_nonce_source, validate_nonce_csn,
  validate_nonce_cookie, accept_csn, accept_cookie,
}
use saltyrtc_client_rs.Signaling.Server.{handle_server_hello, check_server_auth, finish_server_auth}
use saltyrtc_client_rs.Signaling.Paths.{
  initiator_handle_server_auth, process_new_responders, process_new_responder, register_responder,
}
use saltyrtc_client_rs.Signaling.Decode.{decode_server_message}
use saltyrtc_client_rs.Signaling.Reach.{
  Reaches, IsNew, handle_message-is_foreign, Reaches-rank, Reaches-fits, Reaches-address,
}

abbrev pub pair : KeyPair
pair = record { public_key = repeat 32 9; private_key = repeat 32 9 }

abbrev pub first_server : ServerContext
first_server = record {
  handshake_state = ServerHandshakeState.new;
  permanent_key = none;
  session_key = none;
  csn_pair = record { ours = record { overflow = 0; sequence = 33686018 }; theirs = none };
  cookie_pair = record { ours = repeat 16 3; theirs = none };
}

abbrev pub first : InitiatorSignaling toy
first = record {
  common = record {
    signaling_state = SignalingState.server_handshake;
    permanent_keypair = pair;
    auth_provider = some (AuthProvider.token (repeat 32 1));
    role = Role.initiator;
    identity = ClientIdentity.unknown;
    server = first_server;
    tasks = some ("chat" ∷ []);
    task = none;
    task_supported_types = none;
    ping_interval = none;
    rng = 3;
  };
  responders = [];
  responder = none;
  responder_counter = 0;
}

pub first-IsNew : IsNew (Signaling.initiator first)
unfolding new_initiator
first-IsNew = IsNew.initiator pair ("chat" ∷ []) none none none 0 3 first refl

-- The server's hello, in the clear
abbrev pub hello : ByteBox
hello = record {
  bytes = 1 ∷ repeat 32 8;
  nonce = record {
    cookie = repeat 16 200;
    source = 0;
    destination = 0;
    csn = record { overflow = 0; sequence = 5 };
  };
}

abbrev pub greeted : InitiatorSignaling toy
greeted = record first {
  common = record (first.common) {
    server = record {
      handshake_state = ServerHandshakeState.client_info_sent;
      permanent_key = none;
      session_key = some (repeat 32 8);
      csn_pair = record {
        ours = record { overflow = 0; sequence = 33686019 };
        theirs = some (record { overflow = 0; sequence = 5 });
      };
      cookie_pair = record { ours = repeat 16 3; theirs = some (repeat 16 200) };
    };
  };
}

abbrev pub greeting : Actions toy
greeting =
    HandleAction.reply (record {
      bytes = repeat 16 0;
      nonce = record {
        cookie = repeat 16 3;
        source = 0;
        destination = 0;
        csn = record { overflow = 0; sequence = 33686019 };
      };
    })
    ∷ []

hello-handled :
    handle_message hello (Signaling.initiator first) ≡ ok greeting (Signaling.initiator greeted)
unfolding handle_message after_validation process_message server_branch handle_server_message
    dispatch_server_message validate_nonce validate_nonce_destination validate_nonce_source
    validate_nonce_csn validate_nonce_cookie accept_csn accept_cookie decode_server_message
    handle_server_hello Crypto.encrypt
hello-handled = refl

-- The server's auth message, which repeats our cookie and lists the responder 2
abbrev pub listing : ByteBox
listing = record {
  bytes = repeat 16 0 ++ (5 ∷ (repeat 16 3 ++ (2 ∷ [])));
  nonce = record {
    cookie = repeat 16 200;
    source = 0;
    destination = 1;
    csn = record { overflow = 0; sequence = 6 };
  };
}

abbrev pub listed : ResponderContext
listed = record {
  handshake_state = ResponderHandshakeState.new;
  counter = 0;
  address = 2;
  permanent_key = none;
  session_key = none;
  keypair = record { public_key = repeat 32 4; private_key = repeat 32 4 };
  csn_pair = record { ours = record { overflow = 0; sequence = 84215045 }; theirs = none };
  cookie_pair = record { ours = repeat 16 6; theirs = none };
}

abbrev pub connected : InitiatorSignaling toy
connected = record greeted {
  common = record (greeted.common) {
    signaling_state = SignalingState.peer_handshake;
    identity = ClientIdentity.initiator;
    server = record (greeted.common.server) {
      handshake_state = ServerHandshakeState.done;
      csn_pair = record (greeted.common.server.csn_pair) {
        theirs = some (record { overflow = 0; sequence = 6 });
      };
    };
    rng = 6;
  };
  responders = (2, listed) ∷ [];
  responder_counter = 1;
}

pub listing-handled :
    handle_message listing (Signaling.initiator greeted)
    ≡ ok
        (HandleAction.event (Event.server_handshake_done false) ∷ [])
        (Signaling.initiator connected)
unfolding handle_message after_validation process_message server_branch handle_server_message
    dispatch_server_message validate_nonce validate_nonce_destination validate_nonce_source
    validate_nonce_csn validate_nonce_cookie accept_csn accept_cookie decode_server_message
    handle_server_auth check_server_auth finish_server_auth initiator_handle_server_auth
    process_new_responders process_new_responder register_responder Crypto.decrypt
listing-handled = refl

-- A message that the source does not handle yet
abbrev pub dropping : ByteBox
dropping = record {
  bytes = repeat 16 0 ++ (4 ∷ []);
  nonce = record {
    cookie = repeat 16 200;
    source = 0;
    destination = 1;
    csn = record { overflow = 0; sequence = 7 };
  };
}

dropping-panics :
    handle_message dropping (Signaling.initiator connected)
    ≡ panic Panic.drop_responder_unimplemented
unfolding handle_message after_validation process_message server_branch handle_server_message
    dispatch_server_message validate_nonce validate_nonce_destination validate_nonce_source
    validate_nonce_csn validate_nonce_cookie accept_csn accept_cookie decode_server_message
    Crypto.decrypt
dropping-panics = refl

greeted-reached : Reaches (Signaling.initiator first) (Signaling.initiator greeted)
greeted-reached = Reaches.handled hello greeting Reaches.start hello-handled

connected-follows : Reaches (Signaling.initiator greeted) (Signaling.initiator connected)
connected-follows = Reaches.handled listing _ Reaches.start listing-handled

connected-reached : Reaches (Signaling.initiator first) (Signaling.initiator connected)
connected-reached = Reaches.handled listing _ greeted-reached listing-handled

handle_message-is_foreign_example : is_foreign Panic.drop_responder_unimplemented ≡ true
handle_message-is_foreign_example =
    handle_message-is_foreign toy-laws (Signaling.initiator first) first-IsNew
      (Signaling.initiator connected) dropping Panic.drop_responder_unimplemented connected-reached
      dropping-panics

Reaches-rank_example : rank SignalingState.server_handshake ≤ rank SignalingState.peer_handshake
Reaches-rank_example =
    Reaches-rank toy-laws (Signaling.initiator first) first-IsNew (Signaling.initiator greeted)
      (Signaling.initiator connected) greeted-reached connected-follows

Reaches-fits_example : fits Role.initiator ClientIdentity.initiator ≡ true
Reaches-fits_example =
    Reaches-fits toy-laws (Signaling.initiator first) first-IsNew (Signaling.initiator connected)
      connected-reached

Reaches-address_example : (listed.address ≡ 2) × (2 ≤ 2)
unfolding lookup
Reaches-address_example =
    Reaches-address toy-laws (Signaling.initiator first) first-IsNew connected 2 listed
      connected-reached refl

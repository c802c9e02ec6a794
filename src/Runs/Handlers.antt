-- ===== src/Runs/Handlers.antt =====
-- The theorems on the handlers, at the states of the run.
use saltyrtc_client_rs.Prelude.{ℕ, ◌≡◌, ◌≢◌, refl, false, none, some, [], ◌∷◌, ok, List, String}
use saltyrtc_client_rs.External.Examples.{toy, toy_task, repeat}
use saltyrtc_client_rs.External.{PublicKey}
use saltyrtc_client_rs.State.{
  SignalingState, ServerHandshakeState, InitiatorHandshakeState, ResponderHandshakeState,
}
use saltyrtc_client_rs.Messages.{Message, ServerAuth, Auth}
use saltyrtc_client_rs.Deps.{Value, BoxedTask}
use saltyrtc_client_rs.Context.{ResponderContext}
use saltyrtc_client_rs.Tasks.{choose_shared_task}
use saltyrtc_client_rs.Tasks.Choice.{FirstShared, choose_shared_task-first}
use saltyrtc_client_rs.Signaling.{
  HandleAction, Event, Actions, AuthProvider, InitiatorSignaling, ResponderSignaling, Signaling,
}
use saltyrtc_client_rs.Signaling.Handle.Sealed.{handle_message-sealed}
use saltyrtc_client_rs.Signaling.Server.{check_server_auth, finish_server_auth}
use saltyrtc_client_rs.Signaling.Paths.{
  initiator_handle_server_auth, process_new_responders, process_new_responder, register_responder,
  oldest_inactive,
}
use saltyrtc_client_rs.Signaling.Paths.Cleaning.{IsOldest, oldest_inactive-IsOldest}
use saltyrtc_client_rs.Signaling.Handle.{handle_server_auth}
use saltyrtc_client_rs.Signaling.Handle.Outcome.{handle_server_auth-peer_handshake}
use saltyrtc_client_rs.Signaling.Initiator.{handle_token}
use saltyrtc_client_rs.Signaling.Initiator.Tokens.{handle_token-once}
use saltyrtc_client_rs.Signaling.Responder.{
  handle_auth, take_chosen_task, init_chosen_task, start_task,
}
use saltyrtc_client_rs.Signaling.Responder.Outcome.{handle_auth-task}
use saltyrtc_client_rs.Signaling.Validate.{validate_repeated_cookie}
use saltyrtc_client_rs.Types.{is_server}
use saltyrtc_client_rs.Nonce
use saltyrtc_client_rs.Runs.{listing-handled, connected, listed, listing, greeted}
use saltyrtc_client_rs.Runs.Nonces.{assigned}
use saltyrtc_client_rs.Runs.Sending.{other, known_initiator}

abbrev auth_message : ServerAuth
auth_message = record {
  your_cookie = repeat 16 3;
  signed_keys = none;
  responders = some (2 ∷ []);
  initiator_connected = none;
}

auth-handled :
    handle_server_auth auth_message (some listing.nonce) (Signaling.initiator assigned)
    ≡ ok
        (HandleAction.event (Event.server_handshake_done false) ∷ [])
        (Signaling.initiator connected)
unfolding handle_server_auth check_server_auth finish_server_auth initiator_handle_server_auth
    process_new_responders process_new_responder register_responder
auth-handled = refl

handle_server_auth-peer_handshake_example :
    (auth_message.your_cookie ≡ assigned.common.server.cookie_pair.ours)
    × (connected.common.signaling_state ≡ SignalingState.peer_handshake)
    × (connected.common.server.handshake_state ≡ ServerHandshakeState.done)
handle_server_auth-peer_handshake_example =
    handle_server_auth-peer_handshake auth_message (some listing.nonce)
      (Signaling.initiator assigned) (Signaling.initiator connected) _ auth-handled

handle_message-sealed_example :
    (key : PublicKey) × (plain : List ℕ) × (message : Message (Value toy))
    × (greeted.common.server.session_key ≡ some key)
    × (toy.sodium.box_open listing.bytes
          (Nonce.into_bytes toy.byte_order listing.nonce)
          key
          greeted.common.permanent_keypair.private_key
        ≡ some plain)
    × (toy.msgpack.from_msgpack plain ≡ some message)
unfolding is_server
handle_message-sealed_example =
    handle_message-sealed listing (Signaling.initiator greeted) (Signaling.initiator connected)
      (HandleAction.event (Event.server_handshake_done false) ∷ []) refl refl listing-handled

abbrev trusted : InitiatorSignaling toy
trusted = record connected {
  common = record (connected.common) { auth_provider = none };
  responders =
      (
        2,
        record listed {
          permanent_key = some (repeat 32 5);
          handshake_state = ResponderHandshakeState.token_received;
        },
      )
      ∷ [];
}

token-handled : handle_token (record { key = repeat 32 5 }) 2 connected ≡ ok [] trusted
unfolding handle_token
token-handled = refl

handle_token-once_example : handle_token (record { key = repeat 32 5 }) 2 trusted ≢ ok [] trusted
handle_token-once_example =
    handle_token-once (record { key = repeat 32 5 }) (record { key = repeat 32 5 }) 2 2 connected
      trusted trusted [] [] token-handled

-- A responder that waits for the choice of the task
abbrev pub waiting : ResponderSignaling toy
waiting = record other {
  common = record (other.common) {
    signaling_state = SignalingState.peer_handshake;
    auth_provider = some (AuthProvider.token (repeat 32 1));
    tasks = some ("chat" ∷ []);
    task = none;
    task_supported_types = none;
  };
  initiator = record known_initiator { handshake_state = InitiatorHandshakeState.auth_sent };
}

abbrev pub settled : ResponderSignaling toy
settled = record waiting {
  common = record (waiting.common) {
    signaling_state = SignalingState.task;
    tasks = none;
    task = some "chat";
    task_supported_types = some ("chat" ∷ []);
  };
  initiator = known_initiator;
}

abbrev choice : Auth (Value toy)
choice = record {
  your_cookie = repeat 16 11;
  tasks = none;
  task = some "chat";
  entries = ("chat", none) ∷ [];
}

choice-handled : handle_auth choice waiting ≡ ok (HandleAction.handshake_done ∷ []) settled
unfolding handle_auth take_chosen_task init_chosen_task start_task validate_repeated_cookie
choice-handled = refl

abbrev reported : Actions toy
reported = HandleAction.handshake_done ∷ []

handle_auth-task_example :
    (reported ≡ HandleAction.handshake_done ∷ [])
    × (settled.common.signaling_state ≡ SignalingState.task)
    × (settled.common.tasks ≡ none)
    × ((task : BoxedTask toy) × (settled.common.task ≡ some task)
        × (settled.common.task_supported_types ≡ some (toy.task.supported_types task)))
    × (waiting.common.signaling_state ≢ SignalingState.server_handshake)
    × (choice.your_cookie ≡ waiting.initiator.cookie_pair.ours)
handle_auth-task_example = handle_auth-task choice waiting settled _ choice-handled

abbrev started : ResponderSignaling toy
started = record waiting {
  common = record (waiting.common) { auth_provider = none };
  initiator = record (waiting.initiator) {
    csn_pair = record { ours = record { overflow = 0; sequence = 19 }; theirs = none };
  };
}

-- Two responders that have not begun, of which the second came first
abbrev table : List ResponderContext
table = record listed { counter = 4; address = 7 } ∷ record listed { counter = 3; address = 9 } ∷ []

nine-oldest : oldest_inactive table ≡ some 9
unfolding oldest_inactive
nine-oldest = refl

oldest_inactive-IsOldest_example : IsOldest 9 table
oldest_inactive-IsOldest_example = oldest_inactive-IsOldest table 9 nine-oldest

abbrev our_tasks : List String
our_tasks = "files" ∷ "chat" ∷ []

chat-chosen : choose_shared_task toy_task our_tasks ("video" ∷ "chat" ∷ []) ≡ some "chat"
unfolding choose_shared_task
chat-chosen = refl

choose_shared_task-first_example : FirstShared toy_task our_tasks ("video" ∷ "chat" ∷ []) "chat"
choose_shared_task-first_example =
    choose_shared_task-first toy_task our_tasks ("video" ∷ "chat" ∷ []) "chat" chat-chosen

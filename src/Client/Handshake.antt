-- ===== src/Client/Handshake.antt =====
-- `do_handshake` of src/lib.rs: the loop that runs a client on its socket until the handshake with
-- the peer is done. The timer, which may drop the loop between two turns, is not modelled.
pub mod Answer
pub mod Keeps
pub mod Outcome
use saltyrtc_client_rs.Prelude.{
  Bool, true, false, Option, none, some, List, [], ◌∷◌, ◌++◌, if◌then◌else◌, nat_has_eq,
  string_has_eq, bytes_has_eq, M, pure, throw, or_throw, map_err, ok, err, panic, ◌>>=◌, ◌>>◌,
}
use saltyrtc_client_rs.Errors.{SaltyError, to_salty_error}
use saltyrtc_client_rs.Deps.{Deps, Value}
use saltyrtc_client_rs.Boxes.{into_bytes}
use saltyrtc_client_rs.Signaling.{HandleAction, Event, Actions}
use saltyrtc_client_rs.Signaling.Handle.{handle_message}
use saltyrtc_client_rs.Client.WebSocket.{
  OwnedMessage, Session, Incoming, Turn, Loop, PipelineAction, in_salty, send_messages, send_event,
  decode_ws_message, preprocess_ws_message,
}

-- The three variables that the loop over the actions writes
pub record Collected : Type 0 where
  pub messages : List OwnedMessage
  pub handshake_done : Bool
  pub late_error : Option SaltyError

abbrev pub nothing_collected : Collected
nothing_collected = record { messages = []; handshake_done = false; late_error = none }

-- A second error is dropped.
abbrev pub first_error : Option SaltyError → SaltyError → Option SaltyError
first_error none e = some e
first_error (some earlier) e = some earlier

-- The macro `loop_action!`
unfoldable pub loop_action : Collected → Loop
loop_action c = if c.handshake_done then Loop.break else Loop.continue

module _ {dep : Deps} where
  -- The loop over the actions that `handle_message` gave
  unfoldable pub collect_actions :
      Turn → Actions dep → Collected → M (Session dep) SaltyError Collected
  unfolding into_bytes send_event
  collect_actions turn [] c = pure c
  collect_actions turn (HandleAction.reply bbox ∷ more) c = collect_actions turn more (record c {
    messages = c.messages ++ (OwnedMessage.binary (into_bytes dep.byte_order bbox) ∷ []);
  })
  collect_actions turn (HandleAction.handshake_done ∷ more) c = do
    send_event turn Event.peer_handshake_done
    collect_actions turn more (record c { handshake_done = true })
  collect_actions turn (HandleAction.task_message _ ∷ more) c = throw SaltyError.crash
  collect_actions turn (HandleAction.event e ∷ more) c = do
    send_event turn e
    collect_actions turn more c
  collect_actions turn (HandleAction.handshake_error e ∷ more) c =
      collect_actions turn more (record c { late_error = first_error c.late_error e })

  -- The rest of the turn, once the actions are collected
  unfoldable pub send_collected : Turn → Collected → M (Session dep) SaltyError Loop
  unfolding loop_action send_messages
  send_collected turn c = elim c.messages [
    | [] ↦ pure (loop_action c)
    | m ∷ ms ↦ (do
      send_messages turn (m ∷ ms)
      elim c.late_error [ some e ↦ throw e | none ↦ pure (loop_action c) ])
  ]

  -- The last step of a turn
  unfoldable pub process_action : Turn → PipelineAction dep → M (Session dep) SaltyError Loop
  unfolding to_salty_error
  process_action turn (PipelineAction.future f) = f
  process_action turn (PipelineAction.byte_box bbox) = do
    handle_actions ← in_salty (map_err to_salty_error (handle_message bbox))
    c ← collect_actions turn handle_actions nothing_collected
    send_collected turn c

  -- One turn of the loop
  unfoldable pub handshake_turn : Turn → M (Session dep) SaltyError Loop
  unfolding decode_ws_message preprocess_ws_message
  handshake_turn turn = elim turn.incoming [
    | Incoming.receive_error ↦ throw SaltyError.network
    | Incoming.ended ↦ throw SaltyError.network
    | Incoming.message msg ↦ (do
      decoded ← or_throw (decode_ws_message dep.byte_order msg) SaltyError.protocol
      process_action turn (preprocess_ws_message turn decoded))
  ]

  -- The loop, for the turns so far: `continue` says that it waits for more.
  unfoldable pub do_handshake : List Turn → M (Session dep) SaltyError Loop
  do_handshake [] = pure Loop.continue
  do_handshake (turn ∷ turns) = do
    action ← handshake_turn turn
    elim action [ Loop.break ↦ pure Loop.break | Loop.continue ↦ do_handshake turns ]

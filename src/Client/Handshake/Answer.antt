-- ===== src/Client/Handshake/Answer.antt =====
-- How `do_handshake` treats the actions of a message.
use saltyrtc_client_rs.Prelude.{
  ◌≡◌, refl, Bool, true, false, ◌||◌, if◌then◌else◌, Option, none, some, List, [], ◌∷◌, ◌++◌, ok,
  err, Step, arith,
}
use mathlib.Core.List.{append_assoc, append-nil}
use saltyrtc_client_rs.Errors.{SaltyError}
use saltyrtc_client_rs.Deps.{Deps}
use saltyrtc_client_rs.Boxes.{ByteBox, into_bytes}
use saltyrtc_client_rs.External.{ByteOrder}
use saltyrtc_client_rs.Signaling.{HandleAction, Event, Actions, common}
use saltyrtc_client_rs.Signaling.Handle.{handle_message}
use saltyrtc_client_rs.Signaling.Replies.{settles, allowed-settles, finishes, in_task}
use saltyrtc_client_rs.Signaling.Replies.Phases.{handle_message-allowed}
use saltyrtc_client_rs.Client.{SaltyClient}
use saltyrtc_client_rs.Client.WebSocket.{
  OwnedMessage, Session, Turn, Loop, PipelineAction, send_messages, send_event,
}
use saltyrtc_client_rs.Client.Handshake.{
  Collected, nothing_collected, first_error, collect_actions, send_collected, process_action,
}

-- What the actions of a message ask for: the messages to send, the events, whether the handshake is
-- done, and the first error.
unfoldable pub replies_of : {V : Type 0} → ByteOrder → List (HandleAction V) → List OwnedMessage
replies_of bo [] = []
replies_of bo (HandleAction.reply bbox ∷ xs) =
    OwnedMessage.binary (into_bytes bo bbox) ∷ replies_of bo xs
replies_of bo (_ ∷ xs) = replies_of bo xs

unfoldable pub events_of : {V : Type 0} → List (HandleAction V) → List Event
events_of [] = []
events_of (HandleAction.handshake_done ∷ xs) = Event.peer_handshake_done ∷ events_of xs
events_of (HandleAction.event e ∷ xs) = e ∷ events_of xs
events_of (_ ∷ xs) = events_of xs

unfoldable pub error_of :
    {V : Type 0} → Option SaltyError → List (HandleAction V) → Option SaltyError
error_of e [] = e
error_of e (HandleAction.handshake_error x ∷ xs) = error_of (first_error e x) xs
error_of e (_ ∷ xs) = error_of e xs

abbrev collected : {V : Type 0} → ByteOrder → List (HandleAction V) → Collected → Collected
collected bo xs c = record {
  messages = c.messages ++ replies_of bo xs;
  handshake_done = c.handshake_done || finishes xs;
  late_error = error_of c.late_error xs;
}

module _ {dep : Deps} where
  abbrev with_events : List Event → Session dep → Session dep
  with_events es s = record s { events = s.events ++ es }

  collect_actions-settles :
      (turn : Turn) (b : Bool) (xs : Actions dep) (c : Collected) (s : Session dep)
      → turn.has_receiver ≡ true
      → settles b xs ≡ true
      → collect_actions turn xs c s
        ≡ ok (collected dep.byte_order xs c) (with_events (events_of xs) s)
  unfolding collect_actions send_event settles replies_of events_of finishes error_of
  collect_actions-settles turn b [] c s r h =
      ground (arith, append-nil c.messages, append-nil s.events)
  collect_actions-settles turn b (HandleAction.reply bbox ∷ xs) c s r h = ground (
    arith,
    append_assoc c.messages (OwnedMessage.binary (into_bytes dep.byte_order bbox) ∷ [])
        (replies_of dep.byte_order xs),
    collect_actions-settles turn b xs
        (record c {
          messages = c.messages ++ (OwnedMessage.binary (into_bytes dep.byte_order bbox) ∷ []);
        })
        s r h,
  )
  collect_actions-settles turn b (HandleAction.handshake_error x ∷ xs) c s r h =
      collect_actions-settles turn b xs (record c { late_error = first_error c.late_error x }) s r h
  collect_actions-settles turn b (HandleAction.handshake_done ∷ xs) c s r h = ground (
    arith,
    append_assoc s.events (Event.peer_handshake_done ∷ []) (events_of xs),
    collect_actions-settles turn b xs (record c { handshake_done = true })
        (with_events (Event.peer_handshake_done ∷ []) s) r (ground (arith, h)),
  )
  collect_actions-settles turn b (HandleAction.event e ∷ xs) c s r h = ground (
    arith,
    append_assoc s.events (e ∷ []) (events_of xs),
    collect_actions-settles turn b xs c (with_events (e ∷ []) s) r h,
  )
  collect_actions-settles turn b (HandleAction.task_message m ∷ xs) c s r h =
      absurd (ground (arith, h))

  -- What is left of a turn whose messages are all written
  unfoldable pub answer :
      List OwnedMessage
      → Option SaltyError
      → Bool
      → Session dep
      → Step (Session dep) SaltyError Loop
  answer [] e done s = ok (if done then Loop.break else Loop.continue) s
  answer (m ∷ ms) none done s =
      ok (if done then Loop.break else Loop.continue) (record s { sent = s.sent ++ (m ∷ ms) })
  answer (m ∷ ms) (some e) done s = err e (record s { sent = s.sent ++ (m ∷ ms) })

  send_collected-answer :
      (turn : Turn) (messages : List OwnedMessage) (done : Bool) (late : Option SaltyError)
      (s : Session dep)
      → turn.write_fails ≡ none
      → send_collected turn
          (record { messages = messages; handshake_done = done; late_error = late })
          s
        ≡ answer messages late done s
  unfolding send_collected answer send_messages
  send_collected-answer turn [] done late s w = refl
  send_collected-answer turn (m ∷ ms) done none s w = ground (arith, w)
  send_collected-answer turn (m ∷ ms) done (some e) s w = ground (arith, w)

  -- Before the task state, a message that `handle_message` takes is answered by the replies among its
  -- actions, in their order, and the events go to the user, in theirs. Then the loop ends if the
  -- handshake is done, or fails with the first error, which is dropped if there are no replies. The
  -- user has to receive the events, and the socket to take what is written.
  pub process_action-answer :
      (turn : Turn) (bbox : ByteBox) (s : Session dep) (c : SaltyClient dep) (xs : Actions dep)
      → turn.has_receiver ≡ true
      → turn.write_fails ≡ none
      → in_task (common s.salty).signaling_state ≡ false
      → handle_message bbox s.salty ≡ ok xs c
      → process_action turn (PipelineAction.byte_box bbox) s
        ≡ answer
            (replies_of dep.byte_order xs)
            (error_of none xs)
            (finishes xs)
            (record s { salty = c; events = s.events ++ events_of xs })
  unfolding process_action
  process_action-answer turn bbox s c xs r w before e =
      let after = in_task (common c).signaling_state in
      let all = allowed-settles _ xs after (handle_message-allowed bbox s.salty c xs e) before in
      let kept =
        collect_actions-settles turn after xs nothing_collected (record s { salty = c }) r all in
      let rest =
        send_collected-answer turn (replies_of dep.byte_order xs) (finishes xs) (error_of none xs)
          (record s { salty = c; events = s.events ++ events_of xs }) w in
      ground (arith, e, kept, rest)

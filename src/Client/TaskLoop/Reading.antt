-- ===== src/Client/TaskLoop/Reading.antt =====
-- What the reader of `task_loop` does with the actions of a message.
use saltyrtc_client_rs.Prelude.{
  ◌≡◌, Bool, true, false, ◌||◌, if◌then◌else◌, List, [], ◌∷◌, ◌++◌, ok, arith,
}
use mathlib.Core.List.{append_assoc, append-nil}
use saltyrtc_client_rs.Deps.{Deps, Value}
use saltyrtc_client_rs.Tasks.{TaskMessage}
use saltyrtc_client_rs.Boxes.{ByteBox, into_bytes}
use saltyrtc_client_rs.Signaling.{HandleAction, Actions, common}
use saltyrtc_client_rs.Signaling.Handle.{handle_message}
use saltyrtc_client_rs.Signaling.Replies.{carries_on, in_task, allowed-carries_on}
use saltyrtc_client_rs.Signaling.Replies.Phases.{handle_message-allowed}
use saltyrtc_client_rs.Client.{SaltyClient}
use saltyrtc_client_rs.Client.WebSocket.{OwnedMessage, WsMessageDecoded}
use saltyrtc_client_rs.Client.Handshake.Answer.{replies_of, events_of}
use saltyrtc_client_rs.Client.TaskLoop.{
  TaskSession, Receivers, Sorted, Next, is_close, nothing_sorted, sort_actions, deliver_sorted,
  handle_decoded,
}

-- The task messages among the actions, and whether one of them closes the connection
unfoldable pub messages_of : {V : Type 0} → List (HandleAction V) → List (TaskMessage V)
messages_of [] = []
messages_of (HandleAction.task_message m ∷ xs) = m ∷ messages_of xs
messages_of (_ ∷ xs) = messages_of xs

unfoldable pub has_close : {V : Type 0} → List (TaskMessage V) → Bool
has_close [] = false
has_close (m ∷ ms) = is_close m || has_close ms

-- Every channel has its receiver.
abbrev pub all_held : Receivers
all_held = record { raw_outgoing = true; incoming = true; events = true }

module _ {dep : Deps} where
  sort_actions-carries_on :
      (xs : Actions dep) (c : Sorted (Value dep)) (s : TaskSession dep)
      → carries_on xs ≡ true
      → sort_actions all_held xs c s
        ≡ ok
            (record {
              out_messages = c.out_messages ++ replies_of dep.byte_order xs;
              in_messages = c.in_messages ++ messages_of xs;
              close_stream = c.close_stream || has_close (messages_of xs);
            })
            (record s { events = s.events ++ events_of xs })
  unfolding sort_actions carries_on replies_of messages_of events_of has_close
  sort_actions-carries_on [] c s h =
      ground (arith, append-nil c.out_messages, append-nil c.in_messages, append-nil s.events)
  sort_actions-carries_on (HandleAction.reply bbox ∷ xs) c s h =
      let m = OwnedMessage.binary (into_bytes dep.byte_order bbox) in
      ground (
        arith,
        append_assoc c.out_messages (m ∷ []) (replies_of dep.byte_order xs),
        sort_actions-carries_on xs (record c { out_messages = c.out_messages ++ (m ∷ []) }) s h,
      )
  sort_actions-carries_on (HandleAction.task_message m ∷ xs) c s h = ground (
    arith,
    append_assoc c.in_messages (m ∷ []) (messages_of xs),
    sort_actions-carries_on xs
        (record c {
          close_stream = if is_close m then true else c.close_stream;
          in_messages = c.in_messages ++ (m ∷ []);
        })
        s h,
  )
  sort_actions-carries_on (HandleAction.event e ∷ xs) c s h = ground (
    arith,
    append_assoc s.events (e ∷ []) (events_of xs),
    sort_actions-carries_on xs c (record s { events = s.events ++ (e ∷ []) }) h,
  )
  sort_actions-carries_on (HandleAction.handshake_done ∷ xs) c s h = absurd (ground (arith, h))
  sort_actions-carries_on (HandleAction.handshake_error e ∷ xs) c s h = absurd (ground (arith, h))

  deliver_sorted-lem :
      (out : List OwnedMessage) (ins : List (TaskMessage (Value dep))) (close : Bool)
      (s : TaskSession dep)
      → deliver_sorted all_held
          (record { out_messages = out; in_messages = ins; close_stream = close })
          s
        ≡ ok
            (if close then Next.stop else Next.next)
            (record s { raw_outgoing = s.raw_outgoing ++ out; incoming = s.incoming ++ ins })
  unfolding deliver_sorted
  deliver_sorted-lem [] [] close s =
      ground (arith, append-nil s.raw_outgoing, append-nil s.incoming)
  deliver_sorted-lem [] (i ∷ ins) close s = ground (arith, append-nil s.raw_outgoing)
  deliver_sorted-lem (o ∷ out) [] close s = ground (arith, append-nil s.incoming)
  deliver_sorted-lem (o ∷ out) (i ∷ ins) close s = ground arith

  -- In the task state, with every channel open, a message that `handle_message` takes never ends the
  -- reader with an error: the replies among its actions are enqueued for the socket, its task
  -- messages for the task and its events for the user, each in their order, and the reader stops
  -- just if one of the task messages closes the connection.
  pub handle_decoded-delivers :
      (bbox : ByteBox) (s : TaskSession dep) (c : SaltyClient dep) (xs : Actions dep)
      → in_task (common s.salty).signaling_state ≡ true
      → handle_message bbox s.salty ≡ ok xs c
      → handle_decoded all_held (WsMessageDecoded.byte_box bbox) s
        ≡ ok (if has_close (messages_of xs) then Next.stop else Next.next) (record {
          salty = c;
          raw_outgoing = s.raw_outgoing ++ replies_of dep.byte_order xs;
          incoming = s.incoming ++ messages_of xs;
          events = s.events ++ events_of xs;
        })
  unfolding handle_decoded
  handle_decoded-delivers bbox s c xs now e =
      let after = in_task (common c).signaling_state in
      let all = allowed-carries_on _ xs after (handle_message-allowed bbox s.salty c xs e) now in
      ground (
        arith,
        e,
        sort_actions-carries_on xs nothing_sorted (record s { salty = c }) all,
        deliver_sorted-lem (replies_of dep.byte_order xs) (messages_of xs)
            (has_close (messages_of xs))
            (record s { salty = c; events = s.events ++ events_of xs }),
      )

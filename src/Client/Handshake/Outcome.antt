-- ===== src/Client/Handshake/Outcome.antt =====
-- When the loop of `do_handshake` ends.
use saltyrtc_client_rs.Prelude.{
  ◌≡◌, Bool, true, false, ◌||◌, Option, List, [], ◌∷◌, ok, arith, ◌∙◌, ap, any, M, ℕ, Option-cases,
  inl, inr, pure, map_err, ◌>>=◌,
}
use saltyrtc_client_rs.Prelude.Outcome.{continue-ok}
use saltyrtc_client_rs.Errors.{SaltyError, to_salty_error}
use saltyrtc_client_rs.Deps.{Deps}
use saltyrtc_client_rs.Boxes.{ByteBox, from_slice}
use saltyrtc_client_rs.Signaling.{HandleAction, Event, Actions, common}
use saltyrtc_client_rs.Signaling.Handle.{handle_message}
use saltyrtc_client_rs.Signaling.Replies.{allowed-done, finishes, in_task}
use saltyrtc_client_rs.Signaling.Replies.Phases.{handle_message-allowed}
use saltyrtc_client_rs.Client.WebSocket.{
  OwnedMessage, Session, Incoming, Turn, Loop, PipelineAction, in_salty, send_messages, send_event,
  decode_ws_message, preprocess_ws_message,
}
use saltyrtc_client_rs.Client.Handshake.{
  Collected, nothing_collected, loop_action, collect_actions, send_collected, process_action,
  handshake_turn, do_handshake,
}

-- A close message of the server
abbrev pub closes : Incoming → Bool
closes (Incoming.message (OwnedMessage.close _)) = true
closes (Incoming.message (OwnedMessage.text _)) = false
closes (Incoming.message (OwnedMessage.binary _)) = false
closes (Incoming.message (OwnedMessage.ping _)) = false
closes (Incoming.message (OwnedMessage.pong _)) = false
closes Incoming.receive_error = false
closes Incoming.ended = false

module _ {dep : Deps} where
  event-salty :
      (turn : Turn) (e : Event) (s t : Session dep)
      → send_event turn e s ≡ ok tt t
      → t.salty ≡ s.salty
  unfolding send_event
  event-salty turn x s t e = ground (arith, e)

  -- What the loop over the actions leaves, if it ends: the client as it is, and whether the
  -- handshake is done.
  collect_actions-done :
      (turn : Turn) (xs : Actions dep) (c d : Collected) (s t : Session dep)
      → collect_actions turn xs c s ≡ ok d t
      → (d.handshake_done ≡ (c.handshake_done || finishes xs)) × (t.salty ≡ s.salty)
  unfolding collect_actions send_event finishes
  collect_actions-done turn [] c d s t e = (ground (arith, e), ground (arith, e))
  collect_actions-done turn (HandleAction.reply bbox ∷ xs) c d s t e =
      collect_actions-done turn xs _ d s t e
  collect_actions-done turn (HandleAction.handshake_error x ∷ xs) c d s t e =
      collect_actions-done turn xs _ d s t e
  collect_actions-done turn (HandleAction.task_message m ∷ xs) c d s t e =
      absurd (ground (arith, e))
  collect_actions-done turn (HandleAction.event x ∷ xs) c d s t e =
      let (_, u, eu, e') =
        continue-ok (λ _. collect_actions turn xs c) (send_event turn x s) d t e in
      let (done, same) = collect_actions-done turn xs c d u t e' in
      (done, same ∙ event-salty turn x s u eu)
  collect_actions-done turn (HandleAction.handshake_done ∷ xs) c d s t e =
      let (_, u, eu, e') =
        continue-ok (λ _. collect_actions turn xs (record c { handshake_done = true }))
          (send_event turn Event.peer_handshake_done s) d t e in
      let (done, same) =
        collect_actions-done turn xs (record c { handshake_done = true }) d u t e' in
      (ground (arith, done), same ∙ event-salty turn Event.peer_handshake_done s u eu)

  send_collected-done :
      (turn : Turn) (c : Collected) (s t : Session dep)
      → send_collected turn c s ≡ ok Loop.break t
      → (c.handshake_done ≡ true) × (t.salty ≡ s.salty)
  unfolding send_collected loop_action send_messages
  send_collected-done turn c s t e = (ground (arith, e), ground (arith, e))

  -- The client after a message that ends the loop
  box-in_task :
      (turn : Turn) (bbox : ByteBox) (s t : Session dep)
      → process_action turn (PipelineAction.byte_box bbox) s ≡ ok Loop.break t
      → in_task (common t.salty).signaling_state ≡ true
  unfolding process_action
  box-in_task turn bbox s t e =
      let (xs, u, eu, e1) =
        continue-ok (λ xs. collect_actions turn xs nothing_collected >>= λ c. send_collected turn c)
          (in_salty (map_err to_salty_error (handle_message bbox)) s) Loop.break t e in
      let (c, v, ev, e2) =
        continue-ok (send_collected turn) (collect_actions turn xs nothing_collected u) Loop.break t
          e1 in
      let (done, same) = collect_actions-done turn xs nothing_collected c u v ev in
      let (now, same') = send_collected-done turn c v t e2 in
      let h = handle_message-allowed bbox s.salty u.salty xs (taken s u xs eu) in
      let k =
        allowed-done _ xs (in_task (common u.salty).signaling_state) h
          (ground (arith, done, now)) in
      ap (λ x. in_task (common x).signaling_state) (same' ∙ same) ∙ k
    where
      taken :
          (s u : Session dep) (xs : Actions dep)
          → in_salty (map_err to_salty_error (handle_message bbox)) s ≡ ok xs u
          → handle_message bbox s.salty ≡ ok xs u.salty
      taken s u xs e = ground (arith, e)

  turn-in_task :
      (incoming : Incoming) (w : Option ℕ) (r : Bool) (s t : Session dep)
      → closes incoming ≡ false
      → handshake_turn (record { incoming = incoming; write_fails = w; has_receiver = r }) s
        ≡ ok Loop.break t
      → in_task (common t.salty).signaling_state ≡ true
  unfolding handshake_turn decode_ws_message preprocess_ws_message process_action send_messages
  turn-in_task Incoming.receive_error w r s t o e = absurd (ground (arith, e))
  turn-in_task Incoming.ended w r s t o e = absurd (ground (arith, e))
  turn-in_task (Incoming.message (OwnedMessage.close _)) w r s t o e = absurd (ground (arith, o))
  turn-in_task (Incoming.message (OwnedMessage.text _)) w r s t o e = absurd (ground (arith, e))
  turn-in_task (Incoming.message (OwnedMessage.ping _)) w r s t o e = absurd (ground (arith, e))
  turn-in_task (Incoming.message (OwnedMessage.pong _)) w r s t o e = absurd (ground (arith, e))
  turn-in_task (Incoming.message (OwnedMessage.binary bytes)) w r s t o e =
      elim (Option-cases (from_slice dep.byte_order bytes)) [
        | inl bad ↦ absurd (ground (arith, bad, e))
        | inr (bbox, good) ↦
            box-in_task
              (record {
                incoming = Incoming.message (OwnedMessage.binary bytes);
                write_fails = w;
                has_receiver = r;
              })
              bbox s t (ground (arith, good, e))
      ]

  -- What follows a turn
  abbrev go_on : List Turn → Loop → M (Session dep) SaltyError Loop
  go_on turns Loop.break = pure Loop.break
  go_on turns Loop.continue = do_handshake turns

  -- If the future of `do_handshake` completes, and the server has not closed the connection, then the
  -- signaling is in the task state: whatever the turns bring, the handshake with the peer is done.
  pub do_handshake-in_task :
      (turns : List Turn) (s t : Session dep)
      → any (λ turn. closes turn.incoming) turns ≡ false
      → do_handshake turns s ≡ ok Loop.break t
      → in_task (common t.salty).signaling_state ≡ true
  unfolding do_handshake any
  do_handshake-in_task [] s t o e = absurd (ground (arith, e))
  do_handshake-in_task (turn ∷ turns) s t o e =
      let (action, u, eu, e1) =
        continue-ok
          (λ action. elim action [
            | Loop.break ↦ pure Loop.break
            | Loop.continue ↦ do_handshake turns
          ])
          (handshake_turn turn s) Loop.break t e in
      next action u eu e1 (λ u e1. do_handshake-in_task turns u t (ground (arith, o)) e1)
    where
      next :
          (action : Loop) (u : Session dep)
          → handshake_turn turn s ≡ ok action u
          → go_on turns action u ≡ ok Loop.break t
          → ((v : Session dep)
              → do_handshake turns v ≡ ok Loop.break t
              → in_task (common t.salty).signaling_state ≡ true)
          → in_task (common t.salty).signaling_state ≡ true
      next Loop.break u eu e1 later =
          turn-in_task turn.incoming turn.write_fails turn.has_receiver s t (ground (arith, o))
            (ground (arith, eu, e1))
      next Loop.continue u eu e1 later = later u e1

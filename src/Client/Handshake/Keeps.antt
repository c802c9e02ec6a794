-- ===== src/Client/Handshake/Keeps.antt =====
-- `do_handshake` keeps the signaling well-formed.
use saltyrtc_client_rs.Prelude.{
  ℕ, ◌≡◌, Bool, true, Option, List, [], ◌∷◌, M, arith, map_err, pure, ◌>>=◌,
}
use saltyrtc_client_rs.Prelude.Outcome.{holds, keeps, keeps-continue, keeps-or_throw}
use saltyrtc_client_rs.Errors.{SaltyError, to_salty_error}
use saltyrtc_client_rs.Deps.{Deps, IterOrderLaws}
use saltyrtc_client_rs.Boxes.{ByteBox}
use saltyrtc_client_rs.Signaling.{HandleAction, Event, Actions}
use saltyrtc_client_rs.Signaling.Handle.{handle_message}
use saltyrtc_client_rs.Signaling.Invariant.{is_valid}
use saltyrtc_client_rs.Signaling.Invariant.Handle.{handle_message-is_valid}
use saltyrtc_client_rs.Client.WebSocket.{
  WsMessageDecoded, Session, Incoming, Turn, Loop, in_salty, send_messages, send_event,
  decode_ws_message, preprocess_ws_message,
}
use saltyrtc_client_rs.Client.Handshake.{
  Collected, nothing_collected, collect_actions, send_collected, process_action, handshake_turn,
  do_handshake,
}

module _ {dep : Deps} (laws : IterOrderLaws dep) where
  -- The signaling of a client on its socket is well-formed.
  abbrev pub in_handshake : Session dep → Bool
  in_handshake s = is_valid 0 s.salty

  in_salty-keeps :
      (bbox : ByteBox) (s : Session dep)
      → in_handshake s ≡ true
      → keeps in_handshake (in_salty (map_err to_salty_error (handle_message bbox)) s) ≡ true
  unfolding holds
  in_salty-keeps bbox s h = ground (arith, handle_message-is_valid 0 laws bbox s.salty h)

  send_event-keeps :
      (turn : Turn) (e : Event) (s : Session dep)
      → in_handshake s ≡ true
      → keeps in_handshake (send_event turn e s) ≡ true
  unfolding send_event holds
  send_event-keeps turn e s h = ground (arith, h)

  collect_actions-keeps :
      (turn : Turn) (xs : Actions dep) (c : Collected) (s : Session dep)
      → in_handshake s ≡ true
      → keeps in_handshake (collect_actions turn xs c s) ≡ true
  unfolding collect_actions holds
  collect_actions-keeps turn [] c s h = h
  collect_actions-keeps turn (HandleAction.reply bbox ∷ xs) c s h =
      collect_actions-keeps turn xs _ s h
  collect_actions-keeps turn (HandleAction.handshake_done ∷ xs) c s h =
      keeps-continue in_handshake
        (λ _. collect_actions turn xs (record c { handshake_done = true }))
        (send_event turn Event.peer_handshake_done s)
        (send_event-keeps turn Event.peer_handshake_done s h)
        (λ _ t k. collect_actions-keeps turn xs (record c { handshake_done = true }) t k)
  collect_actions-keeps turn (HandleAction.task_message m ∷ xs) c s h = h
  collect_actions-keeps turn (HandleAction.event e ∷ xs) c s h =
      keeps-continue in_handshake (λ _. collect_actions turn xs c) (send_event turn e s)
        (send_event-keeps turn e s h) (λ _ t k. collect_actions-keeps turn xs c t k)
  collect_actions-keeps turn (HandleAction.handshake_error e ∷ xs) c s h =
      collect_actions-keeps turn xs _ s h

  send_collected-keeps :
      (turn : Turn) (c : Collected) (s : Session dep)
      → in_handshake s ≡ true
      → keeps in_handshake (send_collected turn c s) ≡ true
  unfolding send_collected send_messages holds
  send_collected-keeps turn c s h = ground (arith, h)

  process_action-keeps :
      (turn : Turn) (decoded : WsMessageDecoded) (s : Session dep)
      → in_handshake s ≡ true
      → keeps in_handshake (process_action turn (preprocess_ws_message turn decoded) s) ≡ true
  unfolding process_action preprocess_ws_message send_messages holds
  process_action-keeps turn (WsMessageDecoded.byte_box bbox) s h =
      keeps-continue in_handshake
        (λ xs. collect_actions turn xs nothing_collected >>= λ c. send_collected turn c)
        (in_salty (map_err to_salty_error (handle_message bbox)) s) (in_salty-keeps bbox s h)
        (λ xs t k.
          keeps-continue in_handshake (send_collected turn)
            (collect_actions turn xs nothing_collected t)
            (collect_actions-keeps turn xs nothing_collected t k)
            (λ c u l. send_collected-keeps turn c u l))
  process_action-keeps turn (WsMessageDecoded.ping payload) s h = ground (arith, h)
  process_action-keeps turn (WsMessageDecoded.close code) s h = h
  process_action-keeps turn WsMessageDecoded.ignore s h = h

  handshake_turn-keeps :
      (incoming : Incoming) (w : Option ℕ) (r : Bool) (s : Session dep)
      → in_handshake s ≡ true
      → keeps in_handshake
          (handshake_turn (record { incoming = incoming; write_fails = w; has_receiver = r }) s)
        ≡ true
  unfolding handshake_turn holds
  handshake_turn-keeps Incoming.receive_error w r s h = h
  handshake_turn-keeps Incoming.ended w r s h = h
  handshake_turn-keeps (Incoming.message msg) w r s h =
      let turn : Turn = record {
        incoming = Incoming.message msg;
        write_fails = w;
        has_receiver = r;
      } in
      keeps-or_throw in_handshake
        (λ decoded. process_action turn (preprocess_ws_message turn decoded))
        (decode_ws_message dep.byte_order msg) SaltyError.protocol s h
        (λ decoded _. process_action-keeps turn decoded s h)

  abbrev after_turn : List Turn → Loop → M (Session dep) SaltyError Loop
  after_turn turns Loop.break = pure Loop.break
  after_turn turns Loop.continue = do_handshake turns

  after_turn-keeps :
      (turns : List Turn) (action : Loop) (t : Session dep)
      → ((u : Session dep)
          → in_handshake u ≡ true
          → keeps in_handshake (do_handshake turns u) ≡ true)
      → in_handshake t ≡ true
      → keeps in_handshake (after_turn turns action t) ≡ true
  unfolding holds
  after_turn-keeps turns Loop.break t later h = h
  after_turn-keeps turns Loop.continue t later h = later t h

  pub do_handshake-keeps :
      (turns : List Turn) (s : Session dep)
      → in_handshake s ≡ true
      → keeps in_handshake (do_handshake turns s) ≡ true
  unfolding do_handshake holds
  do_handshake-keeps [] s h = h
  do_handshake-keeps (turn ∷ turns) s h =
      keeps-continue in_handshake (after_turn turns) (handshake_turn turn s)
        (handshake_turn-keeps turn.incoming turn.write_fails turn.has_receiver s h)
        (λ action t k. after_turn-keeps turns action t (do_handshake-keeps turns) k)

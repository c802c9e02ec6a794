-- ===== src/Client/TaskLoop/Keeps.antt =====
-- The reader of `task_loop` keeps the signaling well-formed.
use saltyrtc_client_rs.Prelude.{
  ◌≡◌, Bool, true, List, [], ◌∷◌, ◌++◌, Bool-cases, inl, inr, M, arith, map_err, pure, ◌>>=◌,
}
use saltyrtc_client_rs.Prelude.Outcome.{holds, keeps, keeps-continue, keeps-or_throw}
use saltyrtc_client_rs.Errors.{SaltyError, to_salty_error}
use saltyrtc_client_rs.Deps.{Deps, Value, IterOrderLaws}
use saltyrtc_client_rs.Tasks.{TaskMessage}
use saltyrtc_client_rs.Signaling.{HandleAction, Actions}
use saltyrtc_client_rs.Signaling.Handle.{handle_message}
use saltyrtc_client_rs.Signaling.Invariant.{is_valid}
use saltyrtc_client_rs.Signaling.Invariant.Handle.{handle_message-is_valid}
use saltyrtc_client_rs.Client.WebSocket.{
  OwnedMessage, WsMessageDecoded, Incoming, decode_ws_message,
}
use saltyrtc_client_rs.Client.TaskLoop.{
  TaskSession, Receivers, Sorted, Next, in_task_salty, nothing_sorted, sort_actions, deliver_sorted,
  handle_decoded, read_one, reader,
}

module _ {dep : Deps} (laws : IterOrderLaws dep) where
  -- The signaling of a client in its task loop is well-formed.
  abbrev pub in_loop : TaskSession dep → Bool
  in_loop s = is_valid 0 s.salty

  sort_actions-keeps :
      (held : Receivers) (xs : Actions dep) (c : Sorted (Value dep)) (s : TaskSession dep)
      → in_loop s ≡ true
      → keeps in_loop (sort_actions held xs c s) ≡ true
  unfolding sort_actions holds
  sort_actions-keeps held [] c s h = h
  sort_actions-keeps held (HandleAction.reply bbox ∷ xs) c s h = sort_actions-keeps held xs _ s h
  sort_actions-keeps held (HandleAction.task_message m ∷ xs) c s h =
      sort_actions-keeps held xs _ s h
  sort_actions-keeps held (HandleAction.handshake_done ∷ xs) c s h = h
  sort_actions-keeps held (HandleAction.handshake_error e ∷ xs) c s h = h
  sort_actions-keeps held (HandleAction.event e ∷ xs) c s h =
      grind (arith, h, sort_actions-keeps held xs c (record s { events = s.events ++ (e ∷ []) }) h)

  deliver-keeps :
      (held : Receivers) (out : List OwnedMessage) (ins : List (TaskMessage (Value dep)))
      (close : Bool) (s : TaskSession dep)
      → in_loop s ≡ true
      → keeps in_loop (
          deliver_sorted held
            (record { out_messages = out; in_messages = ins; close_stream = close })
            s)
        ≡ true
  unfolding deliver_sorted holds
  deliver-keeps held [] [] close s h = h
  deliver-keeps held [] (m ∷ ms) close s h = elim (Bool-cases held.incoming) [
    | inl held' ↦ ground (arith, h, held')
    | inr shut ↦ ground (arith, h, shut)
  ]
  deliver-keeps held (o ∷ os) [] close s h = elim (Bool-cases held.raw_outgoing) [
    | inl held' ↦ ground (arith, h, held')
    | inr shut ↦ ground (arith, h, shut)
  ]
  deliver-keeps held (o ∷ os) (m ∷ ms) close s h = elim (Bool-cases held.raw_outgoing) [
    | inl held' ↦ elim (Bool-cases held.incoming) [
      | inl held'' ↦ ground (arith, h, held', held'')
      | inr shut ↦ ground (arith, h, held', shut)
    ]
    | inr shut ↦ ground (arith, h, shut)
  ]

  deliver_sorted-keeps :
      (held : Receivers) (c : Sorted (Value dep)) (s : TaskSession dep)
      → in_loop s ≡ true
      → keeps in_loop (deliver_sorted held c s) ≡ true
  deliver_sorted-keeps held c s h =
      deliver-keeps held c.out_messages c.in_messages c.close_stream s h

  handle_decoded-keeps :
      (held : Receivers) (decoded : WsMessageDecoded) (s : TaskSession dep)
      → in_loop s ≡ true
      → keeps in_loop (handle_decoded held decoded s) ≡ true
  unfolding handle_decoded holds
  handle_decoded-keeps held (WsMessageDecoded.byte_box bbox) s h =
      keeps-continue in_loop
        (λ xs. sort_actions held xs nothing_sorted >>= λ c. deliver_sorted held c)
        (in_task_salty (map_err to_salty_error (handle_message bbox)) s)
        (ground (arith, handle_message-is_valid 0 laws bbox s.salty h))
        (λ xs t k.
          keeps-continue in_loop (deliver_sorted held) (sort_actions held xs nothing_sorted t)
            (sort_actions-keeps held xs nothing_sorted t k)
            (λ c u l. deliver_sorted-keeps held c u l))
  handle_decoded-keeps held (WsMessageDecoded.ping payload) s h = ground (arith, h)
  handle_decoded-keeps held (WsMessageDecoded.close code) s h = h
  handle_decoded-keeps held WsMessageDecoded.ignore s h = h

  read_one-keeps :
      (held : Receivers) (item : Incoming) (s : TaskSession dep)
      → in_loop s ≡ true
      → keeps in_loop (read_one held item s) ≡ true
  unfolding read_one holds
  read_one-keeps held Incoming.receive_error s h = h
  read_one-keeps held Incoming.ended s h = h
  read_one-keeps held (Incoming.message msg) s h =
      keeps-or_throw in_loop (handle_decoded held) (decode_ws_message dep.byte_order msg)
        SaltyError.protocol s h (λ decoded _. handle_decoded-keeps held decoded s h)

  abbrev after_item : Receivers → List Incoming → Next → M (TaskSession dep) SaltyError Next
  after_item held items Next.stop = pure Next.stop
  after_item held items Next.next = reader held items

  after_item-keeps :
      (held : Receivers) (items : List Incoming) (action : Next) (t : TaskSession dep)
      → ((u : TaskSession dep) → in_loop u ≡ true → keeps in_loop (reader held items u) ≡ true)
      → in_loop t ≡ true
      → keeps in_loop (after_item held items action t) ≡ true
  unfolding holds
  after_item-keeps held items Next.stop t later h = h
  after_item-keeps held items Next.next t later h = later t h

  pub reader-keeps :
      (held : Receivers) (items : List Incoming) (s : TaskSession dep)
      → in_loop s ≡ true
      → keeps in_loop (reader held items s) ≡ true
  unfolding reader holds
  reader-keeps held [] s h = h
  reader-keeps held (item ∷ items) s h =
      keeps-continue in_loop (after_item held items) (read_one held item s)
        (read_one-keeps held item s h)
        (λ action t k. after_item-keeps held items action t (reader-keeps held items) k)

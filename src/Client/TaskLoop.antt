-- ===== src/Client/TaskLoop.antt =====
-- `task_loop` of src/lib.rs: the future that reads from the socket and the one that encrypts what the
-- task sends. They meet in channels: `outgoing` and `incoming` of task messages, and `raw_outgoing`
-- of messages for the socket, which a third future writes.
pub mod Reading
pub mod Writing
pub mod EndToEnd
pub mod Maps
pub mod Keeps
use saltyrtc_client_rs.Prelude.{
  ℕ, Bool, true, false, not, Option, none, some, List, [], ◌∷◌, ◌++◌, String, map, if◌then◌else◌,
  nat_has_eq, string_has_eq, bytes_has_eq, M, pure, throw, or_throw, map_err, ok, err, panic, ◌>>=◌,
  ◌>>◌, modify, throw_if, zoom,
}
use saltyrtc_client_rs.Errors.{SaltyError, to_salty_error}
use saltyrtc_client_rs.CloseCode.{CloseCode, as_number}
use saltyrtc_client_rs.Prelude.Dict.{Dict}
use saltyrtc_client_rs.Deps.{Deps, Value}
use saltyrtc_client_rs.Tasks.{TaskMessage}
use saltyrtc_client_rs.Boxes.{into_bytes}
use saltyrtc_client_rs.Signaling.{HandleAction, Event, Actions}
use saltyrtc_client_rs.Signaling.Handle.{handle_message}
use saltyrtc_client_rs.Client.{SaltyClient, encrypt_task_message, encrypt_close_message}
use saltyrtc_client_rs.Client.WebSocket.{
  OwnedMessage, WsMessageDecoded, Incoming, decode_ws_message,
}

-- The client, and what was put into the channels.
pub record TaskSession (dep : Deps) : Type 0 where
  pub salty : SaltyClient dep
  pub raw_outgoing : List OwnedMessage
  pub incoming : List (TaskMessage (Value dep))
  pub events : List Event

-- Which channels still have a receiver.
pub record Receivers : Type 0 where
  pub raw_outgoing : Bool
  pub incoming : Bool
  pub events : Bool

-- The variables that the loop over the actions writes
pub record Sorted (V : Type 0) : Type 0 where
  pub out_messages : List OwnedMessage
  pub in_messages : List (TaskMessage V)
  pub close_stream : Bool

-- How the closure of `for_each` ends: `future::ok(())` or `future::err(Ok(()))`.
pub data Next : Type 0 where
  next : Next
  stop : Next

-- `if let TaskMessage::Close(_) = msg`
abbrev pub is_close : {V : Type 0} → TaskMessage V → Bool
is_close (TaskMessage.close _) = true
is_close (TaskMessage.value _) = false
is_close (TaskMessage.application _) = false

-- The items that a task message becomes: messages for the socket, or `Err(Ok(()))`, which ends the
-- transformer.
pub data Item : Type 0 where
  message : OwnedMessage → Item
  terminate : Item

abbrev pub nothing_sorted : {V : Type 0} → Sorted V
nothing_sorted = record { out_messages = []; in_messages = []; close_stream = false }

-- What the future on `disconnect_rx` puts into the channel `outgoing`
unfoldable pub disconnect_message : {V : Type 0} → Option CloseCode → TaskMessage V
disconnect_message none = TaskMessage.close CloseCode.ws_going_away
disconnect_message (some reason) = TaskMessage.close reason

module _ (dep : Deps) where
  -- The map of a task message, and that of an application message
  unfoldable pub value_of_entries : Dict String (Value dep) → Value dep
  value_of_entries entries =
      dep.rmpv.from_map (map (λ (k, v). (dep.rmpv.from_str k, v)) (dep.entry_order entries))

  unfoldable pub application_value : Value dep → Value dep
  application_value content = dep.rmpv.from_map (
      (dep.rmpv.from_str "type", dep.rmpv.from_str "application")
      ∷ (dep.rmpv.from_str "data", content)
      ∷ [])

module _ {dep : Deps} where
  abbrev pub in_task_salty : {E A : Type 0} → M (SaltyClient dep) E A → M (TaskSession dep) E A
  in_task_salty m = zoom (λ s. s.salty) (λ c s. record s { salty = c }) m

  abbrev pub enqueue_raw :
      Receivers → SaltyError → List OwnedMessage → M (TaskSession dep) SaltyError (Unit {0})
  enqueue_raw held e messages = do
    throw_if (not held.raw_outgoing) e
    modify (λ s. record s { raw_outgoing = s.raw_outgoing ++ messages })

  -- The loop over the actions that `handle_message` gave
  unfoldable pub sort_actions :
      Receivers
      → Actions dep
      → Sorted (Value dep)
      → M (TaskSession dep) SaltyError (Sorted (Value dep))
  unfolding into_bytes
  sort_actions held [] c = pure c
  sort_actions held (HandleAction.reply bbox ∷ more) c = sort_actions held more (record c {
    out_messages = c.out_messages ++ (OwnedMessage.binary (into_bytes dep.byte_order bbox) ∷ []);
  })
  sort_actions held (HandleAction.task_message msg ∷ more) c = sort_actions held more (record c {
    close_stream = if is_close msg then true else c.close_stream;
    in_messages = c.in_messages ++ (msg ∷ []);
  })
  sort_actions held (HandleAction.event e ∷ more) c = do
    throw_if (not held.events) SaltyError.crash
    modify (λ s. record s { events = s.events ++ (e ∷ []) })
    sort_actions held more c
  sort_actions held (HandleAction.handshake_done ∷ more) c = throw SaltyError.crash
  sort_actions held (HandleAction.handshake_error _ ∷ more) c = throw SaltyError.crash

  -- `out_future`, `in_future` and what follows both
  unfoldable pub deliver_sorted :
      Receivers → Sorted (Value dep) → M (TaskSession dep) SaltyError Next
  deliver_sorted held c = do
    elim c.out_messages [ [] ↦ pure tt | m ∷ ms ↦ enqueue_raw held SaltyError.network (m ∷ ms) ]
    elim c.in_messages [
      | [] ↦ pure tt
      | m ∷ ms ↦ (do
        throw_if (not held.incoming) SaltyError.crash
        modify (λ s. record s { incoming = s.incoming ++ (m ∷ ms) }))
    ]
    pure (if c.close_stream then Next.stop else Next.next)

  -- The closure of `for_each`
  unfoldable pub handle_decoded : Receivers → WsMessageDecoded → M (TaskSession dep) SaltyError Next
  unfolding to_salty_error
  handle_decoded held (WsMessageDecoded.byte_box bbox) = do
    handle_actions ← in_task_salty (map_err to_salty_error (handle_message bbox))
    c ← sort_actions held handle_actions nothing_sorted
    deliver_sorted held c
  handle_decoded held (WsMessageDecoded.ping payload) = do
    enqueue_raw held SaltyError.network (OwnedMessage.pong payload ∷ [])
    pure Next.next
  handle_decoded held (WsMessageDecoded.close _) = pure Next.next
  handle_decoded held WsMessageDecoded.ignore = pure Next.next

  -- What the reader does with one item of the socket's stream
  unfoldable pub read_one : Receivers → Incoming → M (TaskSession dep) SaltyError Next
  unfolding decode_ws_message
  read_one held Incoming.receive_error = throw SaltyError.network
  read_one held Incoming.ended = pure Next.stop
  read_one held (Incoming.message msg) = do
    decoded ← or_throw (decode_ws_message dep.byte_order msg) SaltyError.protocol
    handle_decoded held decoded

  -- The reader, for the items so far: `next` says that it waits for more.
  unfoldable pub reader : Receivers → List Incoming → M (TaskSession dep) SaltyError Next
  reader held [] = pure Next.next
  reader held (item ∷ items) = do
    action ← read_one held item
    elim action [ Next.stop ↦ pure Next.stop | Next.next ↦ reader held items ]

  -- The closure of the transformer. Its errors are dropped: each becomes `Err(())`.
  unfoldable pub transform_message :
      TaskMessage (Value dep) → M (SaltyClient dep) SaltyError (List Item)
  unfolding encrypt_task_message encrypt_close_message value_of_entries application_value as_number
  transform_message (TaskMessage.value entries) = do
    bytes ← encrypt_task_message (value_of_entries dep entries)
    pure (Item.message (OwnedMessage.binary bytes) ∷ [])
  transform_message (TaskMessage.application content) = do
    bytes ← encrypt_task_message (application_value dep content)
    pure (Item.message (OwnedMessage.binary bytes) ∷ [])
  transform_message (TaskMessage.close reason) = do
    bytes ← encrypt_close_message reason
    pure (
        Item.message (OwnedMessage.binary bytes)
        ∷ Item.message (
            OwnedMessage.close
              (some (record { status_code = as_number reason; reason = dep.close_text reason })))
        ∷ Item.terminate
        ∷ [])

  -- `forward(raw_outgoing_tx)`, for the items of one message
  unfoldable pub forward_items : Receivers → List Item → M (TaskSession dep) SaltyError Next
  forward_items held [] = pure Next.next
  forward_items held (Item.message m ∷ items) = do
    enqueue_raw held SaltyError.crash (m ∷ [])
    forward_items held items
  forward_items held (Item.terminate ∷ items) = pure Next.stop

  -- The transformer, for the messages of the channel `outgoing` so far
  unfoldable pub transformer :
      Receivers → List (TaskMessage (Value dep)) → M (TaskSession dep) SaltyError Next
  transformer held [] = pure Next.next
  transformer held (msg ∷ msgs) = do
    items ← in_task_salty (map_err (λ _. SaltyError.crash) (transform_message msg))
    action ← forward_items held items
    elim action [ Next.stop ↦ pure Next.stop | Next.next ↦ transformer held msgs ]

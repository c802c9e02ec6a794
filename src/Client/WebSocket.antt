-- ===== src/Client/WebSocket.antt =====
-- The messages of the WebSocket in src/lib.rs: `decode_ws_message`, `preprocess_ws_message` and the
-- check of the subprotocol in `connect`. The socket itself is the crate `websocket`.
use saltyrtc_client_rs.Prelude.{
  ℕ, Option, none, some, List, [], ◌∷◌, ◌++◌, String, take, if◌then◌else◌, ◌==◌, nat_has_eq,
  string_has_eq, bytes_has_eq, M, pure, throw, ◌>>◌, modify, Bool, not, throw_if, zoom,
}
use saltyrtc_client_rs.External.{ByteOrder}
use saltyrtc_client_rs.Errors.{SaltyError}
use saltyrtc_client_rs.CloseCode.{CloseCode, from_number}
use saltyrtc_client_rs.Deps.{Deps}
use saltyrtc_client_rs.Boxes.{ByteBox, from_slice}
use saltyrtc_client_rs.Signaling.{Event}
use saltyrtc_client_rs.Client.{SaltyClient}

-- `websocket::message::CloseData`
pub record CloseData : Type 0 where
  pub status_code : ℕ
  pub reason : String

-- `websocket::message::OwnedMessage`
pub data OwnedMessage : Type 0 where
  text : String → OwnedMessage
  binary : List ℕ → OwnedMessage
  close : Option CloseData → OwnedMessage
  ping : List ℕ → OwnedMessage
  pong : List ℕ → OwnedMessage

pub data WsMessageDecoded : Type 0 where
  byte_box : ByteBox → WsMessageDecoded
  ping : List ℕ → WsMessageDecoded
  close : Option CloseCode → WsMessageDecoded
  ignore : WsMessageDecoded

-- `decode_ws_message`; `none` stands for `SaltyError::Protocol`, its only error.
unfoldable pub decode_ws_message : ByteOrder → OwnedMessage → Option WsMessageDecoded
unfolding from_slice from_number
decode_ws_message bo (OwnedMessage.binary bytes) = elim (from_slice bo bytes) [
  | some bbox ↦ some (WsMessageDecoded.byte_box bbox)
  | none ↦ none
]
decode_ws_message bo (OwnedMessage.ping payload) = some (WsMessageDecoded.ping payload)
decode_ws_message bo (OwnedMessage.pong _) = some WsMessageDecoded.ignore
decode_ws_message bo (OwnedMessage.close (some close_data)) =
    some (WsMessageDecoded.close (some (from_number close_data.status_code)))
decode_ws_message bo (OwnedMessage.close none) = some (WsMessageDecoded.close none)
decode_ws_message bo (OwnedMessage.text payload) = some WsMessageDecoded.ignore

-- The subprotocols that the server's headers list; `none` is the success.
unfoldable pub subprotocol_error : Option (List String) → Option SaltyError
subprotocol_error (some (proto ∷ [])) =
    if proto == "v1.saltyrtc.org" then none else some SaltyError.protocol
subprotocol_error (some _) = some SaltyError.protocol
subprotocol_error none = some SaltyError.protocol

-- A client on its socket: what was written to the socket and sent through the channel of events.
pub record Session (dep : Deps) : Type 0 where
  pub salty : SaltyClient dep
  pub sent : List OwnedMessage
  pub events : List Event

-- What the outside does in one turn of a loop: what the socket's stream gives, after how many
-- messages a write to the socket fails, if it does, and whether the events still have a receiver.
pub data Incoming : Type 0 where
  message : OwnedMessage → Incoming
  receive_error : Incoming
  ended : Incoming

pub record Turn : Type 0 where
  pub incoming : Incoming
  pub write_fails : Option ℕ
  pub has_receiver : Bool

-- `Loop::Continue` and `Loop::Break`; the socket is in the state.
pub data Loop : Type 0 where
  continue : Loop
  break : Loop

pub data PipelineAction (dep : Deps) : Type 0 where
  byte_box : ByteBox → PipelineAction dep
  future : M (Session dep) SaltyError Loop → PipelineAction dep

module _ {dep : Deps} where
  abbrev pub in_salty : {E A : Type 0} → M (SaltyClient dep) E A → M (Session dep) E A
  in_salty m = zoom (λ s. s.salty) (λ c s. record s { salty = c }) m

  -- `send_all::new(client, stream::iter_ok(messages))`, run to its end
  unfoldable pub send_messages : Turn → List OwnedMessage → M (Session dep) SaltyError (Unit {0})
  send_messages turn messages = elim turn.write_fails [
    | none ↦ modify (λ s. record s { sent = s.sent ++ messages })
    | some n ↦ (do
      modify (λ s. record s { sent = s.sent ++ take n messages })
      throw SaltyError.network)
  ]

  -- `event_tx.unbounded_send(..)`, with the error that both loops give
  unfoldable pub send_event : Turn → Event → M (Session dep) SaltyError (Unit {0})
  send_event turn e = do
    throw_if (not turn.has_receiver) SaltyError.crash
    modify (λ s. record s { events = s.events ++ (e ∷ []) })

  -- `preprocess_ws_message`, which never fails itself
  unfoldable pub preprocess_ws_message : Turn → WsMessageDecoded → PipelineAction dep
  unfolding send_messages
  preprocess_ws_message turn (WsMessageDecoded.byte_box bbox) = PipelineAction.byte_box bbox
  preprocess_ws_message turn (WsMessageDecoded.ping payload) =
      PipelineAction.future
        (do send_messages turn (OwnedMessage.pong payload ∷ []); pure Loop.continue)
  preprocess_ws_message turn (WsMessageDecoded.close _) = PipelineAction.future (pure Loop.break)
  preprocess_ws_message turn WsMessageDecoded.ignore = PipelineAction.future (pure Loop.continue)

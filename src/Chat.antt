-- ===== src/Chat.antt =====
-- examples/chat/chat_task.rs: the task of the chat example, an implementation of the trait `Task`.
-- The mutex around the peer's name is not modelled, nor are the reactor's threads: a message that is
-- spawned to be sent is sent at once.
pub mod Delivery
pub mod Received
pub mod EndToEnd
use saltyrtc_client_rs.Prelude.{
  Bool, Option, List, String, ℕ, ◌++◌, ◌∷◌, [], true, false, none, some, if◌then◌else◌, ◌==◌,
  string_has_eq, M, pure, throw, panics, or_throw, or_panic, ok, err, panic, ◌>>=◌, ◌>>◌, get,
  modify, Panic,
}
use saltyrtc_client_rs.Prelude.Dict.{Dict, lookup, insert}
use saltyrtc_client_rs.External.{Rmpv}
use saltyrtc_client_rs.CloseCode.{CloseCode}
use saltyrtc_client_rs.Messages.{TaskData}
use saltyrtc_client_rs.Deps.{Task}
use saltyrtc_client_rs.Tasks.{TaskMessage}

pub data ChatMessage : Type 0 where
  msg : String → ChatMessage
  nick_change : String → ChatMessage
  disconnect : CloseCode → ChatMessage

-- `UnboundedSender`: what was sent through it, and whether the channel still has its receiver
pub record UnboundedSender (A : Type 0) : Type 0 where
  pub sent : List A
  pub has_receiver : Bool

-- The sender of the oneshot channel is used up by a send: `disconnect_tx` says whether it is there,
-- and `disconnected` what was sent.
pub record ChatTask (V : Type 0) : Type 0 where
  pub our_name : String
  pub peer_name : Option String
  pub outgoing_tx : Option (UnboundedSender (TaskMessage V))
  pub incoming_tx : UnboundedSender ChatMessage
  pub disconnect_tx : Bool
  pub disconnected : Option (Option CloseCode)

-- `unbounded_send`; `none` is the error for a channel without a receiver.
abbrev pub unbounded_send : {A : Type 0} → A → UnboundedSender A → Option (UnboundedSender A)
unbounded_send a tx =
    if tx.has_receiver then some (record tx { sent = tx.sent ++ (a ∷ []) }) else none

-- A spawned send, whose error is dropped
abbrev pub spawned_send : {A : Type 0} → A → UnboundedSender A → UnboundedSender A
spawned_send a tx = elim (unbounded_send a tx) [ some sent ↦ sent | none ↦ tx ]

module _ (rmpv : Rmpv) where
  -- `ChatTask::new`
  unfoldable pub new_chat_task : String → UnboundedSender ChatMessage → ChatTask rmpv.Value
  new_chat_task our_name incoming_tx = record {
    our_name = our_name;
    peer_name = none;
    outgoing_tx = none;
    incoming_tx = incoming_tx;
    disconnect_tx = false;
    disconnected = none;
  }

  -- The map of a text message, and that of a change of the nickname
  unfoldable pub text_map : String → Dict String rmpv.Value
  unfolding insert
  text_map text = insert "text" (rmpv.from_str text) (insert "type" (rmpv.from_str "msg") [])

  unfoldable pub nick_map : String → Dict String rmpv.Value
  unfolding insert
  nick_map nick =
      insert "nick" (rmpv.from_str nick) (insert "type" (rmpv.from_str "nick_change") [])

  -- `outgoing_tx.clone().expect(..)`, and the send
  abbrev send_outgoing : TaskMessage rmpv.Value → M (ChatTask rmpv.Value) (Unit {0}) (Unit {0})
  send_outgoing message = do
    s ← get
    tx ← or_panic s.outgoing_tx Panic.task_not_started
    sent ← or_throw (unbounded_send message tx) tt
    modify (λ t. record t { outgoing_tx = some sent })

  unfoldable pub send_msg : String → M (ChatTask rmpv.Value) (Unit {0}) (Unit {0})
  unfolding text_map
  send_msg text = send_outgoing (TaskMessage.value (text_map text))

  unfoldable pub change_nick : String → M (ChatTask rmpv.Value) (Unit {0}) (Unit {0})
  unfolding nick_map
  change_nick new_nick = do
    send_outgoing (TaskMessage.value (nick_map new_nick))
    modify (λ t. record t { our_name = new_nick })

  -- `Task::init`
  unfoldable pub init : TaskData rmpv.Value → M (ChatTask rmpv.Value) (Unit {0}) (Unit {0})
  unfolding lookup
  init none = throw tt
  init (some entries) = do
    val ← or_throw (lookup "nickname" entries) tt
    nickname ← or_throw (rmpv.as_string val) tt
    modify (λ t. record t { peer_name = some (elim nickname [ some text ↦ text | none ↦ "?" ]) })

  -- `Task::start`, without the loop over `incoming_rx`, which is `receive_all`
  unfoldable pub start :
      UnboundedSender (TaskMessage rmpv.Value) → ChatTask rmpv.Value → ChatTask rmpv.Value
  start outgoing_tx s = record s {
    outgoing_tx = some outgoing_tx;
    disconnect_tx = true;
    disconnected = none;
  }

  -- The text under a key, if there is one
  abbrev pub text_at : String → Dict String rmpv.Value → Option String
  text_at key entries = elim (lookup key entries) [ none ↦ none | some v ↦ rmpv.as_str v ]

  -- The match on the type of a message
  unfoldable pub receive_map :
      String → Dict String rmpv.Value → ChatTask rmpv.Value → ChatTask rmpv.Value
  unfolding lookup
  receive_map msg_type entries s =
      if msg_type == "msg"
      then elim (text_at "text" entries) [
        | none ↦ s
        | some text ↦ record s { incoming_tx = spawned_send (ChatMessage.msg text) s.incoming_tx }
      ]
      else if msg_type == "nick_change"
      then elim (text_at "nick" entries) [
        | none ↦ s
        | some nick ↦ record s {
          peer_name = some nick;
          incoming_tx = spawned_send (ChatMessage.nick_change nick) s.incoming_tx;
        }
      ]
      else s

  -- The closure of `for_each`
  unfoldable pub receive : TaskMessage rmpv.Value → M (ChatTask rmpv.Value) (Unit {0}) (Unit {0})
  unfolding lookup receive_map
  receive (TaskMessage.application _) = pure tt
  receive (TaskMessage.close reason) = do
    s ← get
    sent ← or_throw (unbounded_send (ChatMessage.disconnect reason) s.incoming_tx) tt
    modify (λ t. record t { incoming_tx = sent })
  receive (TaskMessage.value entries) = do
    msg_type_val ← or_panic (lookup "type" entries) Panic.message_without_type
    msg_type ← or_panic (rmpv.as_str msg_type_val) Panic.message_type_no_string
    modify (receive_map msg_type entries)

  -- The loop over the messages of `incoming_rx`
  unfoldable pub receive_all :
      List (TaskMessage rmpv.Value) → M (ChatTask rmpv.Value) (Unit {0}) (Unit {0})
  receive_all [] = pure tt
  receive_all (m ∷ ms) = do receive m; receive_all ms

  abbrev pub chat_supported_types : List String
  chat_supported_types = "msg" ∷ "nick_change" ∷ []

  -- `Task::send_signaling_message`
  unfoldable pub send_signaling_message : List ℕ → M (ChatTask rmpv.Value) (Unit {0}) (Unit {0})
  send_signaling_message payload = panics Panic.handover_not_implemented

  -- `Task::data`
  unfoldable pub data_for_peer : ChatTask rmpv.Value → TaskData rmpv.Value
  unfolding insert
  data_for_peer s = some (insert "nickname" (rmpv.from_str s.our_name) [])

  -- `Task::close`
  unfoldable pub close : CloseCode → ChatTask rmpv.Value → ChatTask rmpv.Value
  close reason s =
      if s.disconnect_tx
      then record s { disconnect_tx = false; disconnected = some (some reason) }
      else s

  -- The implementation of the trait, as the signaling uses it
  abbrev pub chat_task : Task rmpv.Value
  chat_task = record {
    BoxedTask = ChatTask rmpv.Value;
    name = λ _. "v0.simplechat.tasks.saltyrtc.org";
    task_data = data_for_peer;
    supported_types = λ _. chat_supported_types;
    init = λ s entries. elim (init entries s) [ ok _ t ↦ some t | err _ _ ↦ none | panic _ ↦ none ];
  }

-- ===== src/Runs/Chatting.antt =====
-- The theorems on the chat task, at one text message.
use saltyrtc_client_rs.Prelude.{
  ◌≡◌, ◌≢◌, refl, true, false, none, some, [], ◌∷◌, ◌++◌, ok, panic, Panic, arith, string_has_eq,
}
use saltyrtc_client_rs.External.Examples.{
  toy, toy_sodium-laws, toy_rmpv, toy_rmpv-laws, toy_entry-laws, ToyValue, big_endian,
  big_endian-laws, repeat,
}
use saltyrtc_client_rs.Crypto
use saltyrtc_client_rs.Context.{PeerContext}
use saltyrtc_client_rs.Prelude.Dict.{insert}
use saltyrtc_client_rs.Tasks.{TaskMessage}
use saltyrtc_client_rs.Boxes.{ByteBox, into_bytes}
use saltyrtc_client_rs.Signaling.{Signaling, ResponderSignaling}
use saltyrtc_client_rs.Signaling.Peers.{get_peer}
use saltyrtc_client_rs.Signaling.Encode.{encode_task_message}
use saltyrtc_client_rs.Signaling.Validate.{
  validate_nonce, validate_nonce_destination, validate_nonce_source, validate_nonce_csn,
  validate_nonce_cookie, accept_csn, accept_cookie,
}
use saltyrtc_client_rs.Client.WebSocket.{OwnedMessage, Incoming}
use saltyrtc_client_rs.Client.TaskLoop.{
  TaskSession, Next, Item, value_of_entries, transform_message, read_one,
}
use saltyrtc_client_rs.Client.TaskLoop.Reading.{all_held, messages_of}
use saltyrtc_client_rs.Chat.{
  ChatMessage, ChatTask, text_map, send_msg, init, receive, receive_all, data_for_peer,
  chat_supported_types,
}
use saltyrtc_client_rs.Chat.Delivery.{with_message, init-data_for_peer}
use saltyrtc_client_rs.Chat.Received.{receive_all-no_panic}
use saltyrtc_client_rs.Chat.EndToEnd.{text-delivered}
use saltyrtc_client_rs.Runs.Sending.{
  busy, chosen, known_initiator, other, peer-chosen, chosen-keys, initiator-keys,
}
use saltyrtc_client_rs.Runs.Loops.{arrived}
use saltyrtc_client_rs.Runs.Parcels.{
  parcel, parcel-handled, parcel-IsNonce, reached, delivered, now_tasking, not_server,
}

-- The tasks of two users, the first started
abbrev alice : ChatTask ToyValue
alice = record {
  our_name = "alice";
  peer_name = none;
  outgoing_tx = some (record { sent = []; has_receiver = true });
  incoming_tx = record { sent = []; has_receiver = true };
  disconnect_tx = true;
  disconnected = none;
}

abbrev bob : ChatTask ToyValue
bob = record {
  our_name = "bob";
  peer_name = none;
  outgoing_tx = none;
  incoming_tx = record { sent = []; has_receiver = true };
  disconnect_tx = false;
  disconnected = none;
}

receive_all-no_panic_example :
    receive_all toy_rmpv (messages_of delivered) bob ≢ panic Panic.message_without_type
receive_all-no_panic_example =
    receive_all-no_panic (parcel 8) (Signaling.responder other) (Signaling.responder reached)
      delivered bob Panic.message_without_type parcel-handled

init-data_for_peer_example :
    init toy_rmpv (data_for_peer toy_rmpv alice) bob
    ≡ ok tt (record bob { peer_name = some "alice" })
init-data_for_peer_example = init-data_for_peer toy_rmpv toy_rmpv-laws alice bob

-- The text "hi", and its frame
abbrev greeting_box : ByteBox
greeting_box = record { bytes = repeat 16 0 ++ (7 ∷ 7 ∷ 7 ∷ []); nonce = (parcel 8).nonce }

abbrev chatting : ResponderSignaling toy
chatting = record other {
  common = record (other.common) { task_supported_types = some (chat_supported_types toy_rmpv) };
}

abbrev heard : ResponderSignaling toy
heard = record chatting { initiator = arrived 8 known_initiator }

abbrev chat_reading : TaskSession toy
chat_reading = record {
  salty = Signaling.responder chatting;
  raw_outgoing = [];
  incoming = [];
  events = [];
}

greeting-read :
    toy.msgpack.value_from_msgpack
      (toy.msgpack.value_to_msgpack (value_of_entries toy (text_map toy_rmpv "hi")))
    ≡ some (value_of_entries toy (text_map toy_rmpv "hi"))
unfolding value_of_entries text_map insert
greeting-read = refl

greeting-sent :
    encode_task_message {dep = toy}
      (value_of_entries toy (text_map toy_rmpv "hi"))
      (Signaling.initiator (busy 7))
    ≡ ok greeting_box (Signaling.initiator (busy 8))
unfolding encode_task_message Crypto.encrypt value_of_entries text_map insert
greeting-sent = refl

greeting-validated :
    validate_nonce greeting_box.nonce (Signaling.responder chatting)
    ≡ ok tt (Signaling.responder heard)
unfolding validate_nonce validate_nonce_destination validate_nonce_source validate_nonce_csn
    validate_nonce_cookie accept_csn accept_cookie
greeting-validated = refl

greeting-peer :
    get_peer (Signaling.responder heard) ≡ some (PeerContext.initiator (arrived 8 known_initiator))
unfolding get_peer
greeting-peer = refl

text-delivered_example :
    (m m' : TaskMessage ToyValue) × (send_msg toy_rmpv "hi" alice
      ≡ ok tt (record alice { outgoing_tx = some (record { sent = m ∷ []; has_receiver = true }) }))
    × (transform_message {dep = toy} m (Signaling.initiator (busy 7))
        ≡ ok
            (Item.message (OwnedMessage.binary (into_bytes big_endian greeting_box)) ∷ [])
            (Signaling.initiator (busy 8)))
    × (read_one all_held
          (Incoming.message (OwnedMessage.binary (into_bytes big_endian greeting_box)))
          chat_reading
        ≡ ok Next.next
            (record chat_reading { salty = Signaling.responder heard; incoming = m' ∷ [] }))
    × (receive toy_rmpv m' bob
        ≡ ok tt (with_message toy_rmpv toy_rmpv-laws (ChatMessage.msg "hi") bob))
text-delivered_example =
    text-delivered {dep = toy} "hi" alice bob (record { sent = []; has_receiver = true })
      (Signaling.initiator (busy 7)) (Signaling.initiator (busy 8)) greeting_box chat_reading
      (Signaling.responder heard) (PeerContext.responder (chosen 7))
      (PeerContext.initiator (arrived 8 known_initiator)) (repeat 32 4) (repeat 32 7)
      toy_sodium-laws big_endian-laws toy_rmpv-laws toy_entry-laws greeting-read refl refl refl
      peer-chosen chosen-keys refl greeting-sent parcel-IsNonce (omega arith) now_tasking not_server
      greeting-validated refl greeting-peer initiator-keys refl

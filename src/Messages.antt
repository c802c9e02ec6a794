-- ===== src/Messages.antt =====
-- src/protocol/messages.rs: the messages of the handshake, and the builders of `auth` messages.
-- `V` is the type of msgpack values.
pub mod Builders
use saltyrtc_client_rs.Prelude.{
  ℕ, Option, none, some, List, [], ◌∷◌, ◌++◌, String, Bool, string_has_eq,
}
use saltyrtc_client_rs.Prelude.Dict.{Dict, insert}
use saltyrtc_client_rs.External.{PublicKey}
use saltyrtc_client_rs.Types.{Address}
use saltyrtc_client_rs.Cookie.{Cookie}
use saltyrtc_client_rs.Crypto.{SignedKeys}
use saltyrtc_client_rs.SendErrorId.{SendErrorId}
use saltyrtc_client_rs.CloseCode.{CloseCode, as_number}

pub record ClientHello : Type 0 where
  pub key : PublicKey

pub record ServerHello : Type 0 where
  pub key : PublicKey

pub record ClientAuth : Type 0 where
  pub your_cookie : Cookie
  pub subprotocols : List String
  pub ping_interval : ℕ
  pub your_key : Option PublicKey

pub record ServerAuth : Type 0 where
  pub your_cookie : Cookie
  pub signed_keys : Option SignedKeys
  pub responders : Option (List Address)
  pub initiator_connected : Option Bool

pub record NewResponder : Type 0 where
  pub id : Address

pub data DropReason : Type 0 where
  protocol_error : DropReason
  internal_error : DropReason
  dropped_by_initiator : DropReason
  initiator_could_not_decrypt : DropReason

-- `impl Into<u16> for DropReason`
unfoldable pub drop_reason_number : DropReason → ℕ
drop_reason_number DropReason.protocol_error = 3001
drop_reason_number DropReason.internal_error = 3002
drop_reason_number DropReason.dropped_by_initiator = 3004
drop_reason_number DropReason.initiator_could_not_decrypt = 3005

pub record DropResponder : Type 0 where
  pub id : Address
  pub reason : Option ℕ

-- `DropResponder::with_reason`
unfoldable pub with_reason : Address → DropReason → DropResponder
unfolding drop_reason_number
with_reason id reason = record { id = id; reason = some (drop_reason_number reason) }

pub record SendError : Type 0 where
  pub id : SendErrorId

pub record Disconnected : Type 0 where
  pub id : Address

pub record Token : Type 0 where
  pub key : PublicKey

pub record Key : Type 0 where
  pub key : PublicKey

-- What a task sends along in an `auth` message.
abbrev pub TaskData : Type 0 → Type 0
TaskData V = Option (Dict String V)

pub record Auth (V : Type 0) : Type 0 where
  pub your_cookie : Cookie
  pub tasks : Option (List String)
  pub task : Option String
  pub entries : Dict String (TaskData V)

pub record Close : Type 0 where
  pub reason : ℕ

-- `Close::from_close_code`
unfoldable pub from_close_code : CloseCode → Close
from_close_code code = record { reason = as_number code }

pub data Message (V : Type 0) : Type 0 where
  client_hello : ClientHello → Message V
  server_hello : ServerHello → Message V
  client_auth : ClientAuth → Message V
  server_auth : ServerAuth → Message V
  new_initiator : Message V
  new_responder : NewResponder → Message V
  drop_responder : DropResponder → Message V
  send_error : SendError → Message V
  disconnected : Disconnected → Message V
  token : Token → Message V
  key : Key → Message V
  auth : Auth V → Message V
  close : Close → Message V

-- `Message::get_type`
unfoldable pub get_type : {V : Type 0} → Message V → String
get_type (Message.client_hello _) = "client-hello"
get_type (Message.server_hello _) = "server-hello"
get_type (Message.client_auth _) = "client-auth"
get_type (Message.server_auth _) = "server-auth"
get_type Message.new_initiator = "new-initiator"
get_type (Message.new_responder _) = "new-responder"
get_type (Message.drop_responder _) = "drop-responder"
get_type (Message.send_error _) = "send-error"
get_type (Message.disconnected _) = "disconnected"
get_type (Message.token _) = "token"
get_type (Message.key _) = "key"
get_type (Message.auth _) = "auth"
get_type (Message.close _) = "close"

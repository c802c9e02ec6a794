-- ===== src/CloseCode.antt =====
-- src/close_code.rs: close codes and their numbers.
pub mod RoundTrip
use saltyrtc_client_rs.Prelude.{ℕ, nat_eq, if◌then◌else◌}

pub data CloseCode : Type 0 where
  ws_closing_normal : CloseCode
  ws_going_away : CloseCode
  ws_protocol_error : CloseCode
  path_full : CloseCode
  protocol_error : CloseCode
  internal_error : CloseCode
  handover : CloseCode
  dropped_by_initiator : CloseCode
  initiator_could_not_decrypt : CloseCode
  no_shared_task : CloseCode
  invalid_key : CloseCode
  timeout : CloseCode
  other : ℕ → CloseCode

unfoldable pub as_number : CloseCode → ℕ
as_number CloseCode.ws_closing_normal = 1000
as_number CloseCode.ws_going_away = 1001
as_number CloseCode.ws_protocol_error = 1002
as_number CloseCode.path_full = 3000
as_number CloseCode.protocol_error = 3001
as_number CloseCode.internal_error = 3002
as_number CloseCode.handover = 3003
as_number CloseCode.dropped_by_initiator = 3004
as_number CloseCode.initiator_could_not_decrypt = 3005
as_number CloseCode.no_shared_task = 3006
as_number CloseCode.invalid_key = 3007
as_number CloseCode.timeout = 3008
as_number (CloseCode.other code) = code

-- A match on numerals tests them from the top.
unfoldable pub from_number : ℕ → CloseCode
from_number code =
    if nat_eq code 1000
    then CloseCode.ws_closing_normal
    else if nat_eq code 1001
    then CloseCode.ws_going_away
    else if nat_eq code 1002
    then CloseCode.ws_protocol_error
    else if nat_eq code 3000
    then CloseCode.path_full
    else if nat_eq code 3001
    then CloseCode.protocol_error
    else if nat_eq code 3002
    then CloseCode.internal_error
    else if nat_eq code 3003
    then CloseCode.handover
    else if nat_eq code 3004
    then CloseCode.dropped_by_initiator
    else if nat_eq code 3005
    then CloseCode.initiator_could_not_decrypt
    else if nat_eq code 3006
    then CloseCode.no_shared_task
    else if nat_eq code 3007
    then CloseCode.invalid_key
    else if nat_eq code 3008
    then CloseCode.timeout
    else CloseCode.other code

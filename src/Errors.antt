-- ===== src/Errors.antt =====
-- src/errors.rs: the error types. The texts that an error carries are not modelled: they are for
-- the log, and no branch of the program reads them.

-- Errors that are exposed to the user of the library.
pub data SaltyError : Type 0 where
  crypto : SaltyError
  decode : SaltyError
  network : SaltyError
  protocol : SaltyError
  no_shared_task : SaltyError
  no_peer : SaltyError
  task : SaltyError
  crash : SaltyError
  timeout : SaltyError

-- Internal errors of the signaling.
pub data SignalingError : Type 0 where
  decode : SignalingError
  invalid_nonce : SignalingError
  crypto : SignalingError
  csn_overflow : SignalingError
  invalid_state_transition : SignalingError
  invalid_message : SignalingError
  protocol : SignalingError
  send_error : SignalingError
  no_shared_task : SignalingError
  no_peer : SignalingError
  task_initialization : SignalingError
  initiator_could_not_decrypt : SignalingError
  crash : SignalingError

-- Errors of the nonce validation.
pub data ValidationError : Type 0 where
  drop_msg : ValidationError
  fail : ValidationError
  crash : ValidationError

pub data BuilderError : Type 0 where
  missing_task : BuilderError

-- `impl From<SignalingError> for SaltyError`
unfoldable pub to_salty_error : SignalingError → SaltyError
to_salty_error SignalingError.crash = SaltyError.crash
to_salty_error SignalingError.crypto = SaltyError.crypto
to_salty_error SignalingError.csn_overflow = SaltyError.crypto
to_salty_error SignalingError.decode = SaltyError.decode
to_salty_error SignalingError.initiator_could_not_decrypt = SaltyError.crypto
to_salty_error SignalingError.invalid_message = SaltyError.protocol
to_salty_error SignalingError.invalid_nonce = SaltyError.protocol
to_salty_error SignalingError.invalid_state_transition = SaltyError.crash
to_salty_error SignalingError.no_shared_task = SaltyError.no_shared_task
to_salty_error SignalingError.no_peer = SaltyError.no_peer
to_salty_error SignalingError.protocol = SaltyError.protocol
to_salty_error SignalingError.send_error = SaltyError.network
to_salty_error SignalingError.task_initialization = SaltyError.task

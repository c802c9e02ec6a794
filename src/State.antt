-- ===== src/State.antt =====
-- src/protocol/state.rs: the states of the signaling and of the handshakes.
use saltyrtc_client_rs.Prelude.{Bool, true, false}

pub data SignalingState : Type 0 where
  server_handshake : SignalingState
  peer_handshake : SignalingState
  task : SignalingState

unfoldable pub may_transition_to : SignalingState → SignalingState → Bool
may_transition_to SignalingState.server_handshake SignalingState.peer_handshake = true
may_transition_to SignalingState.peer_handshake SignalingState.task = true
may_transition_to _ _ = false

pub data ServerHandshakeState : Type 0 where
  new : ServerHandshakeState
  client_info_sent : ServerHandshakeState
  done : ServerHandshakeState

pub data InitiatorHandshakeState : Type 0 where
  new : InitiatorHandshakeState
  key_sent : InitiatorHandshakeState
  key_received : InitiatorHandshakeState
  auth_sent : InitiatorHandshakeState
  auth_received : InitiatorHandshakeState

pub data ResponderHandshakeState : Type 0 where
  new : ResponderHandshakeState
  token_received : ResponderHandshakeState
  key_received : ResponderHandshakeState
  key_sent : ResponderHandshakeState
  auth_received : ResponderHandshakeState
  auth_sent : ResponderHandshakeState

-- `==`, derived
unfoldable pub signaling_state_eq : SignalingState → SignalingState → Bool
signaling_state_eq SignalingState.server_handshake SignalingState.server_handshake = true
signaling_state_eq SignalingState.peer_handshake SignalingState.peer_handshake = true
signaling_state_eq SignalingState.task SignalingState.task = true
signaling_state_eq _ _ = false

abbrev pub is_server_new : ServerHandshakeState → Bool
is_server_new ServerHandshakeState.new = true
is_server_new ServerHandshakeState.client_info_sent = false
is_server_new ServerHandshakeState.done = false

abbrev pub is_responder_new : ResponderHandshakeState → Bool
is_responder_new ResponderHandshakeState.new = true
is_responder_new _ = false

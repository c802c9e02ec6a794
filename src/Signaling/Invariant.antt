-- ===== src/Signaling/Invariant.antt =====
-- When the state of the signaling is well-formed.
pub mod Tables
pub mod Nonces
pub mod Server
pub mod Responder
pub mod Paths
pub mod Initiator
pub mod ServerMessages
pub mod Handle
use saltyrtc_client_rs.Prelude.{
  ℕ, Bool, true, false, ◌&&◌, Option, none, some, List, [], ◌∷◌, nat_eq, leb,
}
use saltyrtc_client_rs.Prelude.Dict.{Dict}
use saltyrtc_client_rs.Types.{Role, ClientIdentity, Address}
use saltyrtc_client_rs.State.{SignalingState}
use saltyrtc_client_rs.Context.{ResponderContext}
use saltyrtc_client_rs.Deps.{Deps}
use saltyrtc_client_rs.Signaling.{Common, InitiatorSignaling, ResponderSignaling, Signaling}

-- The identity that the server gave the client fits its role, and has an address.
unfoldable pub fits : Role → ClientIdentity → Bool
fits _ ClientIdentity.unknown = true
fits Role.initiator ClientIdentity.initiator = true
fits Role.responder (ClientIdentity.responder a) = leb 0x02 a
fits _ _ = false

-- The order in which the states are passed.
unfoldable pub rank : SignalingState → ℕ
rank SignalingState.server_handshake = 0
rank SignalingState.peer_handshake = 1
rank SignalingState.task = 2

-- Each responder is kept under its own address, which is that of a responder.
unfoldable pub keyed_by_address : Dict Address ResponderContext → Bool
keyed_by_address [] = true
keyed_by_address ((a, r) ∷ d) = nat_eq a r.address && leb 0x02 a && keyed_by_address d

unfoldable pub chosen_has_address : Option ResponderContext → Bool
chosen_has_address none = true
chosen_has_address (some r) = leb 0x02 r.address

unfoldable pub role_eq : Role → Role → Bool
role_eq Role.initiator Role.initiator = true
role_eq Role.responder Role.responder = true
role_eq _ _ = false

module _ {dep : Deps} where
  -- `from` is the rank of a state that the client has reached.
  unfoldable pub is_valid_common : Role → ℕ → Common dep → Bool
  unfolding fits rank role_eq
  is_valid_common role from c =
      role_eq c.role role && fits role c.identity && leb from (rank c.signaling_state)

  unfoldable pub is_valid_initiator : ℕ → InitiatorSignaling dep → Bool
  is_valid_initiator from s =
      is_valid_common Role.initiator from s.common
      && keyed_by_address s.responders
      && chosen_has_address s.responder

  unfoldable pub is_valid_responder : ℕ → ResponderSignaling dep → Bool
  is_valid_responder from s = is_valid_common Role.responder from s.common

  -- The state is well-formed, and no earlier than the rank `from`.
  unfoldable pub is_valid : ℕ → Signaling dep → Bool
  is_valid from (Signaling.initiator s) = is_valid_initiator from s
  is_valid from (Signaling.responder s) = is_valid_responder from s

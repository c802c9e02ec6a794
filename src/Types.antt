-- ===== src/Types.antt =====
-- src/protocol/types.rs: roles, identities and addresses. A `u8` is a number below 256.
use saltyrtc_client_rs.Prelude.{
  ℕ, Bool, true, false, Option, none, some, nat_eq, leb, ltb, if◌then◌else◌,
}

pub data Role : Type 0 where
  initiator : Role
  responder : Role

-- `Role::is_initiator`; also `==` between roles, of which there are two
unfoldable pub is_initiator_role : Role → Bool
is_initiator_role Role.initiator = true
is_initiator_role Role.responder = false

unfoldable pub is_responder_role : Role → Bool
is_responder_role Role.initiator = false
is_responder_role Role.responder = true

pub data Identity : Type 0 where
  server : Identity
  initiator : Identity
  responder : ℕ → Identity

pub data ClientIdentity : Type 0 where
  unknown : ClientIdentity
  initiator : ClientIdentity
  responder : ℕ → ClientIdentity

-- `struct Address(u8)`
abbrev pub Address : Type 0
Address = ℕ

-- `impl From<Address> for Identity`
unfoldable pub identity_from_address : Address → Identity
identity_from_address a =
    if nat_eq a 0x00
    then Identity.server
    else if nat_eq a 0x01
    then Identity.initiator
    else Identity.responder a

unfoldable pub is_server : Address → Bool
is_server a = nat_eq a 0x00

unfoldable pub is_unknown : Address → Bool
is_unknown a = nat_eq a 0x00

unfoldable pub is_initiator : Address → Bool
is_initiator a = nat_eq a 0x01

unfoldable pub is_responder : Address → Bool
is_responder a = leb 0x02 a

-- `impl From<ClientIdentity> for Address`; `none` stands for the failed assertion.
unfoldable pub address_from_client : ClientIdentity → Option Address
address_from_client ClientIdentity.unknown = some 0x00
address_from_client ClientIdentity.initiator = some 0x01
address_from_client (ClientIdentity.responder address) =
    if ltb 0x01 address then some address else none

-- `impl From<Identity> for Address`; `none` stands for the failed assertion.
unfoldable pub address_from_identity : Identity → Option Address
address_from_identity Identity.server = some 0x00
address_from_identity Identity.initiator = some 0x01
address_from_identity (Identity.responder address) = if ltb 0x01 address then some address else none

-- `== ClientIdentity::Unknown`
abbrev pub is_unknown_client : ClientIdentity → Bool
is_unknown_client ClientIdentity.unknown = true
is_unknown_client ClientIdentity.initiator = false
is_unknown_client (ClientIdentity.responder _) = false

-- `== ClientIdentity::Initiator`
abbrev pub is_initiator_client : ClientIdentity → Bool
is_initiator_client ClientIdentity.unknown = false
is_initiator_client ClientIdentity.initiator = true
is_initiator_client (ClientIdentity.responder _) = false

-- `if let ClientIdentity::Responder(_) = identity`
abbrev pub is_responder_client : ClientIdentity → Bool
is_responder_client ClientIdentity.unknown = false
is_responder_client ClientIdentity.initiator = false
is_responder_client (ClientIdentity.responder _) = true

-- ===== src/Signaling/Peers.antt =====
-- Which peer an address stands for (`get_peer`, `get_peer_with_address_mut`), for either role.
use saltyrtc_client_rs.Prelude.{
  Option, none, some, nat_eq, if◌then◌else◌, nat_has_eq, string_has_eq, bytes_has_eq, M, pure,
  or_panic, ◌>>=◌, get, Panic,
}
use saltyrtc_client_rs.External.{PublicKey}
use saltyrtc_client_rs.Errors.{ValidationError}
use saltyrtc_client_rs.Types.{Identity, Address, identity_from_address, address_from_identity}
use saltyrtc_client_rs.State.{SignalingState, signaling_state_eq}
use saltyrtc_client_rs.Csn.{PeerSequenceNumbers, combined_sequence_number, snapshot_number}
use saltyrtc_client_rs.Deps.{Deps}
use saltyrtc_client_rs.Context.{ResponderContext, PeerContext, csn_pair}
use saltyrtc_client_rs.Prelude.Dict.{lookup, insert}
use saltyrtc_client_rs.Signaling.{
  InitiatorSignaling, ResponderSignaling, Signaling, dispatch, set_server,
}

abbrev responder_peer : Option ResponderContext → Option PeerContext
responder_peer none = none
responder_peer (some r) = some (PeerContext.responder r)

module _ {dep : Deps} where
  -- `InitiatorSignaling::get_peer` and `ResponderSignaling::get_peer`
  unfoldable pub get_peer : Signaling dep → Option PeerContext
  get_peer (Signaling.initiator s) = elim s.responder [
    | none ↦ none
    | some r ↦ some (PeerContext.responder r)
  ]
  get_peer (Signaling.responder s) = some (PeerContext.initiator s.initiator)

  -- The chosen responder, if the address is its own.
  chosen_responder :
      Address
      → Option ResponderContext
      → M (InitiatorSignaling dep) ValidationError (Option PeerContext)
  unfolding address_from_identity
  chosen_responder addr none = pure none
  chosen_responder addr (some r) = do
    peer_addr ←
        or_panic (address_from_identity (Identity.responder r.address)) Panic.address_out_of_range
    pure (if nat_eq peer_addr addr then some (PeerContext.responder r) else none)

  -- `InitiatorSignaling::get_peer_with_address_mut`
  unfoldable pub initiator_peer :
      Address → M (InitiatorSignaling dep) ValidationError (Option PeerContext)
  unfolding chosen_responder identity_from_address lookup signaling_state_eq
  initiator_peer addr = do
    s ← get
    elim (identity_from_address addr) [
      | Identity.server ↦ pure (some (PeerContext.server s.common.server))
      | Identity.initiator ↦ pure none
      | Identity.responder _ ↦
          if signaling_state_eq s.common.signaling_state SignalingState.task
          then chosen_responder addr s.responder
          else pure (responder_peer (lookup addr s.responders))
    ]

  -- A write through the reference that `initiator_peer` returned.
  unfoldable pub set_initiator_peer :
      Address → PeerContext → InitiatorSignaling dep → InitiatorSignaling dep
  unfolding insert signaling_state_eq
  set_initiator_peer addr (PeerContext.server c) s = record s { common = set_server c s.common }
  set_initiator_peer addr (PeerContext.initiator c) s = s
  set_initiator_peer addr (PeerContext.responder c) s =
      if signaling_state_eq s.common.signaling_state SignalingState.task
      then record s { responder = some c }
      else record s { responders = insert addr c s.responders }

  -- `ResponderSignaling::get_peer_with_address_mut`
  unfoldable pub responder_peer_with_address :
      Address → M (ResponderSignaling dep) ValidationError (Option PeerContext)
  unfolding identity_from_address
  responder_peer_with_address addr = do
    s ← get
    elim (identity_from_address addr) [
      | Identity.server ↦ pure (some (PeerContext.server s.common.server))
      | Identity.initiator ↦ pure (some (PeerContext.initiator s.initiator))
      | Identity.responder _ ↦ pure none
    ]

  unfoldable pub set_responder_peer : PeerContext → ResponderSignaling dep → ResponderSignaling dep
  set_responder_peer (PeerContext.server c) s = record s { common = set_server c s.common }
  set_responder_peer (PeerContext.initiator c) s = record s { initiator = c }
  set_responder_peer (PeerContext.responder c) s = s

  -- `get_peer_with_address_mut`, and a write through its result
  unfoldable pub get_peer_with_address :
      Address → M (Signaling dep) ValidationError (Option PeerContext)
  unfolding initiator_peer responder_peer_with_address
  get_peer_with_address addr = dispatch (initiator_peer addr) (responder_peer_with_address addr)

  unfoldable pub set_peer : Address → PeerContext → Signaling dep → Signaling dep
  unfolding set_initiator_peer set_responder_peer
  set_peer addr p (Signaling.initiator s) = Signaling.initiator (set_initiator_peer addr p s)
  set_peer addr p (Signaling.responder s) = Signaling.responder (set_responder_peer p s)

  -- `initiator_pubkey`
  unfoldable pub initiator_pubkey : Signaling dep → PublicKey
  initiator_pubkey (Signaling.initiator s) = s.common.permanent_keypair.public_key
  initiator_pubkey (Signaling.responder s) = s.initiator.permanent_key

  -- `current_peer_sequence_numbers`
  unfoldable pub current_peer_sequence_numbers : Signaling dep → Option PeerSequenceNumbers
  unfolding get_peer combined_sequence_number snapshot_number
  current_peer_sequence_numbers s = elim (get_peer s) [
    | none ↦ none
    | some peer ↦ elim (csn_pair peer).theirs [
      | none ↦ none
      | some theirs ↦ some (record {
        incoming = snapshot_number theirs;
        outgoing = combined_sequence_number (csn_pair peer).ours;
      })
    ]
  ]

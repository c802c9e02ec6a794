-- ===== src/Signaling/Validate.antt =====
-- `validate_nonce` and its four parts, in src/protocol/mod.rs.
pub mod Replay
pub mod Cookies
use saltyrtc_client_rs.Prelude.{
  not, ◌&&◌, Option, none, some, nat_eq, bytes_eq, if◌then◌else◌, nat_has_eq, string_has_eq,
  bytes_has_eq, ok, err, M, or_throw, or_panic, ◌>>=◌, ◌>>◌, get, gets, modify, throw_if, Panic,
}
use saltyrtc_client_rs.Errors.{SignalingError, ValidationError}
use saltyrtc_client_rs.Types.{
  Role, is_initiator_role, ClientIdentity, is_unknown, is_initiator, is_responder,
  address_from_client, is_unknown_client, is_initiator_client, is_responder_client,
}
use saltyrtc_client_rs.State.{is_server_new}
use saltyrtc_client_rs.Csn.{
  CombinedSequenceSnapshot, CombinedSequencePair, snapshot_lt, snapshot_eq,
}
use saltyrtc_client_rs.Cookie.{Cookie, CookiePair}
use saltyrtc_client_rs.Nonce.{Nonce}
use saltyrtc_client_rs.Deps.{Deps}
use saltyrtc_client_rs.Context.{PeerContext, csn_pair, cookie_pair, set_csn_pair, set_cookie_pair}
use saltyrtc_client_rs.Signaling.{
  Common, InitiatorSignaling, ResponderSignaling, Signaling, common, dispatch,
}
use saltyrtc_client_rs.Signaling.Peers.{get_peer_with_address, set_peer}

-- The error for an address with no peer: a message of a dropped responder may be in flight.
unfoldable pub missing_peer : Role → Nonce → ValidationError
unfolding is_initiator_role is_responder
missing_peer role nonce =
    if is_initiator_role role && is_responder nonce.source
    then ValidationError.drop_msg
    else ValidationError.crash

-- The CSN pair after a nonce, or the error `Fail`.
unfoldable pub accept_csn :
    CombinedSequenceSnapshot → CombinedSequencePair → Option CombinedSequencePair
unfolding snapshot_lt snapshot_eq
accept_csn current pair = elim pair.theirs [
  | some previous ↦
      if snapshot_lt current previous
      then none
      else if snapshot_eq current previous
      then none
      else some (record pair { theirs = some current })
  | none ↦
      if not (nat_eq current.overflow 0) then none else some (record pair { theirs = some current })
]

-- The cookie pair after a nonce, or the error `Fail`.
unfoldable pub accept_cookie : Cookie → CookiePair → Option CookiePair
unfolding bytes_eq
accept_cookie cookie pair = elim pair.theirs [
  | none ↦ if bytes_eq cookie pair.ours then none else some (record pair { theirs = some cookie })
  | some known ↦ if not (bytes_eq cookie known) then none else some pair
]

-- `validate_repeated_cookie`
unfoldable pub validate_repeated_cookie :
    {S : Type 0} → Cookie → Cookie → M S SignalingError (Unit {0})
unfolding bytes_eq
validate_repeated_cookie repeated_cookie our_cookie =
    throw_if (not (bytes_eq repeated_cookie our_cookie)) SignalingError.protocol

module _ {dep : Deps} where
  -- The first half of `InitiatorSignaling::validate_nonce_destination`: the identity after it, or
  -- `none` for the error `Fail`.
  unfoldable pub initiator_assigned : Nonce → Common dep → Option ClientIdentity
  unfolding is_unknown is_initiator
  initiator_assigned nonce c =
      if is_unknown_client c.identity
        && not (is_unknown nonce.destination)
        && not (is_server_new c.server.handshake_state)
      then (if is_initiator nonce.destination then some ClientIdentity.initiator else none)
      else some c.identity

  -- `InitiatorSignaling::validate_nonce_destination`
  unfoldable pub initiator_validate_destination :
      Nonce → M (InitiatorSignaling dep) ValidationError (Unit {0})
  unfolding initiator_assigned address_from_client
  initiator_validate_destination nonce = do
    s ← get
    own ← or_throw (initiator_assigned nonce s.common) ValidationError.fail
    modify (λ t. record t { common = record (t.common) { identity = own } })
    address ← or_panic (address_from_client own) Panic.address_out_of_range
    throw_if (not (nat_eq nonce.destination address)) ValidationError.fail

  -- The first half of `ResponderSignaling::validate_nonce_destination`: the identity after it, or
  -- `none` for the error `Fail`.
  unfoldable pub responder_assigned : Nonce → Common dep → Option ClientIdentity
  unfolding is_unknown is_responder
  responder_assigned nonce c =
      if is_unknown_client c.identity
        && not (is_unknown nonce.destination)
        && not (is_server_new c.server.handshake_state)
      then (if is_responder nonce.destination
          then some (ClientIdentity.responder nonce.destination)
          else none)
      else some c.identity

  -- `ResponderSignaling::validate_nonce_destination`
  unfoldable pub responder_validate_destination :
      Nonce → M (ResponderSignaling dep) ValidationError (Unit {0})
  unfolding responder_assigned address_from_client
  responder_validate_destination nonce = do
    s ← get
    own ← or_throw (responder_assigned nonce s.common) ValidationError.fail
    modify (λ t. record t { common = record (t.common) { identity = own } })
    address ← or_panic (address_from_client own) Panic.address_out_of_range
    throw_if (not (nat_eq nonce.destination address)) ValidationError.fail

  -- `InitiatorSignaling::validate_nonce_source`
  unfoldable pub initiator_validate_source :
      Nonce → M (InitiatorSignaling dep) ValidationError (Unit {0})
  initiator_validate_source nonce s =
      if nat_eq nonce.source 0x00
      then ok tt s
      else if nat_eq nonce.source 0x01
      then err ValidationError.drop_msg s
      else if is_initiator_client s.common.identity
      then ok tt s
      else err ValidationError.drop_msg s

  -- `ResponderSignaling::validate_nonce_source`
  unfoldable pub responder_validate_source :
      Nonce → M (ResponderSignaling dep) ValidationError (Unit {0})
  responder_validate_source nonce s =
      if nat_eq nonce.source 0x00
      then ok tt s
      else if nat_eq nonce.source 0x01
      then if is_responder_client s.common.identity then ok tt s else err ValidationError.drop_msg s
      else err ValidationError.drop_msg s

  unfoldable pub validate_nonce_destination : Nonce → M (Signaling dep) ValidationError (Unit {0})
  unfolding initiator_validate_destination responder_validate_destination
  validate_nonce_destination nonce =
      dispatch (initiator_validate_destination nonce) (responder_validate_destination nonce)

  unfoldable pub validate_nonce_source : Nonce → M (Signaling dep) ValidationError (Unit {0})
  unfolding initiator_validate_source responder_validate_source
  validate_nonce_source nonce =
      dispatch (initiator_validate_source nonce) (responder_validate_source nonce)

  -- The peer that the nonce comes from.
  unfoldable pub source_peer : Nonce → M (Signaling dep) ValidationError PeerContext
  unfolding get_peer_with_address missing_peer
  source_peer nonce = do
    role ← gets (λ s. (common s).role)
    peer ← get_peer_with_address nonce.source
    or_throw peer (missing_peer role nonce)

  unfoldable pub validate_nonce_csn : Nonce → M (Signaling dep) ValidationError (Unit {0})
  unfolding source_peer set_peer
  validate_nonce_csn nonce = do
    peer ← source_peer nonce
    pair ← or_throw (accept_csn nonce.csn (csn_pair peer)) ValidationError.fail
    modify (set_peer nonce.source (set_csn_pair pair peer))

  unfoldable pub validate_nonce_cookie : Nonce → M (Signaling dep) ValidationError (Unit {0})
  unfolding source_peer set_peer
  validate_nonce_cookie nonce = do
    peer ← source_peer nonce
    pair ← or_throw (accept_cookie nonce.cookie (cookie_pair peer)) ValidationError.fail
    modify (set_peer nonce.source (set_cookie_pair pair peer))

  unfoldable pub validate_nonce : Nonce → M (Signaling dep) ValidationError (Unit {0})
  validate_nonce nonce = do
    validate_nonce_destination nonce
    validate_nonce_source nonce
    validate_nonce_csn nonce
    validate_nonce_cookie nonce

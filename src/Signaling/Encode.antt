-- ===== src/Signaling/Encode.antt =====
-- What the client sends: nonces, `drop-responder`, task and close messages, raw encryption.
pub mod Sending
use saltyrtc_client_rs.Prelude.{
  ℕ, not, none, some, List, nat_has_eq, string_has_eq, bytes_has_eq, ok, err, panic, M, pure,
  or_throw, or_panic, ◌>>=◌, ◌>>◌, get, gets, throw_if, zoom, Panic,
}
use saltyrtc_client_rs.Errors.{SignalingError}
use saltyrtc_client_rs.Types.{
  is_initiator_role, Identity, ClientIdentity, Address, address_from_client, address_from_identity,
}
use saltyrtc_client_rs.State.{SignalingState, signaling_state_eq}
use saltyrtc_client_rs.CloseCode.{CloseCode}
use saltyrtc_client_rs.Csn.{CombinedSequenceSnapshot}
use saltyrtc_client_rs.Nonce.{Nonce}
use saltyrtc_client_rs.Messages.{Message, DropReason, with_reason, from_close_code}
use saltyrtc_client_rs.Deps.{Deps, Value}
use saltyrtc_client_rs.Boxes.{ByteBox, encrypt, encrypt_value}
use saltyrtc_client_rs.Context.{
  PeerContext, identity, session_key, keypair, cookie_pair, increment_ours, increment_peer,
}
use saltyrtc_client_rs.Signaling.{Common, HandleAction, Signaling, common, set_server}
use saltyrtc_client_rs.Signaling.Peers.{get_peer}

module _ {dep : Deps} where
  -- `server().csn_pair().try_write()?.ours.increment()?`
  abbrev pub increment_server : M (Common dep) SignalingError CombinedSequenceSnapshot
  increment_server =
      zoom (λ c. c.server.csn_pair) (λ p c. set_server (record (c.server) { csn_pair = p }) c)
        increment_ours

  -- The nonce of a message to the server.
  unfoldable pub server_nonce : M (Common dep) SignalingError Nonce
  unfolding increment_ours address_from_client address_from_identity
  server_nonce = do
    c ← get
    source ← or_panic (address_from_client c.identity) Panic.address_out_of_range
    destination ← or_panic (address_from_identity Identity.server) Panic.address_out_of_range
    csn ← increment_server
    pure (record {
      cookie = c.server.cookie_pair.ours;
      source = source;
      destination = destination;
      csn = csn;
    })

  -- `send_drop_responder`
  unfoldable pub send_drop_responder :
      Address → DropReason → M (Common dep) SignalingError (HandleAction (Value dep))
  unfolding server_nonce with_reason encrypt is_initiator_role
  send_drop_responder addr reason = do
    c ← get
    throw_if (not (is_initiator_role c.role)) SignalingError.crash
    nonce ← server_nonce
    key ← or_throw c.server.session_key SignalingError.crash
    pure (
        HandleAction.reply (
          encrypt dep c.permanent_keypair key
            (record { message = Message.drop_responder (with_reason addr reason); nonce = nonce })))

-- The nonce of a message to a peer, from the client identity `own`.
unfoldable pub peer_nonce : ClientIdentity → M PeerContext SignalingError Nonce
unfolding increment_ours address_from_client address_from_identity
peer_nonce own = do
  peer ← get
  source ← or_panic (address_from_client own) Panic.address_out_of_range
  destination ← or_panic (address_from_identity (identity peer)) Panic.address_out_of_range
  csn ← increment_peer
  pure (record {
    cookie = (cookie_pair peer).ours;
    source = source;
    destination = destination;
    csn = csn;
  })

module _ (dep : Deps) where
  -- The second half of `encode_task_message`
  unfoldable pub task_message_to : ClientIdentity → Value dep → M PeerContext SignalingError ByteBox
  unfolding peer_nonce encrypt_value
  task_message_to own value = do
    nonce ← peer_nonce own
    peer ← get
    pair ← or_throw (keypair peer) SignalingError.crash
    key ← or_throw (session_key peer) SignalingError.crash
    pure (encrypt_value dep pair key (record { message = value; nonce = nonce }))

  -- The second half of `encode_close_message`
  unfoldable pub close_message_to :
      ClientIdentity → CloseCode → M PeerContext SignalingError ByteBox
  unfolding peer_nonce encrypt from_close_code
  close_message_to own reason = do
    nonce ← peer_nonce own
    peer ← get
    pair ← or_throw (keypair peer) SignalingError.crash
    key ← or_throw (session_key peer) SignalingError.crash
    pure (
        encrypt dep pair key
          (record { message = Message.close (from_close_code reason); nonce = nonce }))

module _ {dep : Deps} where
  -- A write to the peer that `get_peer` returned.
  unfoldable pub set_chosen_peer : PeerContext → Signaling dep → Signaling dep
  set_chosen_peer (PeerContext.responder r) (Signaling.initiator s) =
      Signaling.initiator (record s { responder = some r })
  set_chosen_peer (PeerContext.initiator i) (Signaling.responder s) =
      Signaling.responder (record s { initiator = i })
  set_chosen_peer _ s = s

  -- A call on the peer that `get_peer` returned.
  with_peer : {A : Type 0} → M PeerContext SignalingError A → M (Signaling dep) SignalingError A
  unfolding get_peer set_chosen_peer
  with_peer m s = elim (get_peer s) [
    | none ↦ err SignalingError.crash s
    | some peer ↦ elim (m peer) [
      | ok a peer' ↦ ok a (set_chosen_peer peer' s)
      | err e peer' ↦ err e (set_chosen_peer peer' s)
      | panic p ↦ panic p
    ]
  ]

  unfoldable pub encode_task_message : Value dep → M (Signaling dep) SignalingError ByteBox
  unfolding task_message_to with_peer signaling_state_eq
  encode_task_message value = do
    c ← gets common
    throw_if (not (signaling_state_eq c.signaling_state SignalingState.task)) SignalingError.crash
    with_peer (task_message_to dep c.identity value)

  -- `encode_close_message(reason, None)`
  unfoldable pub encode_close_message : CloseCode → M (Signaling dep) SignalingError ByteBox
  unfolding close_message_to with_peer signaling_state_eq
  encode_close_message reason = do
    c ← gets common
    throw_if (not (signaling_state_eq c.signaling_state SignalingState.task)) SignalingError.crash
    with_peer (close_message_to dep c.identity reason)

  -- `encrypt_raw_with_session_keys`
  unfoldable pub encrypt_raw_with_session_keys :
      List ℕ → List ℕ → M (Signaling dep) SignalingError (List ℕ)
  unfolding get_peer
  encrypt_raw_with_session_keys bytes nonce = do
    s ← get
    peer ← or_throw (get_peer s) SignalingError.no_peer
    key ← or_throw (session_key peer) SignalingError.crash
    pair ← or_throw (keypair peer) SignalingError.crash
    pure (dep.sodium.box_seal bytes nonce key pair.private_key)

  -- `decrypt_raw_with_session_keys`
  unfoldable pub decrypt_raw_with_session_keys :
      List ℕ → List ℕ → M (Signaling dep) SignalingError (List ℕ)
  unfolding get_peer
  decrypt_raw_with_session_keys bytes nonce = do
    s ← get
    peer ← or_throw (get_peer s) SignalingError.no_peer
    key ← or_throw (session_key peer) SignalingError.crash
    pair ← or_throw (keypair peer) SignalingError.crash
    or_throw (dep.sodium.box_open bytes nonce key pair.private_key) SignalingError.crypto

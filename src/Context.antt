-- ===== src/Context.antt =====
-- src/protocol/context.rs: what the client knows of the server, the initiator and a responder.
use saltyrtc_client_rs.Prelude.{
  ℕ, Option, none, some, nat_has_eq, string_has_eq, bytes_has_eq, M, pure, ◌>>=◌, zoom,
}
use saltyrtc_client_rs.External.{Sodium, PublicKey}
use saltyrtc_client_rs.Errors.{SignalingError}
use saltyrtc_client_rs.Types.{Address, Identity}
use saltyrtc_client_rs.State.{
  ServerHandshakeState, InitiatorHandshakeState, ResponderHandshakeState,
}
use saltyrtc_client_rs.Cookie.{CookiePair, new_cookie_pair}
use saltyrtc_client_rs.Csn.{
  CombinedSequence, CombinedSequencePair, CombinedSequenceSnapshot, increment, new_pair,
}
use saltyrtc_client_rs.Crypto.{KeyPair, new_keypair}

pub record ServerContext : Type 0 where
  pub handshake_state : ServerHandshakeState
  pub permanent_key : Option PublicKey
  pub session_key : Option PublicKey
  pub csn_pair : CombinedSequencePair
  pub cookie_pair : CookiePair

pub record InitiatorContext : Type 0 where
  pub handshake_state : InitiatorHandshakeState
  pub permanent_key : PublicKey
  pub session_key : Option PublicKey
  pub keypair : KeyPair
  pub csn_pair : CombinedSequencePair
  pub cookie_pair : CookiePair

pub record ResponderContext : Type 0 where
  pub handshake_state : ResponderHandshakeState
  pub counter : ℕ
  pub address : Address
  pub permanent_key : Option PublicKey
  pub session_key : Option PublicKey
  pub keypair : KeyPair
  pub csn_pair : CombinedSequencePair
  pub cookie_pair : CookiePair

-- `dyn PeerContext`, by the type that implements it
pub data PeerContext : Type 0 where
  server : ServerContext → PeerContext
  initiator : InitiatorContext → PeerContext
  responder : ResponderContext → PeerContext

abbrev pub identity : PeerContext → Identity
identity (PeerContext.server c) = Identity.server
identity (PeerContext.initiator c) = Identity.initiator
identity (PeerContext.responder c) = Identity.responder c.address

abbrev pub permanent_key : PeerContext → Option PublicKey
permanent_key (PeerContext.server c) = c.permanent_key
permanent_key (PeerContext.initiator c) = some c.permanent_key
permanent_key (PeerContext.responder c) = c.permanent_key

abbrev pub session_key : PeerContext → Option PublicKey
session_key (PeerContext.server c) = c.session_key
session_key (PeerContext.initiator c) = c.session_key
session_key (PeerContext.responder c) = c.session_key

abbrev pub keypair : PeerContext → Option KeyPair
keypair (PeerContext.server c) = none
keypair (PeerContext.initiator c) = some c.keypair
keypair (PeerContext.responder c) = some c.keypair

abbrev pub csn_pair : PeerContext → CombinedSequencePair
csn_pair (PeerContext.server c) = c.csn_pair
csn_pair (PeerContext.initiator c) = c.csn_pair
csn_pair (PeerContext.responder c) = c.csn_pair

abbrev pub cookie_pair : PeerContext → CookiePair
cookie_pair (PeerContext.server c) = c.cookie_pair
cookie_pair (PeerContext.initiator c) = c.cookie_pair
cookie_pair (PeerContext.responder c) = c.cookie_pair

-- A write through `csn_pair().try_write()` and through `cookie_pair_mut()`
abbrev pub set_csn_pair : CombinedSequencePair → PeerContext → PeerContext
set_csn_pair p (PeerContext.server c) = PeerContext.server (record c { csn_pair = p })
set_csn_pair p (PeerContext.initiator c) = PeerContext.initiator (record c { csn_pair = p })
set_csn_pair p (PeerContext.responder c) = PeerContext.responder (record c { csn_pair = p })

abbrev pub set_cookie_pair : CookiePair → PeerContext → PeerContext
set_cookie_pair p (PeerContext.server c) = PeerContext.server (record c { cookie_pair = p })
set_cookie_pair p (PeerContext.initiator c) = PeerContext.initiator (record c { cookie_pair = p })
set_cookie_pair p (PeerContext.responder c) = PeerContext.responder (record c { cookie_pair = p })

abbrev set_ours : CombinedSequence → CombinedSequencePair → CombinedSequencePair
set_ours c p = record p { ours = c }

-- `csn_pair().try_write()?.ours.increment()?`
unfoldable pub increment_ours : M CombinedSequencePair SignalingError CombinedSequenceSnapshot
unfolding increment
increment_ours = zoom (λ p. p.ours) set_ours increment

abbrev pub increment_peer : M PeerContext SignalingError CombinedSequenceSnapshot
increment_peer = zoom csn_pair set_csn_pair increment_ours

module _ (so : Sodium) where
  unfoldable pub new_server_context : {E : Type 0} → M so.Rng E ServerContext
  unfolding new_pair new_cookie_pair
  new_server_context = do
    csn ← new_pair so
    cookies ← new_cookie_pair so
    pure (record {
      handshake_state = ServerHandshakeState.new;
      permanent_key = none;
      session_key = none;
      csn_pair = csn;
      cookie_pair = cookies;
    })

  unfoldable pub new_initiator_context : {E : Type 0} → PublicKey → M so.Rng E InitiatorContext
  unfolding new_pair new_cookie_pair new_keypair
  new_initiator_context key = do
    pair ← new_keypair so
    csn ← new_pair so
    cookies ← new_cookie_pair so
    pure (record {
      handshake_state = InitiatorHandshakeState.new;
      permanent_key = key;
      session_key = none;
      keypair = pair;
      csn_pair = csn;
      cookie_pair = cookies;
    })

  unfoldable pub new_responder_context : {E : Type 0} → Address → ℕ → M so.Rng E ResponderContext
  unfolding new_pair new_cookie_pair new_keypair
  new_responder_context address counter = do
    pair ← new_keypair so
    csn ← new_pair so
    cookies ← new_cookie_pair so
    pure (record {
      handshake_state = ResponderHandshakeState.new;
      counter = counter;
      address = address;
      permanent_key = none;
      session_key = none;
      keypair = pair;
      csn_pair = csn;
      cookie_pair = cookies;
    })

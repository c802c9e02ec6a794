-- ===== src/Signaling.antt =====
-- src/protocol/mod.rs: the state of the signaling, shared (`Common`) and by role. Locks are not
-- modelled: every call has the client to itself (`RwLock::write`, or `&mut self`), so `try_write`
-- succeeds. The children have the operations.
pub mod Peers
pub mod Validate
pub mod Encode
pub mod Decode
pub mod Server
pub mod Paths
pub mod Initiator
pub mod Responder
pub mod Handle
pub mod Invariant
pub mod New
pub mod Reach
pub mod Replies
use saltyrtc_client_rs.Prelude.{
  ℕ, zero, suc, ◌+◌, ◌^◌, ◌<◌, ◌≤◌, ◌≡◌, refl, Bool, true, false, not, ◌&&◌, ◌||◌, Option, none,
  some, List, [], ◌∷◌, ◌++◌, String, map, length, take, drop, nat_eq, leb, ltb, bytes_eq,
  if◌then◌else◌, is_some, ◌==◌, nat_has_eq, string_has_eq, bytes_has_eq, any, elem, Step, ok, err,
  panic, M, pure, throw, panics, or_throw, or_panic, ◌>>=◌, ◌>>◌, get, gets, modify, throw_if,
  panic_if, zoom, local, map_err, Panic,
}
use saltyrtc_client_rs.External.{PublicKey}
use saltyrtc_client_rs.Errors.{SignalingError, SaltyError, ValidationError}
use saltyrtc_client_rs.Types.{
  Role, is_initiator_role, is_responder_role, Identity, ClientIdentity, Address,
  identity_from_address, is_server, is_unknown, is_initiator, is_responder, address_from_client,
  address_from_identity, is_unknown_client, is_initiator_client, is_responder_client,
}
use saltyrtc_client_rs.State.{
  SignalingState, ServerHandshakeState, InitiatorHandshakeState, ResponderHandshakeState,
  may_transition_to, signaling_state_eq, is_server_new, is_responder_new,
}
use saltyrtc_client_rs.CloseCode.{CloseCode, from_number}
use saltyrtc_client_rs.Csn.{
  CombinedSequence, CombinedSequenceSnapshot, CombinedSequencePair, PeerSequenceNumbers,
  checked_add, snapshot_lt, snapshot_eq, combined_sequence_number, snapshot_number,
}
use saltyrtc_client_rs.Cookie.{Cookie, CookiePair}
use saltyrtc_client_rs.Nonce.{Nonce}
use saltyrtc_client_rs.Crypto.{
  KeyPair, AuthToken, SignedKeys, UnsignedKeys, signed_keys_decrypt, new_token,
}
use saltyrtc_client_rs.Messages.{
  Message, ClientHello, ServerHello, ClientAuth, ServerAuth, NewResponder, DropResponder,
  DropReason, SendError, Disconnected, Token, Key, Auth, Close, TaskData, with_reason,
  from_close_code, get_type,
}
use saltyrtc_client_rs.Messages.Builders.{
  new_initiator_auth, set_task, build_initiator_auth, new_responder_auth, add_tasks,
  build_responder_auth,
}
use saltyrtc_client_rs.Deps.{Deps, Value, BoxedTask, Rng}
use saltyrtc_client_rs.Tasks.{TaskMessage, choose_shared_task, find_task}
use saltyrtc_client_rs.Boxes.{
  OpenBox, ByteBox, encode, encrypt, encrypt_token, encrypt_value, decode, decrypt, decrypt_token,
  decrypt_value,
}
use saltyrtc_client_rs.Context.{
  ServerContext, InitiatorContext, ResponderContext, PeerContext, identity, permanent_key,
  session_key, keypair, csn_pair, cookie_pair, set_csn_pair, set_cookie_pair, increment_ours,
  increment_peer, new_server_context, new_initiator_context, new_responder_context,
}
use saltyrtc_client_rs.Prelude.Dict.{Dict, lookup, insert, remove, contains_key, keys, values}

-- `enum Event` of src/lib.rs
pub data Event : Type 0 where
  server_handshake_done : Bool → Event
  peer_handshake_done : Event
  disconnected : ℕ → Event

-- `enum HandleAction` of src/protocol/types.rs
pub data HandleAction (V : Type 0) : Type 0 where
  reply : ByteBox → HandleAction V
  handshake_error : SaltyError → HandleAction V
  handshake_done : HandleAction V
  event : Event → HandleAction V
  task_message : TaskMessage V → HandleAction V

abbrev pub Actions : Deps → Type 0
Actions dep = List (HandleAction (Value dep))

pub data AuthProvider : Type 0 where
  token : AuthToken → AuthProvider
  trusted_key : PublicKey → AuthProvider

-- `rng` is no field of the source: it is the state of libsodium's generator, which every `random`
-- and `KeyPair::new` advances. `ping_interval` is in whole seconds. The mutex round the chosen task
-- is left out.
pub record Common (dep : Deps) : Type 0 where
  pub signaling_state : SignalingState
  pub permanent_keypair : KeyPair
  pub auth_provider : Option AuthProvider
  pub role : Role
  pub identity : ClientIdentity
  pub server : ServerContext
  pub tasks : Option (List (BoxedTask dep))
  pub task : Option (BoxedTask dep)
  pub task_supported_types : Option (List String)
  pub ping_interval : Option ℕ
  pub rng : Rng dep

-- `struct ResponderCounter(u32)`
abbrev pub ResponderCounter : Type 0
ResponderCounter = ℕ

-- `ResponderCounter::increment`
unfoldable pub increment_counter : M ResponderCounter SignalingError ℕ
unfolding checked_add
increment_counter = do
  old_val ← get
  new_val ← or_throw (checked_add 32 old_val 1) SignalingError.crash
  modify (λ _. new_val)
  pure old_val

pub record InitiatorSignaling (dep : Deps) : Type 0 where
  pub common : Common dep
  pub responders : Dict Address ResponderContext
  pub responder : Option ResponderContext
  pub responder_counter : ResponderCounter

pub record ResponderSignaling (dep : Deps) : Type 0 where
  pub common : Common dep
  pub initiator : InitiatorContext

-- `dyn Signaling`, by the type that implements it
pub data Signaling (dep : Deps) : Type 0 where
  initiator : InitiatorSignaling dep → Signaling dep
  responder : ResponderSignaling dep → Signaling dep

module _ {dep : Deps} where
  abbrev pub common : Signaling dep → Common dep
  common (Signaling.initiator s) = s.common
  common (Signaling.responder s) = s.common

  abbrev pub set_common : Common dep → Signaling dep → Signaling dep
  set_common c (Signaling.initiator s) = Signaling.initiator (record s { common = c })
  set_common c (Signaling.responder s) = Signaling.responder (record s { common = c })

  -- A call of a method that the trait defines on the shared data.
  abbrev pub in_common : {E A : Type 0} → M (Common dep) E A → M (Signaling dep) E A
  in_common m = zoom common set_common m

  abbrev pub in_initiator_common :
      {E A : Type 0} → M (Common dep) E A → M (InitiatorSignaling dep) E A
  in_initiator_common m = zoom (λ s. s.common) (λ c s. record s { common = c }) m

  abbrev pub in_responder_common :
      {E A : Type 0} → M (Common dep) E A → M (ResponderSignaling dep) E A
  in_responder_common m = zoom (λ s. s.common) (λ c s. record s { common = c }) m

  -- A method that each of the two types has its own version of.
  abbrev pub dispatch :
      {E A : Type 0}
      → M (InitiatorSignaling dep) E A
      → M (ResponderSignaling dep) E A
      → M (Signaling dep) E A
  dispatch m n (Signaling.initiator s) = elim (m s) [
    | ok a t ↦ ok a (Signaling.initiator t)
    | err e t ↦ err e (Signaling.initiator t)
    | panic p ↦ panic p
  ]
  dispatch m n (Signaling.responder s) = elim (n s) [
    | ok a t ↦ ok a (Signaling.responder t)
    | err e t ↦ err e (Signaling.responder t)
    | panic p ↦ panic p
  ]

  -- `Common::set_signaling_state`
  unfoldable pub set_signaling_state : SignalingState → M (Common dep) SignalingError (Unit {0})
  unfolding signaling_state_eq may_transition_to
  set_signaling_state state c =
      if signaling_state_eq c.signaling_state state
      then ok tt c
      else if not (may_transition_to c.signaling_state state)
      then err SignalingError.invalid_state_transition c
      else ok tt (record c { signaling_state = state })

  -- `Signaling::auth_token`
  unfoldable pub auth_token : Signaling dep → Option AuthToken
  auth_token s = elim (common s).auth_provider [
    | some (AuthProvider.token t) ↦ some t
    | some (AuthProvider.trusted_key _) ↦ none
    | none ↦ none
  ]

  abbrev pub in_rng : {E A : Type 0} → M (Rng dep) E A → M (Common dep) E A
  in_rng m = zoom (λ c. c.rng) (λ g c. record c { rng = g }) m

  abbrev pub set_server : ServerContext → Common dep → Common dep
  set_server ctx c = record c { server = ctx }

  -- `server_mut().set_handshake_state(..)`
  abbrev pub set_server_handshake_state : ServerHandshakeState → Common dep → Common dep
  set_server_handshake_state state c = set_server (record (c.server) { handshake_state = state }) c

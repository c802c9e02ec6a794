-- ===== src/Signaling/Initiator.antt =====
-- The initiator's side of the peer handshake: `handle_token`, `handle_key`, `handle_auth`.
pub mod Tokens
use saltyrtc_client_rs.Prelude.{
  Bool, true, false, not, ◌&&◌, Option, none, some, List, [], ◌∷◌, ◌++◌, String, length, nat_eq,
  bytes_eq, is_some, nat_has_eq, string_has_eq, bytes_has_eq, ok, err, panic, M, pure, throw,
  or_throw, or_panic, Panic, ◌>>=◌, ◌>>◌, get, modify, throw_if, zoom, local,
}
use saltyrtc_client_rs.External.{PublicKey}
use saltyrtc_client_rs.Errors.{SignalingError, SaltyError}
use saltyrtc_client_rs.Types.{ClientIdentity, Address, address_from_client}
use saltyrtc_client_rs.State.{SignalingState, ResponderHandshakeState}
use saltyrtc_client_rs.CloseCode.{CloseCode}
use saltyrtc_client_rs.Crypto.{KeyPair}
use saltyrtc_client_rs.Nonce.{Nonce}
use saltyrtc_client_rs.Messages.{Message, DropReason, Token, Key, Auth, TaskData}
use saltyrtc_client_rs.Messages.Builders.{new_initiator_auth, set_task, build_initiator_auth}
use saltyrtc_client_rs.Deps.{Deps, Value, BoxedTask}
use saltyrtc_client_rs.Tasks.{choose_shared_task}
use saltyrtc_client_rs.Boxes.{OpenBox, encrypt}
use saltyrtc_client_rs.Context.{ResponderContext, PeerContext, permanent_key, increment_ours}
use saltyrtc_client_rs.Prelude.Dict.{Dict, lookup, insert, remove, contains_key, keys}
use saltyrtc_client_rs.Signaling.{
  Common, AuthProvider, HandleAction, Actions, InitiatorSignaling, in_initiator_common,
  set_signaling_state,
}
use saltyrtc_client_rs.Signaling.Encode.{send_drop_responder, peer_nonce, close_message_to}
use saltyrtc_client_rs.Signaling.Validate.{validate_repeated_cookie}

-- Whether the auth provider is a token
abbrev has_token : Option AuthProvider → Bool
has_token (some (AuthProvider.token _)) = true
has_token (some (AuthProvider.trusted_key _)) = false
has_token none = false

abbrev to_responder : PeerContext → ResponderContext → ResponderContext
to_responder (PeerContext.responder r) old = r
to_responder (PeerContext.server _) old = old
to_responder (PeerContext.initiator _) old = old

-- A call on the context of a responder
abbrev pub on_responder : {E A : Type 0} → M PeerContext E A → M ResponderContext E A
on_responder m = zoom PeerContext.responder to_responder m

-- The nonce of the `auth` message: the destination is the responder's address as it is.
unfoldable pub auth_nonce : ClientIdentity → M ResponderContext SignalingError Nonce
unfolding increment_ours address_from_client
auth_nonce own = do
  r ← get
  source ← or_panic (address_from_client own) Panic.address_out_of_range
  csn ← zoom (λ r. r.csn_pair) (λ p r. record r { csn_pair = p }) increment_ours
  pure (record { cookie = r.cookie_pair.ours; source = source; destination = r.address; csn = csn })

module _ (dep : Deps) where
  -- The reply of `handle_key`, under the permanent keys. The responder's context is the state.
  unfoldable pub key_reply :
      ClientIdentity → KeyPair → PublicKey → M PeerContext SignalingError (HandleAction (Value dep))
  unfolding peer_nonce encrypt
  key_reply own permanent_keypair our_session_key = do
    nonce ← peer_nonce own
    peer ← get
    key ← or_throw (permanent_key peer) SignalingError.crash
    pure (
        HandleAction.reply (
          encrypt dep permanent_keypair key
            (record { message = Message.key (record { key = our_session_key }); nonce = nonce })))

  -- `handle_key`, on the responder's context
  unfoldable pub responder_key :
      ClientIdentity → KeyPair → Key → M ResponderContext SignalingError (Actions dep)
  unfolding key_reply bytes_eq
  responder_key own permanent_keypair msg = do
    r ← get
    throw_if (is_some r.session_key) SignalingError.crash
    permanent ← or_throw r.permanent_key SignalingError.crash
    throw_if (bytes_eq permanent msg.key) SignalingError.protocol
    modify (λ r. record r {
      session_key = some msg.key;
      handshake_state = ResponderHandshakeState.key_received;
    })
    reply ← on_responder (key_reply own permanent_keypair r.keypair.public_key)
    modify (λ r. record r { handshake_state = ResponderHandshakeState.key_sent })
    pure (reply ∷ [])

  -- Every proposed task has its entry in `data`.
  all_contained : List String → Dict String (TaskData (Value dep)) → Bool
  unfolding lookup
  all_contained [] entries = true
  all_contained (t ∷ ts) entries = contains_key t entries && all_contained ts entries

  -- The reply of `handle_auth`, under the session keys. The responder's context is the state.
  unfoldable pub auth_reply :
      ClientIdentity → BoxedTask dep → M ResponderContext SignalingError (HandleAction (Value dep))
  unfolding new_initiator_auth set_task build_initiator_auth auth_nonce encrypt
  auth_reply own chosen_task = do
    r ← get
    cookie ← or_throw r.cookie_pair.theirs SignalingError.crash
    auth ← build_initiator_auth (
        set_task (dep.task.name chosen_task) (dep.task.task_data chosen_task)
          (new_initiator_auth cookie))
    nonce ← auth_nonce own
    key ← or_throw r.session_key SignalingError.crash
    pure (
        HandleAction.reply
          (encrypt dep r.keypair key (record { message = Message.auth auth; nonce = nonce })))

  -- The checks of `handle_auth` on the message, which give the proposed tasks
  unfoldable pub check_auth :
      {S : Type 0} → Auth (Value dep) → ResponderContext → M S SignalingError (List String)
  unfolding validate_repeated_cookie all_contained
  check_auth msg responder = do
    validate_repeated_cookie msg.your_cookie responder.cookie_pair.ours
    throw_if (is_some msg.task) SignalingError.invalid_message
    proposed_tasks ← or_throw msg.tasks SignalingError.invalid_message
    throw_if (nat_eq (length proposed_tasks) 0) SignalingError.invalid_message
    throw_if (not (nat_eq (length msg.entries) (length proposed_tasks)))
        SignalingError.invalid_message
    throw_if (not (all_contained proposed_tasks msg.entries)) SignalingError.invalid_message
    pure proposed_tasks

module _ {dep : Deps} where
  abbrev set_responder :
      Address → ResponderContext → InitiatorSignaling dep → InitiatorSignaling dep
  set_responder addr r s = record s { responders = insert addr r s.responders }

  unfoldable pub handle_token :
      Token → Address → M (InitiatorSignaling dep) SignalingError (Actions dep)
  unfolding lookup insert
  handle_token msg source = do
    s ← get
    responder ← or_throw (lookup source s.responders) SignalingError.crash
    throw_if (is_some responder.permanent_key) SignalingError.crash
    modify (
        set_responder source (record responder {
          permanent_key = some msg.key;
          handshake_state = ResponderHandshakeState.token_received;
        }))
    throw_if (not (has_token s.common.auth_provider)) SignalingError.crash
    modify (λ t. record t { common = record (t.common) { auth_provider = none } })
    pure []

  unfoldable pub handle_key :
      Key → Address → M (InitiatorSignaling dep) SignalingError (Actions dep)
  unfolding lookup insert
  handle_key msg source = do
    s ← get
    responder ← or_throw (lookup source s.responders) SignalingError.crash
    zoom (λ _. responder) (set_responder source)
        (responder_key dep s.common.identity s.common.permanent_keypair msg)

  -- No shared task: a close message, if it can be encoded, and the error
  unfoldable pub no_shared_task :
      ClientIdentity → ResponderContext → M (InitiatorSignaling dep) SignalingError (Actions dep)
  unfolding close_message_to
  no_shared_task own responder s =
      elim (close_message_to dep own CloseCode.no_shared_task (PeerContext.responder responder)) [
        | ok bbox _ ↦
            ok
              (HandleAction.reply bbox
                ∷ HandleAction.handshake_error SaltyError.no_shared_task
                ∷ [])
              s
        | err _ _ ↦ ok (HandleAction.handshake_error SaltyError.no_shared_task ∷ []) s
        | panic p ↦ panic p
      ]

  -- The loop that drops the other responders
  unfoldable pub drop_responders : List Address → M (Common dep) SignalingError (Actions dep)
  drop_responders [] = pure []
  drop_responders (a ∷ as') = do
    drop_responder ← send_drop_responder a DropReason.dropped_by_initiator
    rest ← drop_responders as'
    pure (drop_responder ∷ rest)

  -- The end of `handle_auth`: the task and the responder are stored, and the task phase begins.
  unfoldable pub begin_task :
      BoxedTask dep → ResponderContext → M (InitiatorSignaling dep) SignalingError (Unit {0})
  begin_task chosen_task replied = do
    modify (λ t. record t {
      common = record (t.common) {
        task_supported_types = some (dep.task.supported_types chosen_task);
        task = some chosen_task;
      };
    })
    in_initiator_common (set_signaling_state SignalingState.task)
    modify (λ t. record t {
      responder = some (record replied { handshake_state = ResponderHandshakeState.auth_sent });
    })

  -- The other responders are dropped.
  unfoldable pub drop_others : M (InitiatorSignaling dep) SignalingError (Actions dep)
  unfolding keys
  drop_others = do
    s ← get
    drops ← in_initiator_common (drop_responders (dep.iter_order (keys s.responders)))
    modify (λ t. record t { responders = [] })
    pure drops

  -- The responder is answered, and the task phase begins.
  unfoldable pub answer_auth :
      ResponderContext → BoxedTask dep → M (InitiatorSignaling dep) SignalingError (Actions dep)
  answer_auth responder chosen_task = do
    s ← get
    (reply, replied) ←
        local (auth_reply dep s.common.identity chosen_task)
          (record responder { handshake_state = ResponderHandshakeState.auth_received })
    begin_task chosen_task replied
    pure (reply ∷ HandleAction.handshake_done ∷ [])

  -- `handle_auth`, once the task is initialised
  unfoldable pub accept_responder :
      ResponderContext → BoxedTask dep → M (InitiatorSignaling dep) SignalingError (Actions dep)
  accept_responder responder chosen_task = do
    drops ← drop_others
    replies ← answer_auth responder chosen_task
    pure (drops ++ replies)

  -- `handle_auth`, once the task is chosen
  unfoldable pub accept_auth :
      Auth (Value dep)
      → ResponderContext
      → BoxedTask dep
      → M (InitiatorSignaling dep) SignalingError (Actions dep)
  unfolding lookup
  accept_auth msg responder task = do
    entry ← or_throw (lookup (dep.task.name task) msg.entries) SignalingError.crash
    chosen_task ← or_throw (dep.task.init task entry) SignalingError.task_initialization
    accept_responder responder chosen_task

  -- The end of `handle_auth`, by the task that was chosen
  unfoldable pub settle_task :
      Auth (Value dep)
      → ResponderContext
      → ClientIdentity
      → Option (BoxedTask dep)
      → M (InitiatorSignaling dep) SignalingError (Actions dep)
  settle_task msg responder own (some task) = accept_auth msg responder task
  settle_task msg responder own none = no_shared_task own responder

  -- `handle_auth`, once the responder is taken out of the table
  unfoldable pub negotiate :
      Auth (Value dep) → ResponderContext → M (InitiatorSignaling dep) SignalingError (Actions dep)
  unfolding choose_shared_task
  negotiate msg responder = do
    proposed_tasks ← check_auth dep msg responder
    s ← get
    modify (λ t. record t { common = record (t.common) { tasks = none } })
    our_tasks ← or_throw s.common.tasks SignalingError.crash
    settle_task msg responder s.common.identity
        (choose_shared_task dep.task our_tasks proposed_tasks)

  unfoldable pub handle_auth :
      Auth (Value dep) → Address → M (InitiatorSignaling dep) SignalingError (Actions dep)
  unfolding lookup remove
  handle_auth msg source = do
    s ← get
    responder ← or_throw (lookup source s.responders) SignalingError.crash
    modify (λ t. record t { responders = remove source t.responders })
    negotiate msg responder

  -- The match of `InitiatorSignaling::handle_peer_message`
  unfoldable pub handle_responder_message :
      ResponderHandshakeState
      → Message (Value dep)
      → Address
      → M (InitiatorSignaling dep) SignalingError (Actions dep)
  handle_responder_message ResponderHandshakeState.new (Message.token msg) source =
      handle_token msg source
  handle_responder_message ResponderHandshakeState.token_received (Message.key msg) source =
      handle_key msg source
  handle_responder_message ResponderHandshakeState.key_sent (Message.auth msg) source =
      handle_auth msg source
  handle_responder_message _ _ source = throw SignalingError.invalid_state_transition

  -- `InitiatorSignaling::handle_peer_message`
  unfoldable pub initiator_handle_peer_message :
      OpenBox (Message (Value dep)) → M (InitiatorSignaling dep) SignalingError (Actions dep)
  unfolding lookup
  initiator_handle_peer_message obox = do
    s ← get
    responder ← or_throw (lookup obox.nonce.source s.responders) SignalingError.crash
    handle_responder_message responder.handshake_state obox.message obox.nonce.source

-- ===== src/Signaling/Responder.antt =====
-- The responder's side of the peer handshake, and its part of the server's messages.
pub mod Outcome
use saltyrtc_client_rs.Prelude.{
  true, false, not, Option, none, some, List, [], ◌∷◌, ◌++◌, String, length, nat_eq, ltb, bytes_eq,
  is_some, nat_has_eq, string_has_eq, bytes_has_eq, M, pure, throw, or_throw, ◌>>=◌, ◌>>◌, get,
  modify, throw_if, zoom,
}
use saltyrtc_client_rs.Errors.{SignalingError}
use saltyrtc_client_rs.Types.{is_initiator}
use saltyrtc_client_rs.State.{SignalingState, InitiatorHandshakeState}
use saltyrtc_client_rs.CloseCode.{CloseCode, from_number}
use saltyrtc_client_rs.Cookie.{Cookie}
use saltyrtc_client_rs.Nonce.{Nonce}
use saltyrtc_client_rs.Crypto.{AuthToken}
use saltyrtc_client_rs.Messages.{Message, ServerAuth, Disconnected, Key, Auth, Close, TaskData}
use saltyrtc_client_rs.Messages.Builders.{new_responder_auth, add_tasks, build_responder_auth}
use saltyrtc_client_rs.Deps.{Deps, Value, BoxedTask}
use saltyrtc_client_rs.Tasks.{find_task}
use saltyrtc_client_rs.Boxes.{OpenBox, encrypt, encrypt_token}
use saltyrtc_client_rs.Context.{InitiatorContext, PeerContext, new_initiator_context}
use saltyrtc_client_rs.Prelude.Dict.{Dict, lookup}
use saltyrtc_client_rs.Signaling.{
  AuthProvider, HandleAction, Event, Actions, ResponderSignaling, in_responder_common,
  set_signaling_state, in_rng,
}
use saltyrtc_client_rs.Signaling.Encode.{peer_nonce}
use saltyrtc_client_rs.Signaling.Validate.{validate_repeated_cookie}

abbrev to_initiator : PeerContext → InitiatorContext → InitiatorContext
to_initiator (PeerContext.initiator c) old = c
to_initiator (PeerContext.server _) old = old
to_initiator (PeerContext.responder _) old = old

-- The `auth` message that proposes our tasks, as `handle_key` builds it
unfoldable pub proposal :
    {S : Type 0} (dep : Deps)
    → List (BoxedTask dep)
    → Cookie
    → M S SignalingError (Auth (Value dep))
proposal dep tasks cookie = do
  builder ← add_tasks dep.task tasks (new_responder_auth cookie)
  build_responder_auth builder

module _ {dep : Deps} where
  -- A call on the context of the initiator
  abbrev pub on_initiator : {E A : Type 0} → M PeerContext E A → M (ResponderSignaling dep) E A
  on_initiator m =
      zoom (λ s. PeerContext.initiator s.initiator)
        (λ p s. record s { initiator = to_initiator p s.initiator }) m

  unfoldable pub send_token :
      AuthToken → M (ResponderSignaling dep) SignalingError (HandleAction (Value dep))
  unfolding peer_nonce encrypt_token
  send_token token = do
    s ← get
    nonce ← on_initiator (peer_nonce s.common.identity)
    pure (
        HandleAction.reply (
          encrypt_token dep token (record {
            message = Message.token (record { key = s.common.permanent_keypair.public_key });
            nonce = nonce;
          })))

  unfoldable pub send_key : M (ResponderSignaling dep) SignalingError (HandleAction (Value dep))
  unfolding peer_nonce encrypt
  send_key = do
    s ← get
    nonce ← on_initiator (peer_nonce s.common.identity)
    pure (
        HandleAction.reply (
          encrypt dep s.common.permanent_keypair s.initiator.permanent_key (record {
            message = Message.key (record { key = s.initiator.keypair.public_key });
            nonce = nonce;
          })))

  abbrev set_initiator_state :
      InitiatorHandshakeState → ResponderSignaling dep → ResponderSignaling dep
  set_initiator_state state s = record s {
    initiator = record (s.initiator) { handshake_state = state };
  }

  -- The token message, if there is a token, which is used up
  send_token_once : Option AuthProvider → M (ResponderSignaling dep) SignalingError (Actions dep)
  unfolding send_token
  send_token_once (some (AuthProvider.token token)) = do
    modify (λ t. record t { common = record (t.common) { auth_provider = none } })
    action ← send_token token
    pure (action ∷ [])
  send_token_once (some (AuthProvider.trusted_key _)) = pure []
  send_token_once none = throw SignalingError.crash

  -- The messages that begin the peer handshake: `token`, if there is one, and `key`
  unfoldable pub start_peer_handshake : M (ResponderSignaling dep) SignalingError (Actions dep)
  unfolding send_token_once send_key
  start_peer_handshake = do
    s ← get
    token ← send_token_once s.common.auth_provider
    key ← send_key
    pure (token ++ (key ∷ []))

  -- `ResponderSignaling::handle_server_auth_impl`
  unfoldable pub responder_handle_server_auth :
      ServerAuth → M (ResponderSignaling dep) SignalingError (Actions dep)
  unfolding start_peer_handshake
  responder_handle_server_auth msg = do
    throw_if (is_some msg.responders) SignalingError.invalid_message
    connected ← or_throw msg.initiator_connected SignalingError.invalid_message
    elim connected [
      | true ↦ (do
        actions ← start_peer_handshake
        modify (set_initiator_state InitiatorHandshakeState.key_sent)
        pure (actions ++ (HandleAction.event (Event.server_handshake_done true) ∷ [])))
      | false ↦ pure (HandleAction.event (Event.server_handshake_done false) ∷ [])
    ]

  -- `ResponderSignaling::handle_new_initiator`
  unfoldable pub responder_handle_new_initiator :
      M (ResponderSignaling dep) SignalingError (Actions dep)
  unfolding new_initiator_context start_peer_handshake
  responder_handle_new_initiator = do
    s ← get
    fresh ←
        in_responder_common (in_rng (new_initiator_context dep.sodium s.initiator.permanent_key))
    modify (λ t. record t { initiator = fresh })
    actions ← start_peer_handshake
    modify (set_initiator_state InitiatorHandshakeState.key_sent)
    pure actions

  -- `ResponderSignaling::handle_new_responder`
  unfoldable pub responder_handle_new_responder :
      M (ResponderSignaling dep) SignalingError (Actions dep)
  responder_handle_new_responder = throw SignalingError.protocol

  -- `ResponderSignaling::handle_disconnected`
  unfoldable pub responder_handle_disconnected :
      Disconnected → M (ResponderSignaling dep) SignalingError (Actions dep)
  unfolding is_initiator
  responder_handle_disconnected msg = do
    throw_if (not (is_initiator msg.id)) SignalingError.protocol
    pure (HandleAction.event (Event.disconnected msg.id) ∷ [])

  -- `ResponderSignaling::handle_key`
  unfoldable pub handle_key : Key → Nonce → M (ResponderSignaling dep) SignalingError (Actions dep)
  handle_key msg nonce = do
    s ← get
    throw_if (is_some s.initiator.session_key) SignalingError.crash
    throw_if (bytes_eq msg.key s.initiator.permanent_key) SignalingError.protocol
    modify (λ t. record t {
      initiator = record (t.initiator) {
        session_key = some msg.key;
        handshake_state = InitiatorHandshakeState.key_received;
      };
    })
    tasks ← or_throw s.common.tasks SignalingError.crash
    auth ← proposal dep tasks nonce.cookie
    auth_nonce ← on_initiator (peer_nonce s.common.identity)
    t ← get
    key ← or_throw t.initiator.session_key SignalingError.crash
    modify (set_initiator_state InitiatorHandshakeState.auth_sent)
    pure (
        HandleAction.reply (
          encrypt dep t.initiator.keypair key
            (record { message = Message.auth auth; nonce = auth_nonce }))
        ∷ [])

  -- The chosen task of an `auth` message, taken out of our tasks
  unfoldable pub take_chosen_task :
      Option String → M (ResponderSignaling dep) SignalingError (BoxedTask dep)
  unfolding find_task
  take_chosen_task none = throw SignalingError.invalid_message
  take_chosen_task (some name) = do
    s ← get
    modify (λ t. record t { common = record (t.common) { tasks = none } })
    our_tasks ← or_throw s.common.tasks SignalingError.crash
    or_throw (find_task dep.task name our_tasks) SignalingError.protocol

  -- The chosen task, initialised with its data
  unfoldable pub init_chosen_task :
      Dict String (TaskData (Value dep))
      → BoxedTask dep
      → M (ResponderSignaling dep) SignalingError (BoxedTask dep)
  unfolding lookup
  init_chosen_task entries task = do
    throw_if (nat_eq (length entries) 0) SignalingError.protocol
    throw_if (ltb 1 (length entries)) SignalingError.protocol
    entry ← or_throw (lookup (dep.task.name task) entries) SignalingError.protocol
    or_throw (dep.task.init task entry) SignalingError.task_initialization

  -- The end of `handle_auth`: the chosen task is stored, and the task phase begins.
  unfoldable pub start_task :
      BoxedTask dep → M (ResponderSignaling dep) SignalingError (Actions dep)
  unfolding set_signaling_state
  start_task chosen_task = do
    modify (λ t. record t {
      common = record (t.common) {
        task_supported_types = some (dep.task.supported_types chosen_task);
        task = some chosen_task;
      };
    })
    modify (set_initiator_state InitiatorHandshakeState.auth_received)
    in_responder_common (set_signaling_state SignalingState.task)
    pure (HandleAction.handshake_done ∷ [])

  -- `ResponderSignaling::handle_auth`
  unfoldable pub handle_auth :
      Auth (Value dep) → M (ResponderSignaling dep) SignalingError (Actions dep)
  handle_auth msg = do
    s ← get
    validate_repeated_cookie msg.your_cookie s.initiator.cookie_pair.ours
    throw_if (is_some msg.tasks) SignalingError.invalid_message
    task ← take_chosen_task msg.task
    chosen_task ← init_chosen_task msg.entries task
    start_task chosen_task

  -- `handle_peer_handshake_close`
  unfoldable pub handle_peer_handshake_close :
      Close → M (ResponderSignaling dep) SignalingError (Actions dep)
  unfolding from_number
  handle_peer_handshake_close msg = elim (from_number msg.reason) [
    | CloseCode.no_shared_task ↦ throw SignalingError.no_shared_task
    | _ ↦ throw SignalingError.protocol
  ]

  -- The match of `ResponderSignaling::handle_peer_message`
  unfoldable pub handle_initiator_message :
      InitiatorHandshakeState
      → Message (Value dep)
      → Nonce
      → M (ResponderSignaling dep) SignalingError (Actions dep)
  handle_initiator_message InitiatorHandshakeState.key_sent (Message.key msg) nonce =
      handle_key msg nonce
  handle_initiator_message InitiatorHandshakeState.auth_sent (Message.auth msg) nonce =
      handle_auth msg
  handle_initiator_message InitiatorHandshakeState.auth_sent (Message.close msg) nonce =
      handle_peer_handshake_close msg
  handle_initiator_message _ _ nonce = throw SignalingError.invalid_state_transition

  -- `ResponderSignaling::handle_peer_message`
  unfoldable pub responder_handle_peer_message :
      OpenBox (Message (Value dep)) → M (ResponderSignaling dep) SignalingError (Actions dep)
  unfolding handle_initiator_message
  responder_handle_peer_message obox = do
    s ← get
    handle_initiator_message s.initiator.handshake_state obox.message obox.nonce

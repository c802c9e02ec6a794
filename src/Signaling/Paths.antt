-- ===== src/Signaling/Paths.antt =====
-- The initiator's path: its table of responders, `process_new_responder`,
-- `drop_oldest_inactive_responder` and `handle_server_auth_impl`.
pub mod Cleaning
pub mod Bound
pub mod Trusted
use saltyrtc_client_rs.Prelude.{
  not, ◌||◌, Option, none, some, List, [], ◌∷◌, ◌++◌, length, nat_eq, ltb, if◌then◌else◌, is_some,
  nat_has_eq, string_has_eq, bytes_has_eq, elem, M, pure, throw, or_throw, ◌>>=◌, ◌>>◌, get, modify,
  throw_if, zoom,
}
use saltyrtc_client_rs.External.{PublicKey}
use saltyrtc_client_rs.Errors.{SignalingError}
use saltyrtc_client_rs.Types.{Address, is_responder}
use saltyrtc_client_rs.State.{ResponderHandshakeState, is_responder_new}
use saltyrtc_client_rs.Messages.{ServerAuth, NewResponder, DropReason, Disconnected}
use saltyrtc_client_rs.Deps.{Deps, Value}
use saltyrtc_client_rs.Context.{ResponderContext, new_responder_context}
use saltyrtc_client_rs.Prelude.Dict.{lookup, insert, remove, contains_key, values}
use saltyrtc_client_rs.Signaling.{
  AuthProvider, HandleAction, Event, Actions, InitiatorSignaling, in_initiator_common, in_rng,
  increment_counter,
}
use saltyrtc_client_rs.Signaling.Encode.{send_drop_responder}

-- `filter(|r| r.handshake_state() == New)`
unfoldable pub inactive : List ResponderContext → List ResponderContext
inactive [] = []
inactive (r ∷ rs) =
    let rest = inactive rs in if is_responder_new r.handshake_state then r ∷ rest else rest

-- `min_by_key(|r| r.counter)`, the first of the least; `best` is the least so far
unfoldable pub min_by_counter : ResponderContext → List ResponderContext → ResponderContext
min_by_counter best [] = best
min_by_counter best (r ∷ rs) = min_by_counter (if ltb r.counter best.counter then r else best) rs

-- The address of the drop candidate
unfoldable pub oldest_inactive : List ResponderContext → Option Address
unfolding inactive min_by_counter
oldest_inactive rs = elim (inactive rs) [
  | [] ↦ none
  | r ∷ more ↦ some (min_by_counter r more).address
]

-- `iter().collect::<HashSet<_>>()`
unfoldable pub to_set : List Address → List Address
unfolding elem
to_set [] = []
to_set (a ∷ as') = let rest = to_set as' in if elem a rest then rest else a ∷ rest

-- The context of a new responder that is trusted
unfoldable pub trust : PublicKey → ResponderContext → ResponderContext
trust key r = record r {
  permanent_key = some key;
  handshake_state = ResponderHandshakeState.token_received;
}

-- The actions of an optional action
abbrev to_list {ℓ} : {A : Type ℓ} → Option A → List A
to_list none = []
to_list (some a) = a ∷ []

module _ {dep : Deps} where
  unfoldable pub drop_oldest_inactive_responder :
      M (InitiatorSignaling dep) SignalingError (Option (HandleAction (Value dep)))
  unfolding oldest_inactive lookup remove values
  drop_oldest_inactive_responder = do
    s ← get
    elim (oldest_inactive (values s.responders)) [
      | none ↦ pure none
      | some addr ↦ (do
        responder ← or_throw (lookup addr s.responders) SignalingError.crash
        modify (λ t. record t { responders = remove addr t.responders })
        action ←
            in_initiator_common
              (send_drop_responder responder.address DropReason.dropped_by_initiator)
        pure (some action))
    ]

  -- `if let Some(AuthProvider::TrustedKey(key))`, with its sanity check
  apply_trusted_key :
      Option AuthProvider
      → ResponderContext
      → M (InitiatorSignaling dep) SignalingError ResponderContext
  unfolding trust
  apply_trusted_key (some (AuthProvider.trusted_key key)) r = do
    throw_if (is_some r.permanent_key) SignalingError.crash
    pure (trust key r)
  apply_trusted_key (some (AuthProvider.token _)) r = pure r
  apply_trusted_key none r = pure r

  unfoldable pub register_responder : Address → M (InitiatorSignaling dep) SignalingError (Unit {0})
  unfolding lookup remove insert increment_counter new_responder_context apply_trusted_key
  register_responder address = do
    modify (λ t.
        if contains_key address t.responders
        then record t { responders = remove address t.responders }
        else t)
    counter ←
        zoom (λ t. t.responder_counter) (λ c t. record t { responder_counter = c })
          increment_counter
    fresh ← in_initiator_common (in_rng (new_responder_context dep.sodium address counter))
    s ← get
    responder ← apply_trusted_key s.common.auth_provider fresh
    modify (λ t. record t { responders = insert address responder t.responders })

  unfoldable pub process_new_responder :
      Address → M (InitiatorSignaling dep) SignalingError (Option (HandleAction (Value dep)))
  process_new_responder address = do
    register_responder address
    s ← get
    if ltb 252 (length s.responders) then drop_oldest_inactive_responder else pure none

  -- The loop over the responders that `server-auth` lists
  unfoldable pub process_new_responders :
      List Address → M (InitiatorSignaling dep) SignalingError (Actions dep)
  process_new_responders [] = pure []
  process_new_responders (a ∷ as') = do
    action ← process_new_responder a
    rest ← process_new_responders as'
    pure (to_list action ++ rest)

  -- `InitiatorSignaling::handle_server_auth_impl`
  unfoldable pub initiator_handle_server_auth :
      ServerAuth → M (InitiatorSignaling dep) SignalingError (Actions dep)
  unfolding to_set elem
  initiator_handle_server_auth msg = do
    throw_if (is_some msg.initiator_connected) SignalingError.invalid_message
    responders ← or_throw msg.responders SignalingError.invalid_message
    throw_if (elem 0x00 (to_set responders) || elem 0x01 (to_set responders))
        SignalingError.invalid_message
    throw_if (not (nat_eq (length responders) (length (to_set responders))))
        SignalingError.invalid_message
    actions ← process_new_responders (dep.iter_order (to_set responders))
    pure (
        actions
        ++ (HandleAction.event (Event.server_handshake_done (nat_eq (length responders) 0)) ∷ []))

  -- `InitiatorSignaling::handle_new_responder`
  unfoldable pub initiator_handle_new_responder :
      NewResponder → M (InitiatorSignaling dep) SignalingError (Actions dep)
  unfolding is_responder
  initiator_handle_new_responder msg = do
    throw_if (not (is_responder msg.id)) SignalingError.invalid_message
    action ← process_new_responder msg.id
    pure (to_list action)

  -- `InitiatorSignaling::handle_disconnected`
  unfoldable pub initiator_handle_disconnected :
      Disconnected → M (InitiatorSignaling dep) SignalingError (Actions dep)
  unfolding is_responder
  initiator_handle_disconnected msg = do
    throw_if (not (is_responder msg.id)) SignalingError.protocol
    pure (HandleAction.event (Event.disconnected msg.id) ∷ [])

  -- `InitiatorSignaling::handle_new_initiator`
  unfoldable pub initiator_handle_new_initiator :
      M (InitiatorSignaling dep) SignalingError (Actions dep)
  initiator_handle_new_initiator = throw SignalingError.protocol

-- ===== src/Signaling/Invariant/Initiator.antt =====
-- The messages that an initiator gets from a responder, on a well-formed state.
use saltyrtc_client_rs.Prelude.{
  ℕ, ◌≡◌, true, Option, none, some, [], ◌∷◌, ◌++◌, arith, nat_eq, pure, or_throw, string_has_eq,
  ◌>>=◌, ◌>>◌, nat_eq, leb, nat_has_eq,
}
use saltyrtc_client_rs.Prelude.Outcome.{holds, keeps, keeps-continue, keeps-local, keeps-or_throw}
use saltyrtc_client_rs.Prelude.Dict.{lookup, remove, keys}
use saltyrtc_client_rs.Boxes.{OpenBox}
use saltyrtc_client_rs.Crypto.{KeyPair}
use saltyrtc_client_rs.State.{ResponderHandshakeState}
use saltyrtc_client_rs.Types.{Address, Role, ClientIdentity}
use saltyrtc_client_rs.Messages.{Message, Token, Key, Auth}
use saltyrtc_client_rs.Deps.{Deps, Value, BoxedTask}
use saltyrtc_client_rs.Errors.{SignalingError}
use saltyrtc_client_rs.Context.{ResponderContext}
use saltyrtc_client_rs.Signaling.{HandleAction, InitiatorSignaling, set_signaling_state}
use saltyrtc_client_rs.Signaling.Initiator.{
  responder_key, negotiate, settle_task, begin_task, negotiate, settle_task, accept_responder,
  drop_others, answer_auth, handle_token, handle_key, handle_auth, accept_auth, check_auth,
  auth_reply, no_shared_task, handle_responder_message, initiator_handle_peer_message,
}
use saltyrtc_client_rs.Signaling.Invariant.{
  is_valid_initiator, is_valid_common, chosen_has_address, keyed_by_address, fits,
}
use saltyrtc_client_rs.Signaling.Invariant.Tables.{lookup-keyed, insert-keyed, remove-keyed}
use saltyrtc_client_rs.Signaling.Invariant.Server.{drop_responders-is_valid}

module _ (dep : Deps) (own : ClientIdentity) (k : fits Role.initiator own ≡ true) where
  responder_key-keeps :
      (pair : KeyPair) (msg : Key) (a : Address) (r : ResponderContext)
      → r.address ≡ a
      → leb 2 a ≡ true
      → keeps (λ t. nat_eq t.address a) (responder_key dep own pair msg r) ≡ true
  unfolding responder_key holds fits
  responder_key-keeps pair msg a r e l = ground arith

  auth_reply-keeps :
      (task : BoxedTask dep) (r : ResponderContext)
      → leb 2 r.address ≡ true
      → keeps (λ t. leb 2 t.address) (auth_reply dep own task r) ≡ true
  unfolding auth_reply holds fits
  auth_reply-keeps task r l = ground arith

module _ {dep : Deps} (from : ℕ) where
  handle_token-is_valid :
      (msg : Token) (a : Address) (s : InitiatorSignaling dep)
      → is_valid_initiator from s ≡ true
      → keeps (is_valid_initiator from) (handle_token msg a s) ≡ true
  unfolding handle_token holds is_valid_initiator is_valid_common
  handle_token-is_valid msg a s h = grind (arith, lookup-keyed, insert-keyed)

  common-is_valid :
      (s : InitiatorSignaling dep)
      → is_valid_initiator from s ≡ true
      → is_valid_common Role.initiator from s.common ≡ true
  unfolding is_valid_initiator
  common-is_valid s h = ground arith

  removed-is_valid :
      (a : Address) (s : InitiatorSignaling dep)
      → is_valid_initiator from s ≡ true
      → is_valid_initiator from (record s { responders = remove a s.responders }) ≡ true
  unfolding is_valid_initiator
  removed-is_valid a s h = grind (arith, remove-keyed)

  responder-address :
      (a : Address) (r : ResponderContext) (s : InitiatorSignaling dep)
      → is_valid_initiator from s ≡ true
      → lookup a s.responders ≡ some r
      → leb 2 r.address ≡ true
  unfolding is_valid_initiator
  responder-address a r s h e = grind (arith, lookup-keyed)

  identity-fits :
      (s : InitiatorSignaling dep)
      → is_valid_initiator from s ≡ true
      → fits Role.initiator s.common.identity ≡ true
  unfolding is_valid_initiator is_valid_common
  identity-fits s h = ground arith

  handle_key-is_valid :
      (msg : Key) (a : Address) (s : InitiatorSignaling dep)
      → is_valid_initiator from s ≡ true
      → keeps (is_valid_initiator from) (handle_key msg a s) ≡ true
  unfolding handle_key holds is_valid_initiator
  handle_key-is_valid msg a s h = grind (
    arith,
    lookup-keyed,
    insert-keyed,
    responder_key-keeps dep s.common.identity (identity-fits s h) s.common.permanent_keypair msg a,
  )

  no_shared_task-is_valid :
      (r : ResponderContext) (s : InitiatorSignaling dep) (own : ClientIdentity)
      → is_valid_initiator from s ≡ true
      → fits Role.initiator own ≡ true
      → leb 2 r.address ≡ true
      → keeps (is_valid_initiator from) (no_shared_task own r s) ≡ true
  unfolding no_shared_task holds fits
  no_shared_task-is_valid r s own h k l = ground arith

  check_auth-is_valid :
      (msg : Auth (Value dep)) (r : ResponderContext) (s : InitiatorSignaling dep)
      → is_valid_initiator from s ≡ true
      → keeps (is_valid_initiator from) (check_auth dep msg r s) ≡ true
  unfolding check_auth holds
  check_auth-is_valid msg r s h = ground arith

  begin_task-is_valid :
      (task : BoxedTask dep) (r : ResponderContext) (s : InitiatorSignaling dep)
      → is_valid_initiator from s ≡ true
      → leb 2 r.address ≡ true
      → keeps (is_valid_initiator from) (begin_task task r s) ≡ true
  unfolding begin_task holds is_valid_initiator is_valid_common chosen_has_address
      set_signaling_state
  begin_task-is_valid task r s h k = ground arith

  drop_others-is_valid :
      (s : InitiatorSignaling dep)
      → is_valid_initiator from s ≡ true
      → keeps (is_valid_initiator from) (drop_others s) ≡ true
  unfolding drop_others holds is_valid_initiator keyed_by_address
  drop_others-is_valid s h = ground (
    arith,
    drop_responders-is_valid Role.initiator from (dep.iter_order (keys s.responders)) s.common
        (common-is_valid s h),
  )

  answer_auth-is_valid :
      (r : ResponderContext) (task : BoxedTask dep) (s : InitiatorSignaling dep)
      → is_valid_initiator from s ≡ true
      → leb 2 r.address ≡ true
      → keeps (is_valid_initiator from) (answer_auth r task s) ≡ true
  unfolding answer_auth holds
  answer_auth-is_valid r task s h k =
      keeps-local (is_valid_initiator from) (λ t. leb 2 t.address)
        (λ (reply, replied).
          begin_task task replied >> pure (reply ∷ HandleAction.handshake_done ∷ []))
        (auth_reply dep s.common.identity task) _ s h
        (auth_reply-keeps dep s.common.identity (identity-fits s h) task _ k)
        (λ reply replied l. ground (arith, begin_task-is_valid task replied s h l))

  accept_responder-is_valid :
      (r : ResponderContext) (task : BoxedTask dep) (s : InitiatorSignaling dep)
      → is_valid_initiator from s ≡ true
      → leb 2 r.address ≡ true
      → keeps (is_valid_initiator from) (accept_responder r task s) ≡ true
  unfolding accept_responder holds
  accept_responder-is_valid r task s h k =
      keeps-continue (is_valid_initiator from)
        (λ drops. answer_auth r task >>= λ replies. pure (drops ++ replies)) (drop_others s)
        (drop_others-is_valid s h) (λ drops t l. ground (arith, answer_auth-is_valid r task t l k))

  accept_auth-is_valid :
      (msg : Auth (Value dep)) (r : ResponderContext) (task : BoxedTask dep)
      (s : InitiatorSignaling dep)
      → is_valid_initiator from s ≡ true
      → leb 2 r.address ≡ true
      → keeps (is_valid_initiator from) (accept_auth msg r task s) ≡ true
  unfolding accept_auth
  accept_auth-is_valid msg r task s h k =
      keeps-or_throw (is_valid_initiator from)
        (λ entry.
          or_throw (dep.task.init task entry) SignalingError.task_initialization
          >>= accept_responder r)
        (lookup (dep.task.name task) msg.entries) SignalingError.crash s h
        (λ entry _.
          keeps-or_throw (is_valid_initiator from) (accept_responder r) (dep.task.init task entry)
            SignalingError.task_initialization s h
            (λ chosen _. accept_responder-is_valid r chosen s h k))

  settle_task-is_valid :
      (msg : Auth (Value dep)) (r : ResponderContext) (own : ClientIdentity)
      (choice : Option (BoxedTask dep)) (s : InitiatorSignaling dep)
      → is_valid_initiator from s ≡ true
      → fits Role.initiator own ≡ true
      → leb 2 r.address ≡ true
      → keeps (is_valid_initiator from) (settle_task msg r own choice s) ≡ true
  unfolding settle_task
  settle_task-is_valid msg r own (some task) s h f k = accept_auth-is_valid msg r task s h k
  settle_task-is_valid msg r own none s h f k = no_shared_task-is_valid r s own h f k

  forget_tasks-is_valid :
      (s : InitiatorSignaling dep)
      → is_valid_initiator from s ≡ true
      → is_valid_initiator from (record s { common = record (s.common) { tasks = none } }) ≡ true
  unfolding is_valid_initiator is_valid_common
  forget_tasks-is_valid s h = h

  negotiate-is_valid :
      (msg : Auth (Value dep)) (r : ResponderContext) (s : InitiatorSignaling dep)
      → is_valid_initiator from s ≡ true
      → leb 2 r.address ≡ true
      → keeps (is_valid_initiator from) (negotiate msg r s) ≡ true
  unfolding negotiate
  negotiate-is_valid msg r s h k =
      keeps-continue (is_valid_initiator from) _ (check_auth dep msg r s)
        (check_auth-is_valid msg r s h)
        (λ proposed t l.
          keeps-or_throw (is_valid_initiator from) _ t.common.tasks SignalingError.crash _
            (forget_tasks-is_valid t l)
            (λ ours _.
              settle_task-is_valid msg r t.common.identity _ _ (forget_tasks-is_valid t l)
                (identity-fits t l) k))

  handle_auth-is_valid :
      (msg : Auth (Value dep)) (a : Address) (s : InitiatorSignaling dep)
      → is_valid_initiator from s ≡ true
      → keeps (is_valid_initiator from) (handle_auth msg a s) ≡ true
  unfolding handle_auth
  handle_auth-is_valid msg a s h =
      keeps-or_throw (is_valid_initiator from) _ (lookup a s.responders) SignalingError.crash s h
        (λ r e. negotiate-is_valid msg r _ (removed-is_valid a s h) (responder-address a r s h e))

  handle_responder_message-is_valid :
      (st : ResponderHandshakeState) (m : Message (Value dep)) (a : Address)
      (s : InitiatorSignaling dep)
      → is_valid_initiator from s ≡ true
      → keeps (is_valid_initiator from) (handle_responder_message st m a s) ≡ true
  unfolding handle_responder_message holds
  handle_responder_message-is_valid ResponderHandshakeState.new (Message.token msg) a s h =
      handle_token-is_valid msg a s h
  handle_responder_message-is_valid ResponderHandshakeState.token_received (Message.key msg) a s h =
      handle_key-is_valid msg a s h
  handle_responder_message-is_valid ResponderHandshakeState.key_sent (Message.auth msg) a s h =
      handle_auth-is_valid msg a s h
  handle_responder_message-is_valid _ _ a s h = ground arith

  pub initiator_handle_peer_message-is_valid :
      (obox : OpenBox (Message (Value dep))) (s : InitiatorSignaling dep)
      → is_valid_initiator from s ≡ true
      → keeps (is_valid_initiator from) (initiator_handle_peer_message obox s) ≡ true
  unfolding initiator_handle_peer_message
  initiator_handle_peer_message-is_valid obox s h =
      keeps-or_throw (is_valid_initiator from) _ (lookup obox.nonce.source s.responders)
        SignalingError.crash s h
        (λ r _.
          handle_responder_message-is_valid r.handshake_state obox.message obox.nonce.source s h)

-- ===== src/Signaling/Replies/Roles.antt =====
-- The actions of the handlers of each role.
use saltyrtc_client_rs.Prelude.{
  ◌≡◌, refl, Bool, true, Option, none, some, List, [], ◌∷◌, ◌++◌, arith, or_throw, nat_has_eq,
  string_has_eq,
}
use saltyrtc_client_rs.Prelude.Outcome.{
  ensures, ensures-continue, ensures-continue_from, ensures-local,
}
use saltyrtc_client_rs.Errors.{SignalingError}
use saltyrtc_client_rs.Types.{Address, ClientIdentity}
use saltyrtc_client_rs.Messages.{
  Message, ServerHello, ServerAuth, NewResponder, Disconnected, Auth, DropReason,
}
use saltyrtc_client_rs.Deps.{Deps, Value, BoxedTask}
use saltyrtc_client_rs.Prelude.Dict.{lookup, remove}
use saltyrtc_client_rs.Tasks.{choose_shared_task}
use saltyrtc_client_rs.Boxes.{OpenBox}
use saltyrtc_client_rs.Context.{ResponderContext}
use saltyrtc_client_rs.Signaling.{
  Common, set_signaling_state, Actions, HandleAction, InitiatorSignaling, ResponderSignaling,
}
use saltyrtc_client_rs.Signaling.Encode.{send_drop_responder}
use saltyrtc_client_rs.Signaling.Server.{handle_server_hello}
use saltyrtc_client_rs.Signaling.Paths.{
  initiator_handle_server_auth, initiator_handle_new_responder, initiator_handle_disconnected,
  process_new_responder, process_new_responders, drop_oldest_inactive_responder, register_responder,
}
use saltyrtc_client_rs.Signaling.Initiator
use saltyrtc_client_rs.Signaling.Responder
use saltyrtc_client_rs.Signaling.Replies.{
  plain, plain-append, settles, settles-append, plain-settles, in_task,
}

-- The actions of an optional action
abbrev optional : {V : Type 0} → Option V → List V
optional none = []
optional (some a) = a ∷ []

auth_reply-plain :
    (dep : Deps) (own : ClientIdentity) (task : BoxedTask dep) (r : ResponderContext)
    → ensures (λ x _. plain (x ∷ [])) (Initiator.auth_reply dep own task r) ≡ true
unfolding Initiator.auth_reply ensures plain
auth_reply-plain dep own task r = ground arith

module _ {dep : Deps} where
  pub handle_server_hello-plain :
      (msg : ServerHello) (c : Common dep)
      → ensures (λ as' _. plain as') (handle_server_hello msg c) ≡ true
  unfolding handle_server_hello plain ensures
  handle_server_hello-plain msg c = ground arith

  pub send_drop_responder-plain :
      (a : Address) (r : DropReason) (c : Common dep)
      → ensures (λ x _. plain (x ∷ [])) (send_drop_responder a r c) ≡ true
  unfolding send_drop_responder plain ensures
  send_drop_responder-plain a r c = ground arith

  drop_oldest_inactive_responder-plain :
      (s : InitiatorSignaling dep)
      → ensures (λ o _. plain (optional o)) (drop_oldest_inactive_responder s) ≡ true
  unfolding drop_oldest_inactive_responder send_drop_responder plain ensures
  drop_oldest_inactive_responder-plain s = ground arith

  process_new_responder-plain :
      (a : Address) (s : InitiatorSignaling dep)
      → ensures (λ o _. plain (optional o)) (process_new_responder a s) ≡ true
  unfolding process_new_responder plain ensures
  process_new_responder-plain a s =
      ensures-continue _ _ (register_responder a s)
        (λ _ t. ground (arith, drop_oldest_inactive_responder-plain t))

  process_new_responders-plain :
      (as' : List Address) (s : InitiatorSignaling dep)
      → ensures (λ xs _. plain xs) (process_new_responders as' s) ≡ true
  unfolding process_new_responders ensures plain
  process_new_responders-plain [] s = refl
  process_new_responders-plain (a ∷ as') s =
      ensures-continue_from (λ o _. plain (optional o)) _ _ (process_new_responder a s)
        (process_new_responder-plain a s)
        (λ o t h.
          ensures-continue_from (λ xs _. plain xs) _ _ (process_new_responders as' t)
            (process_new_responders-plain as' t) (λ xs u k. joined o xs h k))
    where
      joined :
          (o : Option (HandleAction (Value dep))) (xs : Actions dep)
          → plain (optional o) ≡ true
          → plain xs ≡ true
          → plain (optional o ++ xs) ≡ true
      joined o xs h k = plain-append (optional o) xs h k

  pub initiator_handle_server_auth-plain :
      (msg : ServerAuth) (s : InitiatorSignaling dep)
      → ensures (λ as' _. plain as') (initiator_handle_server_auth msg s) ≡ true
  unfolding initiator_handle_server_auth ensures plain
  initiator_handle_server_auth-plain msg s =
      grind (arith, process_new_responders-plain, plain-append)

  pub initiator_handle_new_responder-plain :
      (msg : NewResponder) (s : InitiatorSignaling dep)
      → ensures (λ as' _. plain as') (initiator_handle_new_responder msg s) ≡ true
  unfolding initiator_handle_new_responder ensures plain
  initiator_handle_new_responder-plain msg s = ground (arith, process_new_responder-plain msg.id s)

  pub initiator_handle_disconnected-plain :
      (msg : Disconnected) (s : InitiatorSignaling dep)
      → ensures (λ as' _. plain as') (initiator_handle_disconnected msg s) ≡ true
  unfolding initiator_handle_disconnected ensures plain
  initiator_handle_disconnected-plain msg s = ground arith

  pub responder_handle_server_auth-plain :
      (msg : ServerAuth) (s : ResponderSignaling dep)
      → ensures (λ as' _. plain as') (Responder.responder_handle_server_auth msg s) ≡ true
  unfolding Responder.responder_handle_server_auth plain ensures
  responder_handle_server_auth-plain msg s = ground arith

  pub responder_handle_new_initiator-plain :
      (s : ResponderSignaling dep)
      → ensures (λ as' _. plain as') (Responder.responder_handle_new_initiator s) ≡ true
  unfolding Responder.responder_handle_new_initiator plain ensures
  responder_handle_new_initiator-plain s = ground arith

  pub responder_handle_disconnected-plain :
      (msg : Disconnected) (s : ResponderSignaling dep)
      → ensures (λ as' _. plain as') (Responder.responder_handle_disconnected msg s) ≡ true
  unfolding Responder.responder_handle_disconnected ensures plain
  responder_handle_disconnected-plain msg s = ground arith

  -- Whether the handshake of the initiator's client has led to the task state
  abbrev now_initiator : InitiatorSignaling dep → Bool
  now_initiator s = in_task s.common.signaling_state

  abbrev now_responder : ResponderSignaling dep → Bool
  now_responder s = in_task s.common.signaling_state

  drop_responders-plain :
      (as' : List Address) (c : Common dep)
      → ensures (λ xs _. plain xs) (Initiator.drop_responders as' c) ≡ true
  unfolding Initiator.drop_responders ensures plain
  drop_responders-plain [] c = refl
  drop_responders-plain (a ∷ as') c =
      ensures-continue_from (λ x _. plain (x ∷ [])) _ _
        (send_drop_responder a DropReason.dropped_by_initiator c)
        (send_drop_responder-plain a DropReason.dropped_by_initiator c)
        (λ x t h.
          ensures-continue_from (λ xs _. plain xs) _ _ (Initiator.drop_responders as' t)
            (drop_responders-plain as' t) (λ xs u k. ground arith))

  drop_others-plain :
      (s : InitiatorSignaling dep) → ensures (λ xs _. plain xs) (Initiator.drop_others s) ≡ true
  unfolding Initiator.drop_others ensures
  drop_others-plain s = grind (arith, drop_responders-plain)

  begin_task-in_task :
      (task : BoxedTask dep) (r : ResponderContext) (s : InitiatorSignaling dep)
      → ensures (λ _ t. now_initiator t) (Initiator.begin_task task r s) ≡ true
  unfolding Initiator.begin_task set_signaling_state ensures
  begin_task-in_task task r s = ground arith

  answer_auth-settles :
      (r : ResponderContext) (task : BoxedTask dep) (s : InitiatorSignaling dep)
      → ensures (λ xs t. settles (now_initiator t) xs) (Initiator.answer_auth r task s) ≡ true
  unfolding Initiator.answer_auth plain settles ensures
  answer_auth-settles r task s =
      ensures-continue_from
        (λ (p : HandleAction (Value dep) × ResponderContext) _. plain (p.0 ∷ [])) _ _ _
        (ensures-local (λ x. plain (x ∷ [])) (Initiator.auth_reply dep s.common.identity task) _ s
          (auth_reply-plain dep s.common.identity task _))
        (λ p t h.
          ensures-continue_from (λ _ u. now_initiator u) _ _ (Initiator.begin_task task p.1 t)
            (begin_task-in_task task p.1 t) (λ _ u k. finished p.0 u h k))
    where
      finished :
          (x : HandleAction (Value dep)) (u : InitiatorSignaling dep)
          → plain (x ∷ []) ≡ true
          → now_initiator u ≡ true
          → settles (now_initiator u) (x ∷ HandleAction.handshake_done ∷ []) ≡ true
      finished x u h k = ground arith

  accept_responder-settles :
      (r : ResponderContext) (task : BoxedTask dep) (s : InitiatorSignaling dep)
      → ensures (λ xs t. settles (now_initiator t) xs) (Initiator.accept_responder r task s) ≡ true
  unfolding Initiator.accept_responder ensures
  accept_responder-settles r task s =
      ensures-continue_from (λ xs _. plain xs) _ _ (Initiator.drop_others s) (drop_others-plain s)
        (λ xs t h.
          ensures-continue_from (λ ys t. settles (now_initiator t) ys) _ _
            (Initiator.answer_auth r task t) (answer_auth-settles r task t)
            (λ ys u k.
              settles-append (now_initiator u) xs ys (plain-settles (now_initiator u) xs h) k))

  settle_task-settles :
      (msg : Auth (Value dep)) (r : ResponderContext) (own : ClientIdentity)
      (task : Option (BoxedTask dep)) (s : InitiatorSignaling dep)
      → ensures (λ xs t. settles (now_initiator t) xs) (Initiator.settle_task msg r own task s)
        ≡ true
  unfolding Initiator.settle_task Initiator.accept_auth Initiator.no_shared_task ensures settles
  settle_task-settles msg r own none s = ground arith
  settle_task-settles msg r own (some task) s =
      ensures-continue _ _ (or_throw (lookup (dep.task.name task) msg.entries) _ s) (λ entry t.
        ensures-continue _ _ (or_throw (dep.task.init task entry) _ t)
          (λ chosen u. accept_responder-settles r chosen u))

  negotiate-settles :
      (msg : Auth (Value dep)) (r : ResponderContext) (s : InitiatorSignaling dep)
      → ensures (λ xs t. settles (now_initiator t) xs) (Initiator.negotiate msg r s) ≡ true
  unfolding Initiator.negotiate
  negotiate-settles msg r s = ensures-continue _ _ (Initiator.check_auth dep msg r s) (λ names t.
      ensures-continue _ _ (or_throw t.common.tasks SignalingError.crash _) (λ ours u.
        settle_task-settles msg r t.common.identity (choose_shared_task dep.task ours names) u))

  handle_auth-settles :
      (msg : Auth (Value dep)) (source : Address) (s : InitiatorSignaling dep)
      → ensures (λ xs t. settles (now_initiator t) xs) (Initiator.handle_auth msg source s) ≡ true
  unfolding Initiator.handle_auth
  handle_auth-settles msg source s =
      ensures-continue _ _ (or_throw (lookup source s.responders) SignalingError.crash s)
        (λ r t. negotiate-settles msg r (record t { responders = remove source t.responders }))

  pub initiator_handle_peer_message-settles :
      (obox : OpenBox (Message (Value dep))) (s : InitiatorSignaling dep)
      → ensures
          (λ xs t. settles (now_initiator t) xs)
          (Initiator.initiator_handle_peer_message obox s)
        ≡ true
  unfolding Initiator.initiator_handle_peer_message Initiator.handle_responder_message
      Initiator.handle_token Initiator.handle_key Initiator.responder_key ensures settles
  initiator_handle_peer_message-settles obox s = grind (arith, handle_auth-settles)

  pub responder_handle_peer_message-settles :
      (obox : OpenBox (Message (Value dep))) (s : ResponderSignaling dep)
      → ensures
          (λ xs t. settles (now_responder t) xs)
          (Responder.responder_handle_peer_message obox s)
        ≡ true
  unfolding Responder.responder_handle_peer_message Responder.handle_initiator_message
      Responder.handle_key Responder.handle_auth Responder.take_chosen_task
      Responder.init_chosen_task Responder.start_task Responder.handle_peer_handshake_close ensures
      settles
  responder_handle_peer_message-settles obox s = ground arith

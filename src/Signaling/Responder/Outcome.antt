-- ===== src/Signaling/Responder/Outcome.antt =====
-- What the responder's handlers leave behind when they succeed.
use saltyrtc_client_rs.Prelude.{
  ℕ, ◌≡◌, ◌≢◌, Bool, true, false, Option, none, some, [], ◌∷◌, arith, ok, length, bytes_eq,
  bytes_eq_iff, String, ap, ◌∙◌, ◌>>=◌,
}
use saltyrtc_client_rs.Prelude.Outcome.{continue-ok}
use saltyrtc_client_rs.Prelude.Dict.{Dict}
use saltyrtc_client_rs.Signaling.Validate.{validate_repeated_cookie}
use saltyrtc_client_rs.State.{SignalingState}
use saltyrtc_client_rs.Messages.{Auth, TaskData}
use saltyrtc_client_rs.Deps.{Deps, Value, BoxedTask}
use saltyrtc_client_rs.Signaling.{HandleAction, Actions, AuthProvider, ResponderSignaling}
use saltyrtc_client_rs.Signaling.Responder.{
  handle_auth, start_peer_handshake, take_chosen_task, init_chosen_task, start_task,
}

-- The messages that the peer handshake begins with: a token is sent along with the key.
abbrev pub opening_length : Option AuthProvider → ℕ
opening_length (some (AuthProvider.token _)) = 2
opening_length (some (AuthProvider.trusted_key _)) = 1
opening_length none = 0

abbrev pub no_token : Option AuthProvider → Bool
no_token (some (AuthProvider.token _)) = false
no_token (some (AuthProvider.trusted_key _)) = true
no_token none = true

module _ {dep : Deps} where
  -- The steps after the first checks
  checked_auth :
      (msg : Auth (Value dep)) (s t : ResponderSignaling dep) (actions : Actions dep)
      → handle_auth msg s ≡ ok actions t
      → (bytes_eq msg.your_cookie s.initiator.cookie_pair.ours ≡ true)
        × ((take_chosen_task msg.task >>= λ task. init_chosen_task msg.entries task >>= start_task)
              s
            ≡ ok actions t)
  unfolding handle_auth validate_repeated_cookie
  checked_auth msg s t actions e = (ground arith, ground arith)

  taken :
      (name : Option String) (task : BoxedTask dep) (s t : ResponderSignaling dep)
      → take_chosen_task name s ≡ ok task t
      → (t.common.tasks ≡ none) × (t.common.signaling_state ≡ s.common.signaling_state)
  unfolding take_chosen_task
  taken name task s t e = (ground arith, ground arith)

  initialised :
      (entries : Dict String (TaskData (Value dep))) (task chosen : BoxedTask dep)
      (s t : ResponderSignaling dep)
      → init_chosen_task entries task s ≡ ok chosen t
      → t ≡ s
  unfolding init_chosen_task
  initialised entries task chosen s t e = ground arith

  started :
      (chosen : BoxedTask dep) (s t : ResponderSignaling dep) (actions : Actions dep)
      → start_task chosen s ≡ ok actions t
      → (actions ≡ HandleAction.handshake_done ∷ [])
        × (t.common.signaling_state ≡ SignalingState.task)
        × (t.common.tasks ≡ s.common.tasks)
        × (t.common.task ≡ some chosen)
        × (t.common.task_supported_types ≡ some (dep.task.supported_types chosen))
        × (s.common.signaling_state ≢ SignalingState.server_handshake)
  unfolding start_task
  started chosen s t actions e =
      (ground arith, ground arith, ground arith, ground arith, ground arith, λ h. ground arith)

  -- If the responder's `handle_auth` succeeds, the handshake is reported as done, the signaling is in
  -- the task state, our list of tasks is used up, and there is a chosen task with its message types.
  -- It was in the peer handshake or the task state before, and the message repeated our cookie.
  pub handle_auth-task :
      (msg : Auth (Value dep)) (s t : ResponderSignaling dep) (actions : Actions dep)
      → handle_auth msg s ≡ ok actions t
      → (actions ≡ HandleAction.handshake_done ∷ [])
        × (t.common.signaling_state ≡ SignalingState.task)
        × (t.common.tasks ≡ none)
        × ((chosen : BoxedTask dep) × (t.common.task ≡ some chosen)
            × (t.common.task_supported_types ≡ some (dep.task.supported_types chosen)))
        × (s.common.signaling_state ≢ SignalingState.server_handshake)
        × (msg.your_cookie ≡ s.initiator.cookie_pair.ours)
  handle_auth-task msg s t actions e =
      let (cookie, e0) = checked_auth msg s t actions e in
      let (task, u, eu, e1) =
        continue-ok (λ task. init_chosen_task msg.entries task >>= start_task)
          (take_chosen_task msg.task s) actions t e0 in
      let (chosen, v, ev, e2) =
        continue-ok start_task (init_chosen_task msg.entries task u) actions t e1 in
      let (none', same) = taken msg.task task s u eu in
      let vu = initialised msg.entries task chosen u v ev in
      let (done, now, tasks, stored, types, began) = started chosen v t actions e2 in
      (
        done,
        now,
        tasks ∙ (ap (λ x. x.common.tasks) vu ∙ none'),
        (chosen, stored, types),
        (λ h. began (ap (λ x. x.common.signaling_state) vu ∙ (same ∙ h))),
        (bytes_eq_iff msg.your_cookie s.initiator.cookie_pair.ours).0 cookie,
      )

  -- The peer handshake begins with the token, if the client has one, and the key; afterwards the
  -- client has no token, so that it is sent once.
  pub start_peer_handshake-token :
      (s t : ResponderSignaling dep) (actions : Actions dep)
      → start_peer_handshake s ≡ ok actions t
      → (no_token t.common.auth_provider ≡ true)
        × (length actions ≡ opening_length s.common.auth_provider)
  unfolding start_peer_handshake
  start_peer_handshake-token s t actions e = (ground arith, ground arith)

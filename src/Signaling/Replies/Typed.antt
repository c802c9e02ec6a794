-- ===== src/Signaling/Replies/Typed.antt =====
-- The type that a task message of the peer has.
use saltyrtc_client_rs.Prelude.{
  ◌≡◌, refl, Bool, true, false, ◌&&◌, none, some, List, [], ◌∷◌, String, ok, arith, is_some,
  string_has_eq, nat_has_eq, Step, err, panic, throw_if,
}
use saltyrtc_client_rs.Prelude.Outcome.{ensures, ensures-continue, ensures-weaken}
use saltyrtc_client_rs.Prelude.Dict.{Dict, lookup}
use saltyrtc_client_rs.External.{Rmpv}
use saltyrtc_client_rs.Errors.{SignalingError, ValidationError}
use saltyrtc_client_rs.State.{SignalingState}
use saltyrtc_client_rs.Deps.{Deps, Value}
use saltyrtc_client_rs.Tasks.{TaskMessage}
use saltyrtc_client_rs.Boxes.{ByteBox}
use saltyrtc_client_rs.Signaling.{HandleAction, Actions, Signaling, common}
use saltyrtc_client_rs.Signaling.Handle.{
  handle_message, after_validation, process_message, peer_branch, server_branch,
  handle_task_peer_message, handle_task_value, dispatch_task_message, close_reason,
}
use saltyrtc_client_rs.Types.{is_server}
use saltyrtc_client_rs.Signaling.Decode.{decode_task_message}
use saltyrtc_client_rs.Signaling.Validate.{validate_nonce}
use saltyrtc_client_rs.Signaling.Replies.{plain, settles, in_task}
use saltyrtc_client_rs.Signaling.Replies.Phases.{
  server_branch-plain, handle_handshake_peer_message-settles,
}

-- Whether the map of a message has a text as its type
abbrev pub has_type : (rmpv : Rmpv) → Dict String rmpv.Value → Bool
has_type rmpv entries = elim (lookup "type" entries) [
  | none ↦ false
  | some v ↦ is_some (rmpv.as_str v)
]

abbrev pub is_typed : (rmpv : Rmpv) → TaskMessage rmpv.Value → Bool
is_typed rmpv (TaskMessage.value entries) = has_type rmpv entries
is_typed rmpv (TaskMessage.application _) = true
is_typed rmpv (TaskMessage.close _) = true

-- Each task message among the actions has a type.
unfoldable pub typed : (rmpv : Rmpv) → List (HandleAction rmpv.Value) → Bool
typed rmpv [] = true
typed rmpv (HandleAction.task_message m ∷ xs) = is_typed rmpv m && typed rmpv xs
typed rmpv (_ ∷ xs) = typed rmpv xs

plain-typed :
    (rmpv : Rmpv) (xs : List (HandleAction rmpv.Value)) → plain xs ≡ true → typed rmpv xs ≡ true
unfolding plain typed
plain-typed rmpv [] h = refl
plain-typed rmpv (x ∷ xs) h = ground (arith, h, plain-typed rmpv xs)

settles-typed :
    (rmpv : Rmpv) (after : Bool) (xs : List (HandleAction rmpv.Value))
    → settles after xs ≡ true
    → typed rmpv xs ≡ true
unfolding settles typed
settles-typed rmpv after [] h = refl
settles-typed rmpv after (x ∷ xs) h = ground (arith, h, settles-typed rmpv after xs)

module _ {dep : Deps} where
  handle_task_value-typed :
      (value : Value dep) (s : Signaling dep)
      → ensures (λ xs _. typed dep.rmpv xs) (handle_task_value value s) ≡ true
  unfolding handle_task_value dispatch_task_message close_reason ensures typed lookup
  handle_task_value-typed value s = ground arith

  handle_task_peer_message-typed :
      (bbox : ByteBox) (s : Signaling dep)
      → ensures (λ xs _. typed dep.rmpv xs) (handle_task_peer_message bbox s) ≡ true
  unfolding handle_task_peer_message
  handle_task_peer_message-typed bbox s =
      ensures-continue _ _ (throw_if (is_server bbox.nonce.source) SignalingError.crash s) (λ _ t.
        ensures-continue _ _ (decode_task_message bbox t)
          (λ obox u. handle_task_value-typed obox.message u))

  peer_branch-typed :
      (state : SignalingState) (bbox : ByteBox) (s : Signaling dep)
      → ensures (λ xs _. typed dep.rmpv xs) (peer_branch state bbox s) ≡ true
  unfolding peer_branch
  peer_branch-typed SignalingState.server_handshake bbox s =
      ensures-weaken _ _ _ (handle_handshake_peer_message-settles bbox s)
        (λ xs t. settles-typed dep.rmpv (in_task (common t).signaling_state) xs)
  peer_branch-typed SignalingState.peer_handshake bbox s =
      ensures-weaken _ _ _ (handle_handshake_peer_message-settles bbox s)
        (λ xs t. settles-typed dep.rmpv (in_task (common t).signaling_state) xs)
  peer_branch-typed SignalingState.task bbox s = handle_task_peer_message-typed bbox s

  process_message-typed :
      (bbox : ByteBox) (s : Signaling dep)
      → ensures (λ xs _. typed dep.rmpv xs) (process_message bbox s) ≡ true
  unfolding process_message ensures
  process_message-typed bbox s = grind (
    arith,
    peer_branch-typed (common s).signaling_state bbox s,
    ensures-weaken (λ xs _. plain xs) (λ xs _. typed dep.rmpv xs) (server_branch bbox s)
        (server_branch-plain bbox s) (λ xs _. plain-typed dep.rmpv xs),
  )

  -- A task message among the actions that `handle_message` gives is a close message, an application
  -- message, or has a text as its type.
  pub handle_message-typed :
      (bbox : ByteBox) (s t : Signaling dep) (actions : Actions dep)
      → handle_message bbox s ≡ ok actions t
      → typed dep.rmpv actions ≡ true
  unfolding handle_message after_validation ensures typed
  handle_message-typed bbox s t actions e = validated (validate_nonce bbox.nonce s) e
    where
      validated :
          (x : Step (Signaling dep) ValidationError (Unit {0}))
          → after_validation bbox x ≡ ok actions t
          → typed dep.rmpv actions ≡ true
      validated (ok _ u) e = ground (arith, process_message-typed bbox u, e)
      validated (err ValidationError.drop_msg u) e = ground (arith, e)
      validated (err ValidationError.fail u) e = absurd (ground (arith, e))
      validated (err ValidationError.crash u) e = absurd (ground (arith, e))
      validated (panic p) e = absurd (ground (arith, e))

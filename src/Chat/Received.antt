-- ===== src/Chat/Received.antt =====
-- The messages that the signaling gives to the chat task.
use saltyrtc_client_rs.Prelude.{
  ◌≡◌, ◌≢◌, true, false, Bool, List, [], ◌∷◌, ok, err, panic, Panic, arith, string_has_eq, Step,
  refl,
}
use saltyrtc_client_rs.Prelude.Dict.{lookup}
use saltyrtc_client_rs.External.{Rmpv}
use saltyrtc_client_rs.Deps.{Deps, Value}
use saltyrtc_client_rs.Tasks.{TaskMessage}
use saltyrtc_client_rs.Boxes.{ByteBox}
use saltyrtc_client_rs.Signaling.{HandleAction, Actions, Signaling}
use saltyrtc_client_rs.Signaling.Handle.{handle_message}
use saltyrtc_client_rs.Signaling.Replies.Typed.{is_typed, typed, handle_message-typed}
use saltyrtc_client_rs.Client.TaskLoop.Reading.{messages_of}
use saltyrtc_client_rs.Chat.{ChatTask, receive, receive_all}

module _ (rmpv : Rmpv) where
  -- Whether a call ends without a panic
  abbrev survives : {S E A : Type 0} → Step S E A → Bool
  survives (ok _ _) = true
  survives (err _ _) = true
  survives (panic _) = false

  receive-survives :
      (m : TaskMessage rmpv.Value) (b : ChatTask rmpv.Value)
      → is_typed rmpv m ≡ true
      → survives (receive rmpv m b) ≡ true
  unfolding receive lookup
  receive-survives (TaskMessage.value entries) b h = ground (arith, h)
  receive-survives (TaskMessage.application v) b h = refl
  receive-survives (TaskMessage.close reason) b h = ground arith

  receive_all-survives :
      (xs : List (HandleAction rmpv.Value)) (b : ChatTask rmpv.Value)
      → typed rmpv xs ≡ true
      → survives (receive_all rmpv (messages_of xs) b) ≡ true
  unfolding receive_all typed messages_of
  receive_all-survives [] b h = refl
  receive_all-survives (HandleAction.task_message m ∷ xs) b h =
      grind (arith, h, receive-survives m b, receive_all-survives xs)
  receive_all-survives (HandleAction.reply x ∷ xs) b h = receive_all-survives xs b h
  receive_all-survives (HandleAction.event x ∷ xs) b h = receive_all-survives xs b h
  receive_all-survives (HandleAction.handshake_done ∷ xs) b h = receive_all-survives xs b h
  receive_all-survives (HandleAction.handshake_error x ∷ xs) b h = receive_all-survives xs b h

module _ {dep : Deps} where
  -- The chat task never panics on the task messages that `handle_message` gives it, although it takes
  -- for granted that each has a text as its type: the signaling refuses those of the peer that have
  -- none.
  pub receive_all-no_panic :
      (bbox : ByteBox) (s t : Signaling dep) (actions : Actions dep) (b : ChatTask (Value dep))
      (p : Panic)
      → handle_message bbox s ≡ ok actions t
      → receive_all dep.rmpv (messages_of actions) b ≢ panic p
  receive_all-no_panic bbox s t actions b p e k =
      let h = receive_all-survives dep.rmpv actions b (handle_message-typed bbox s t actions e) in
      ground (arith, h, k)

-- ===== src/Messages/Builders/Outcomes.antt =====
-- What the builders of `auth` messages end in.
use saltyrtc_client_rs.Prelude.{◌≡◌, Bool, true, false, not, ◌&&◌, List, [], ◌∷◌, arith, is_some}
use saltyrtc_client_rs.Prelude.Outcome.{holds, keeps}
use saltyrtc_client_rs.Messages.{Auth}
use saltyrtc_client_rs.Messages.Builders.{add_task, add_tasks, build_responder_auth}
use saltyrtc_client_rs.Deps.{Task}

module _ {V : Type 0} {S : Type 0} (r : S → Bool) where
  pub build_responder_auth-keeps :
      (auth : Auth (V)) (s : S)
      → r s ≡ true
      → is_some auth.tasks ≡ true
      → is_some auth.task ≡ false
      → keeps r (build_responder_auth auth s) ≡ true
  unfolding build_responder_auth holds
  build_responder_auth-keeps auth s h k l = ground arith

module _ {V : Type 0} (t : Task V) {S : Type 0} (r : S → Bool) where
  -- The loop finds the list of tasks that the builder started with.
  pub add_tasks-keeps :
      (ts : List (t.BoxedTask)) (auth : Auth (V)) (s : S)
      → r s ≡ true
      → is_some auth.tasks ≡ true
      → is_some auth.task ≡ false
      → holds (λ a t. r t && is_some a.tasks && not (is_some a.task)) r (add_tasks t ts auth s)
        ≡ true
  unfolding add_tasks holds add_task
  add_tasks-keeps [] auth s h k l = ground arith
  add_tasks-keeps (x ∷ xs) auth s h k l = grind (arith, add_tasks-keeps xs)

-- ===== src/Messages/Builders.antt =====
-- `InitiatorAuthBuilder` and `ResponderAuthBuilder` of src/protocol/messages.rs. A builder is the
-- `auth` message that it wraps.
pub mod Outcomes
use Prim.Native.Nat.{Ordering}
use Prim.Native.String.{compare}
use saltyrtc_client_rs.Prelude.{
  not, none, some, List, [], ◌∷◌, ◌++◌, String, length, nat_eq, if◌then◌else◌, is_some, ◌==◌,
  nat_has_eq, string_has_eq, bytes_has_eq, M, pure, panics, or_panic, ◌>>=◌, ◌>>◌, throw_if,
  panic_if, Panic,
}
use saltyrtc_client_rs.Prelude.Dict.{insert}
use saltyrtc_client_rs.Errors.{SignalingError}
use saltyrtc_client_rs.Cookie.{Cookie}
use saltyrtc_client_rs.Messages.{Auth, TaskData}
use saltyrtc_client_rs.Deps.{Task}

-- `sort_unstable` of the standard library, as an insertion sort: on texts, where equal items cannot
-- be told apart, every sort gives the same list.
unfoldable pub insert_sorted : String → List String → List String
insert_sorted x [] = x ∷ []
insert_sorted x (y ∷ ys) =
    let rest = insert_sorted x ys in elim (compare x y) [ Ordering.gt ↦ y ∷ rest | _ ↦ x ∷ y ∷ ys ]

unfoldable pub sort : List String → List String
unfolding insert_sorted
sort [] = []
sort (x ∷ xs) = insert_sorted x (sort xs)

-- `dedup`: of equal neighbours only the first stays. `prev` is the item before.
unfoldable pub dedup_after : String → List String → List String
dedup_after prev [] = []
dedup_after prev (x ∷ xs) = let rest = dedup_after x xs in if prev == x then rest else x ∷ rest

unfoldable pub dedup : List String → List String
unfolding dedup_after
dedup [] = []
dedup (x ∷ xs) = x ∷ dedup_after x xs

module _ {V : Type 0} where
  -- `InitiatorAuthBuilder::new`
  unfoldable pub new_initiator_auth : Cookie → Auth V
  new_initiator_auth your_cookie = record {
    your_cookie = your_cookie;
    tasks = none;
    task = none;
    entries = [];
  }

  -- `InitiatorAuthBuilder::set_task`
  unfoldable pub set_task : String → TaskData V → Auth V → Auth V
  unfolding insert
  set_task name entry auth = record auth { task = some name; entries = insert name entry [] }

  -- `InitiatorAuthBuilder::build`
  unfoldable pub build_initiator_auth : {S : Type 0} → Auth V → M S SignalingError (Auth V)
  build_initiator_auth auth = do
    panic_if (is_some auth.tasks) Panic.task_already_set
    throw_if (not (is_some auth.task)) SignalingError.invalid_message
    pure auth

  -- `ResponderAuthBuilder::new`
  unfoldable pub new_responder_auth : Cookie → Auth V
  new_responder_auth your_cookie = record {
    your_cookie = your_cookie;
    tasks = some [];
    task = none;
    entries = [];
  }

  -- One round of the loop of `add_tasks`, for a task's name and data.
  unfoldable pub add_task :
      {S : Type 0} → String → TaskData V → Auth V → M S SignalingError (Auth V)
  unfolding insert
  add_task name entry auth = elim auth.tasks [
    | some tasks ↦ pure (record auth {
      tasks = some (tasks ++ (name ∷ []));
      entries = insert name entry auth.entries;
    })
    | none ↦ panics Panic.tasks_not_initialized
  ]

  -- `ResponderAuthBuilder::build`
  unfoldable pub build_responder_auth : {S : Type 0} → Auth V → M S SignalingError (Auth V)
  unfolding sort dedup
  build_responder_auth auth = do
    panic_if (is_some auth.task) Panic.task_already_set
    tasks ← or_panic auth.tasks Panic.tasks_not_initialized
    throw_if (nat_eq (length tasks) 0) SignalingError.invalid_message
    throw_if (not (nat_eq (length (dedup (sort tasks))) (length tasks)))
        SignalingError.invalid_message
    pure auth

module _ {V : Type 0} (t : Task V) where
  -- `ResponderAuthBuilder::add_tasks`
  unfoldable pub add_tasks : {S : Type 0} → List t.BoxedTask → Auth V → M S SignalingError (Auth V)
  unfolding add_task
  add_tasks [] auth = pure auth
  add_tasks (x ∷ xs) auth = do auth' ← add_task (t.name x) (t.task_data x) auth; add_tasks xs auth'

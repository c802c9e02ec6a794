-- ===== src/Tasks.antt =====
-- `Tasks` of src/tasks.rs: the list of tasks that the application registered, never empty.
pub mod Choice
use saltyrtc_client_rs.Prelude.{
  Option, none, some, List, [], ◌∷◌, ◌++◌, String, length, nat_eq, if◌then◌else◌, ◌==◌, nat_has_eq,
  string_has_eq, bytes_has_eq, any,
}
use saltyrtc_client_rs.Prelude.Dict.{Dict}
use saltyrtc_client_rs.CloseCode.{CloseCode}
use saltyrtc_client_rs.Deps.{Task}

module _ {V : Type 0} (t : Task V) where
  abbrev pub Tasks : Type 0
  Tasks = List t.BoxedTask

  -- `Tasks::from_vec`; `none` is the error for an empty vector.
  unfoldable pub from_vec : List t.BoxedTask → Option Tasks
  from_vec tasks = if nat_eq (length tasks) 0 then none else some tasks

  -- `Tasks::add_task`; `none` is the error for a name that is taken.
  unfoldable pub add_task : t.BoxedTask → Tasks → Option Tasks
  unfolding any
  add_task task tasks =
      if any (λ x. t.name x == t.name task) tasks then none else some (tasks ++ (task ∷ []))

  -- `Tasks::choose_shared_task`
  unfoldable pub choose_shared_task : Tasks → List String → Option t.BoxedTask
  unfolding any
  choose_shared_task [] names = none
  choose_shared_task (task ∷ tasks) names =
      if any (λ p. p == t.name task) names then some task else choose_shared_task tasks names

  -- `into_iter().find(|t| t.name() == name)`
  unfoldable pub find_task : String → Tasks → Option t.BoxedTask
  find_task name [] = none
  find_task name (task ∷ tasks) = if t.name task == name then some task else find_task name tasks

-- `enum TaskMessage`
pub data TaskMessage (V : Type 0) : Type 0 where
  value : Dict String V → TaskMessage V
  application : V → TaskMessage V
  close : CloseCode → TaskMessage V

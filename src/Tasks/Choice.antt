-- ===== src/Tasks/Choice.antt =====
-- Which task `choose_shared_task` and `find` settle on, and what `add_task` keeps.
use saltyrtc_client_rs.Prelude.{
  ◌≡◌, Bool, true, false, none, some, List, [], ◌∷◌, ◌++◌, String, arith, any, string_has_eq, refl,
  ap, if◌then◌else◌, ◌==◌, ◌↔◌,
}
use text.Mathlib.TextEquality.{eq_iff}
use saltyrtc_client_rs.Deps.{Task}
use saltyrtc_client_rs.Tasks.{choose_shared_task, find_task}

module _ {V : Type 0} (t : Task V) where
  -- None of the tasks has one of the names.
  abbrev pub NoneShared : List t.BoxedTask → List String → Type 0
  NoneShared [] names = Unit {0}
  NoneShared (x ∷ xs) names = (any (λ p. p == t.name x) names ≡ false) × NoneShared xs names

  -- `task` is in `ours`, its name is among the names, and no task before it has its name there.
  abbrev pub FirstShared : List t.BoxedTask → List String → t.BoxedTask → Type 0
  FirstShared ours names task =
      (before : List t.BoxedTask) × (after : List t.BoxedTask) × (ours ≡ before ++ (task ∷ after))
      × NoneShared before names
      × (any (λ p. p == t.name task) names ≡ true)

  shared-first :
      (x : t.BoxedTask) (xs : List t.BoxedTask) (names : List String) (task : t.BoxedTask)
      (b : Bool)
      → (choose_shared_task t xs names ≡ some task → FirstShared xs names task)
      → any (λ p. p == t.name x) names ≡ b
      → (if b then some x else choose_shared_task t xs names) ≡ some task
      → FirstShared (x ∷ xs) names task
  shared-first x xs names task true ih e h = ([], xs, ground arith, tt, ground arith)
  shared-first x xs names task false ih e h =
      let (before, after, same, none', shared) = ih h in
      (x ∷ before, after, ap (λ r. x ∷ r) same, (e, none'), shared)

  -- The task that `choose_shared_task` gives is one of ours whose name is among the names, and no
  -- task before it in our list has its name there: our order decides.
  pub choose_shared_task-first :
      (ours : List t.BoxedTask) (names : List String) (task : t.BoxedTask)
      → choose_shared_task t ours names ≡ some task
      → FirstShared ours names task
  unfolding choose_shared_task
  choose_shared_task-first [] names task h = absurd (ground arith)
  choose_shared_task-first (x ∷ xs) names task h =
      shared-first x xs names task _ (choose_shared_task-first xs names task) refl h

  -- `choose_shared_task` gives no task just if none of ours has its name among the names.
  pub choose_shared_task-none :
      (ours : List t.BoxedTask) (names : List String)
      → (choose_shared_task t ours names ≡ none) ↔ NoneShared ours names
  unfolding choose_shared_task
  choose_shared_task-none [] names = ground arith
  choose_shared_task-none (x ∷ xs) names = ground (arith, choose_shared_task-none xs names)

  -- The task that the peer's choice of a name gives is one of ours, and has this name.
  find_task-name :
      (name : String) (ours : List t.BoxedTask) (task : t.BoxedTask)
      → find_task t name ours ≡ some task
      → t.name task ≡ name
  unfolding find_task
  find_task-name name [] task h = absurd (ground arith)
  find_task-name name (x ∷ xs) task h =
      ground (arith, eq_iff (t.name x) name, find_task-name name xs task)

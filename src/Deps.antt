-- ===== src/Deps.antt =====
-- The packages that the signaling is built on, as one parameter: those of `External`, the msgpack
-- encoding of messages (serde's derived code and `rmp_serde`), the tasks that the application
-- registers (the trait of src/tasks.rs), and the order in which hash tables are iterated.
use saltyrtc_client_rs.Prelude.{
  elem, length, true, nat_has_eq, ℕ, ◌≡◌, Option, List, String, [], string_has_eq,
}
use saltyrtc_client_rs.Prelude.Dict.{keys, distinct, collect, Dict, lookup}
use saltyrtc_client_rs.CloseCode.{CloseCode}
use saltyrtc_client_rs.External.{Sodium, ByteOrder, Rmpv}
use saltyrtc_client_rs.Messages.{Message, TaskData}
use saltyrtc_client_rs.Types.{Address}

-- `rmps::to_vec_named` and `rmps::from_slice`, for messages and for values. `none` is the error.
pub record Msgpack (V : Type 0) : Type 0 where
  pub to_msgpack : Message V → List ℕ
  pub from_msgpack : List ℕ → Option (Message V)
  pub value_to_msgpack : V → List ℕ
  pub value_from_msgpack : List ℕ → Option V

-- `trait Task`, with the methods that the signaling calls. `init` gives the task after the call, or
-- `none` for an error.
pub record Task (V : Type 0) : Type 1 where
  pub BoxedTask : Type 0
  pub name : BoxedTask → String
  pub task_data : BoxedTask → TaskData V
  pub supported_types : BoxedTask → List String
  pub init : BoxedTask → TaskData V → Option BoxedTask

pub record Deps : Type 1 where
  pub sodium : Sodium
  pub byte_order : ByteOrder
  pub rmpv : Rmpv
  pub msgpack : Msgpack rmpv.Value
  pub task : Task rmpv.Value
  -- The addresses in a hash table, in the order of its iteration.
  pub iter_order : List Address → List Address
  -- The entries of a hash table with names as keys, in the order of its iteration.
  pub entry_order : Dict String rmpv.Value → Dict String rmpv.Value
  -- `CloseCode::to_string`, by the derived `Debug`.
  pub close_text : CloseCode → String

abbrev pub Value : Deps → Type 0
Value dep = dep.rmpv.Value

abbrev pub BoxedTask : Deps → Type 0
BoxedTask dep = dep.task.BoxedTask

abbrev pub Rng : Deps → Type 0
Rng dep = dep.sodium.Rng

-- The iteration of a hash table meets each key, and nothing else, once.
pub record IterOrderLaws (dep : Deps) : Type 0 where
  pub elem-iter_order :
      (a : Address) (as' : List Address) → elem a (dep.iter_order as') ≡ elem a as'
  pub length-iter_order : (as' : List Address) → length (dep.iter_order as') ≡ length as'

-- A hash table that is collected from the entries of another has the same entries, in whatever order
-- they come.
pub record EntryOrderLaws (dep : Deps) : Type 0 where
  pub lookup-collect :
      (k : String) (d : Dict String (Value dep))
      → distinct (keys d) ≡ true
      → lookup k (collect (dep.entry_order d) []) ≡ lookup k d

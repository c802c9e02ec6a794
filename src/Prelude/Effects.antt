-- ===== src/Prelude/Effects.antt =====
-- A call of a `&mut self` method that may fail or panic, as a function from the state before it.
-- An early return by `?` keeps the changes made so far; a panic leaves no state behind.
use mathlib.Core.Bool.{Bool, true, false}
use mathlib.Core.Option.{Option, none, some}

-- The asserts, unwraps and `unimplemented!` of the source that a call may run into.
pub data Panic : Type 0 where
  libsodium_init : Panic
  zero_random_cookie : Panic
  address_out_of_range : Panic
  missing_server_cookie : Panic
  signed_keys_length : Panic
  tasks_not_initialized : Panic
  task_already_set : Panic
  drop_responder_unimplemented : Panic
  polled_after_completion : Panic
  task_not_started : Panic
  message_without_type : Panic
  message_type_no_string : Panic
  handover_not_implemented : Panic

pub data Step (S E A : Type 0) : Type 0 where
  ok : A → S → Step S E A
  err : E → S → Step S E A
  panic : Panic → Step S E A

abbrev pub M : Type 0 → Type 0 → Type 0 → Type 0
M S E A = S → Step S E A

module _ {S E A : Type 0} where
  abbrev pub pure : A → M S E A
  pure a s = ok a s

  abbrev pub throw : E → M S E A
  throw e s = err e s

  abbrev pub panics : Panic → M S E A
  panics p s = panic p

  -- `ok_or_else(..)?`
  abbrev pub or_throw : Option A → E → M S E A
  or_throw o e s = elim o [ none ↦ err e s | some a ↦ ok a s ]

  -- `expect(..)`, `unwrap()`
  abbrev pub or_panic : Option A → Panic → M S E A
  or_panic o p s = elim o [ none ↦ panic p | some a ↦ ok a s ]

infixl 5 ◌>>=◌ ◌>>◌
abbrev pub ◌>>=◌ : {S E A B : Type 0} → M S E A → (A → M S E B) → M S E B
◌>>=◌ m f s = elim (m s) [ ok a t ↦ f a t | err e t ↦ err e t | panic p ↦ panic p ]

abbrev pub ◌>>◌ : {S E B : Type 0} → M S E (Unit {0}) → M S E B → M S E B
m >> k = m >>= λ _. k

module _ {S E : Type 0} where
  abbrev pub get : M S E S
  get s = ok s s

  abbrev pub gets : {A : Type 0} → (S → A) → M S E A
  gets f s = ok (f s) s

  abbrev pub modify : (S → S) → M S E (Unit {0})
  modify f s = ok tt (f s)

  abbrev pub throw_if : Bool → E → M S E (Unit {0})
  throw_if b e s = elim b [ true ↦ err e s | false ↦ ok tt s ]

  abbrev pub panic_if : Bool → Panic → M S E (Unit {0})
  panic_if b p s = elim b [ true ↦ panic p | false ↦ ok tt s ]

-- A call on a part of the state.
abbrev pub zoom : {S T E A : Type 0} → (S → T) → (T → S → S) → M T E A → M S E A
zoom part put m s = elim (m (part s)) [
  | ok a t ↦ ok a (put t s)
  | err e t ↦ err e (put t s)
  | panic p ↦ panic p
]

-- A call on a local value, which an error drops.
abbrev pub local : {S T E A : Type 0} → M T E A → T → M S E (A × T)
local m t s = elim (m t) [ ok a u ↦ ok (a, u) s | err e u ↦ err e s | panic p ↦ panic p ]

-- `map_err`
abbrev pub map_err : {S E F A : Type 0} → (E → F) → M S E A → M S F A
map_err f m s = elim (m s) [ ok a t ↦ ok a t | err e t ↦ err (f e) t | panic p ↦ panic p ]

-- ===== src/Prelude/Dict.antt =====
-- `HashMap` as an association list.
pub mod Collect
use mathlib.Core.Bool.{Bool, true, not, ◌&&◌}
use mathlib.Core.Option.{Option, none, some}
use mathlib.Core.List.{List, [], ◌∷◌}
use saltyrtc_client_rs.Prelude.Lists.{elem}
use saltyrtc_client_rs.Prelude.Tests.{Eq, ◌==◌, if◌then◌else◌, is_some}

abbrev pub Dict : Type 0 → Type 0 → Type 0
Dict K V = List (K × V)

module _ {K V : Type 0} ⦃e : Eq K⦄ where
  unfoldable pub lookup : K → Dict K V → Option V
  lookup k [] = none
  lookup k ((j, v) ∷ d) = if k == j then some v else lookup k d

  unfoldable pub insert : K → V → Dict K V → Dict K V
  insert k v [] = (k, v) ∷ []
  insert k v ((j, w) ∷ d) = if k == j then (k, v) ∷ d else (j, w) ∷ insert k v d

  unfoldable pub remove : K → Dict K V → Dict K V
  remove k [] = []
  remove k ((j, w) ∷ d) = let rest = remove k d in if k == j then rest else (j, w) ∷ rest

  -- A hash table from pairs, of which a later one takes the place of an earlier one with its key
  unfoldable pub collect : Dict K V → Dict K V → Dict K V
  unfolding insert
  collect [] acc = acc
  collect ((k, v) ∷ d) acc = collect d (insert k v acc)

  abbrev pub contains_key : K → Dict K V → Bool
  contains_key k d = is_some (lookup k d)

unfoldable pub keys : {K V : Type 0} → Dict K V → List K
keys [] = []
keys ((k, v) ∷ d) = k ∷ keys d

unfoldable pub values : {K V : Type 0} → Dict K V → List V
values [] = []
values ((k, v) ∷ d) = v ∷ values d

-- Whether no key comes twice
unfoldable pub distinct : {K : Type 0} ⦃e : Eq K⦄ → List K → Bool
unfolding elem
distinct [] = true
distinct (k ∷ ks) = not (elem k ks) && distinct ks

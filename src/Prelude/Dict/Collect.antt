-- ===== src/Prelude/Dict/Collect.antt =====
-- What is in a dictionary that is collected from entries.
use mathlib.Core.Path.{◌≡◌, refl}
use mathlib.Core.Bool.{true, false}
use mathlib.Core.Option.{Option, none, some}
use mathlib.Core.List.{[], ◌∷◌}
use native.Mathlib.Omega.{arith}
use saltyrtc_client_rs.Prelude.Lists.{elem}
use saltyrtc_client_rs.Prelude.Tests.{Eq, ◌==◌, if◌then◌else◌}
use saltyrtc_client_rs.Prelude.Dict.{Dict, lookup, insert, collect, keys, distinct}

abbrev pub or_else : {V : Type 0} → Option V → Option V → Option V
or_else none o = o
or_else (some v) o = some v

module _ {K V : Type 0} ⦃e : Eq K⦄ where
  lookup-unlisted : (k : K) (d : Dict K V) → elem k (keys d) ≡ false → lookup k d ≡ none
  unfolding lookup elem keys
  lookup-unlisted k [] h = refl
  lookup-unlisted k ((j, v) ∷ d) h = ground (arith, h, lookup-unlisted k d)

  lookup-insert :
      (k j : K) (v : V) (d : Dict K V)
      → lookup k (insert j v d) ≡ (if k == j then some v else lookup k d)
  unfolding lookup insert
  lookup-insert k j v [] = refl
  lookup-insert k j v ((i, w) ∷ d) =
      ground (arith, lookup-insert k j v d, e.same_iff k i, e.same_iff j i, e.same_iff k j)

  lookup-collect :
      (k : K) (d acc : Dict K V)
      → distinct (keys d) ≡ true
      → lookup k (collect d acc) ≡ or_else (lookup k d) (lookup k acc)
  unfolding lookup collect distinct keys
  lookup-collect k [] acc h = refl
  lookup-collect k ((j, v) ∷ d) acc h = ground (
    arith,
    h,
    lookup-collect k d (insert j v acc),
    lookup-insert k j v acc,
    lookup-unlisted j d,
    e.same_iff k j,
  )

  -- Entries whose keys are distinct are collected to a dictionary with the same entries.
  pub lookup-collect_all :
      (k : K) (d : Dict K V) → distinct (keys d) ≡ true → lookup k (collect d []) ≡ lookup k d
  unfolding lookup
  lookup-collect_all k d h = ground (arith, lookup-collect k d [] h)

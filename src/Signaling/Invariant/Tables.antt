-- ===== src/Signaling/Invariant/Tables.antt =====
-- The keys of the table of responders.
use saltyrtc_client_rs.Prelude.{◌≡◌, true, some, [], ◌∷◌, arith, refl, nat_has_eq, leb}
use saltyrtc_client_rs.Prelude.Dict.{Dict, lookup, insert, remove}
use saltyrtc_client_rs.Types.{Address}
use saltyrtc_client_rs.Context.{ResponderContext}
use saltyrtc_client_rs.Signaling.Invariant.{keyed_by_address}

pub lookup-keyed :
    (d : Dict Address ResponderContext) (a : Address) (r : ResponderContext)
    → keyed_by_address d ≡ true
    → lookup a d ≡ some r
    → (r.address ≡ a) × (leb 2 a ≡ true)
unfolding lookup keyed_by_address
lookup-keyed [] a r h e = ground arith
lookup-keyed ((b, x) ∷ d) a r h e = ground (arith, lookup-keyed d a r)

pub insert-keyed :
    (d : Dict Address ResponderContext) (a : Address) (r : ResponderContext)
    → keyed_by_address d ≡ true
    → r.address ≡ a
    → leb 2 a ≡ true
    → keyed_by_address (insert a r d) ≡ true
unfolding insert keyed_by_address
insert-keyed [] a r h e l = ground arith
insert-keyed ((b, x) ∷ d) a r h e l = ground (arith, insert-keyed d a r)

pub remove-keyed :
    (d : Dict Address ResponderContext) (a : Address)
    → keyed_by_address d ≡ true
    → keyed_by_address (remove a d) ≡ true
unfolding remove keyed_by_address
remove-keyed [] a h = refl
remove-keyed ((b, x) ∷ d) a h = ground (arith, remove-keyed d a)

pub lookup-insert :
    (a : Address) (r : ResponderContext) (d : Dict Address ResponderContext)
    → lookup a (insert a r d) ≡ some r
unfolding lookup insert
lookup-insert a r [] = ground arith
lookup-insert a r ((b, x) ∷ d) = ground (arith, lookup-insert a r d)

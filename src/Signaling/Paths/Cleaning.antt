-- ===== src/Signaling/Paths/Cleaning.antt =====
-- Which responder `drop_oldest_inactive_responder` drops, and the set of those that are listed.
use saltyrtc_client_rs.Prelude.{
  ◌≡◌, ◌≤◌, Bool, true, false, none, some, List, [], ◌∷◌, arith, nat_has_eq, refl, All, ltb,
  if◌then◌else◌, Bool-cases, ◌⊎◌, inl, inr, ◌∙◌, ap, subst, ◌↔◌,
}
use saltyrtc_client_rs.State.{is_responder_new}
use saltyrtc_client_rs.Types.{Address}
use saltyrtc_client_rs.Context.{ResponderContext}
use saltyrtc_client_rs.Signaling.Paths.{oldest_inactive, min_by_counter, inactive}

-- The responder is one of the list.
abbrev pub IsIn : ResponderContext → List ResponderContext → Type 0
IsIn r [] = ⊥
IsIn r (x ∷ xs) = (r ≡ x) ⊎ IsIn r xs

min_by_counter-IsIn :
    (best : ResponderContext) (rs : List ResponderContext)
    → (min_by_counter best rs ≡ best) ⊎ IsIn (min_by_counter best rs) rs
unfolding min_by_counter
min_by_counter-IsIn best [] = inl refl
min_by_counter-IsIn best (r ∷ rs) =
    elim (min_by_counter-IsIn (if ltb r.counter best.counter then r else best) rs) [
      | inl e ↦ elim (Bool-cases (ltb r.counter best.counter)) [
        | inl y ↦ inr (inl (e ∙ rw y refl))
        | inr n ↦ inl (e ∙ rw n refl)
      ]
      | inr m ↦ inr (inr m)
    ]

min_by_counter-least :
    (best : ResponderContext) (rs : List ResponderContext)
    → ((min_by_counter best rs).counter ≤ best.counter)
      × All (λ r. (min_by_counter best rs).counter ≤ r.counter) rs
unfolding min_by_counter
min_by_counter-least best [] = ground arith
min_by_counter-least best (r ∷ rs) =
    let (least, rest) = min_by_counter-least (if ltb r.counter best.counter then r else best) rs in
    (ground (arith, least), (ground (arith, least), rest))

inactive_step :
    (r x : ResponderContext) (xs rest : List ResponderContext) (b : Bool)
    → is_responder_new x.handshake_state ≡ b
    → (IsIn r rest → IsIn r xs × (is_responder_new r.handshake_state ≡ true))
    → IsIn r (if b then x ∷ rest else rest)
    → IsIn r (x ∷ xs) × (is_responder_new r.handshake_state ≡ true)
inactive_step r x xs rest true e ih (inl same) =
    (inl same, ap (λ c. is_responder_new c.handshake_state) same ∙ e)
inactive_step r x xs rest true e ih (inr m) = let (here, fresh) = ih m in (inr here, fresh)
inactive_step r x xs rest false e ih m = let (here, fresh) = ih m in (inr here, fresh)

inactive-IsIn :
    (r : ResponderContext) (rs : List ResponderContext)
    → IsIn r (inactive rs)
    → IsIn r rs × (is_responder_new r.handshake_state ≡ true)
unfolding inactive
inactive-IsIn r [] m = absurd m
inactive-IsIn r (x ∷ xs) m = inactive_step r x xs (inactive xs) _ refl (inactive-IsIn r xs) m

-- What holds of the inactive responders
abbrev pub Inactive : (ResponderContext → Type 0) → ResponderContext → Type 0
Inactive P r = is_responder_new r.handshake_state ≡ true → P r

Inactive-All_step :
    (P : ResponderContext → Type 0) (x : ResponderContext) (xs rest : List ResponderContext)
    (b : Bool)
    → is_responder_new x.handshake_state ≡ b
    → (All P rest → All (Inactive P) xs)
    → All P (if b then x ∷ rest else rest)
    → All (Inactive P) (x ∷ xs)
Inactive-All_step P x xs rest true e ih (p, ps) = ((λ _. p), ih ps)
Inactive-All_step P x xs rest false e ih ps = ((λ y. absurd (ground (arith, y, e))), ih ps)

inactive-All :
    (P : ResponderContext → Type 0) (rs : List ResponderContext)
    → All P (inactive rs)
    → All (Inactive P) rs
unfolding inactive
inactive-All P [] ps = tt
inactive-All P (x ∷ xs) ps = Inactive-All_step P x xs (inactive xs) _ refl (inactive-All P xs) ps

-- The responder at the address `a` that is dropped to make room
abbrev pub IsOldest : Address → List ResponderContext → Type 0
IsOldest a rs =
    (r : ResponderContext) × (r.address ≡ a)
    × IsIn r rs
    × (is_responder_new r.handshake_state ≡ true)
    × All (Inactive (λ x. r.counter ≤ x.counter)) rs

IsOldest-of :
    (rs some' : List ResponderContext) (a : Address)
    → some' ≡ inactive rs
    → (elim some' [ [] ↦ none | r ∷ more ↦ some (min_by_counter r more).address ]) ≡ some a
    → IsOldest a rs
IsOldest-of rs [] a e h = absurd (ground arith)
IsOldest-of rs (r ∷ more) a e h =
    let (least, all_least) = min_by_counter-least r more in
    let (here, fresh) =
      inactive-IsIn (min_by_counter r more) rs
        (subst (IsIn (min_by_counter r more)) e (min_by_counter-IsIn r more)) in
    (
      min_by_counter r more,
      ground arith,
      here,
      fresh,
      inactive-All (λ x. (min_by_counter r more).counter ≤ x.counter) rs
          (subst (All (λ x. (min_by_counter r more).counter ≤ x.counter)) e (least, all_least)),
    )

-- The responder that is dropped when there are too many is one of the table that has not begun its
-- handshake, and among these it is one that came first: no other has a smaller counter.
pub oldest_inactive-IsOldest :
    (rs : List ResponderContext) (a : Address) → oldest_inactive rs ≡ some a → IsOldest a rs
unfolding oldest_inactive
oldest_inactive-IsOldest rs a h = IsOldest-of rs (inactive rs) a refl h

-- No responder is dropped just if each has begun its handshake.
pub oldest_inactive-none :
    (rs : List ResponderContext)
    → (oldest_inactive rs ≡ none) ↔ All (λ r. is_responder_new r.handshake_state ≡ false) rs
unfolding oldest_inactive inactive
oldest_inactive-none [] = ground arith
oldest_inactive-none (r ∷ rs) = ground (arith, oldest_inactive-none rs)

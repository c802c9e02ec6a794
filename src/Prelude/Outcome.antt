-- ===== src/Prelude/Outcome.antt =====
-- What a call ends in: a test on the result and the state after a success, one on the state after
-- an error, and the panics that a call may end in.
use mathlib.Core.Bool.{Bool, true, false}
use mathlib.Core.Option.{Option, none, some}
use mathlib.Core.Path.{◌≡◌, refl}
use saltyrtc_client_rs.Prelude.Effects.{
  or_throw, M, local, Panic, Step, ok, err, panic, libsodium_init, zero_random_cookie,
  signed_keys_length, drop_responder_unimplemented,
}

-- The panics that the state of the client does not decide: libsodium could not be initialised, or
-- gave a cookie of zeros; the server sealed keys of another length, or sent `drop-responder`.
unfoldable pub is_foreign : Panic → Bool
is_foreign libsodium_init = true
is_foreign zero_random_cookie = true
is_foreign signed_keys_length = true
is_foreign drop_responder_unimplemented = true
is_foreign _ = false

unfoldable pub holds : {S E A : Type 0} → (A → S → Bool) → (S → Bool) → Step S E A → Bool
unfolding is_foreign
holds q r (ok a s) = q a s
holds q r (err e s) = r s
holds q r (panic p) = is_foreign p

-- The call keeps to `r`, whatever it ends in.
abbrev pub keeps : {S E A : Type 0} → (S → Bool) → Step S E A → Bool
keeps r x = holds (λ _ s. r s) r x

-- A call that ended in `x`, and then the rest.
abbrev pub continue : {S E A B : Type 0} → (A → M S E B) → Step S E A → Step S E B
continue f (ok a t) = f a t
continue f (err e t) = err e t
continue f (panic p) = panic p

pub keeps-continue :
    {S E A B : Type 0} (r : S → Bool) (f : A → M S E B) (x : Step S E A)
    → keeps r x ≡ true
    → ((a : A) (t : S) → r t ≡ true → keeps r (f a t) ≡ true)
    → keeps r (continue f x) ≡ true
unfolding holds
keeps-continue r f (ok a t) h k = k a t h
keeps-continue r f (err e t) h k = h
keeps-continue r f (panic p) h k = h

-- A call on a local value, of which `p` holds afterwards, and then the rest.
pub keeps-local :
    {S T E A B : Type 0} (r : S → Bool) (p : T → Bool) (f : A × T → M S E B) (m : M T E A) (u : T)
    (s : S)
    → r s ≡ true
    → keeps p (m u) ≡ true
    → ((a : A) (t : T) → p t ≡ true → keeps r (f (a, t) s) ≡ true)
    → keeps r (continue f (local m u s)) ≡ true
unfolding holds
keeps-local {T = T} {E = E} {A = A} r p f m u s h k l = step (m u) k
  where
    step :
        (x : Step T E A)
        → keeps p x ≡ true
        → keeps r
            (continue f (elim x [ ok a t ↦ ok (a, t) s | err e t ↦ err e s | panic q ↦ panic q ]))
          ≡ true
    step (ok a t) k = l a t k
    step (err e t) k = h
    step (panic q) k = k

-- A value that has to be there, and then the rest.
pub keeps-or_throw :
    {S E A B : Type 0} (r : S → Bool) (f : A → M S E B) (o : Option A) (e : E) (s : S)
    → r s ≡ true
    → ((a : A) → o ≡ some a → keeps r (f a s) ≡ true)
    → keeps r (continue f (or_throw o e s)) ≡ true
unfolding holds
keeps-or_throw r f none e s h k = h
keeps-or_throw r f (some a) e s h k = k a refl

-- The same, where the rest relies on more.
pub keeps-continue_from :
    {S E A B : Type 0} (p r : S → Bool) (f : A → M S E B) (x : Step S E A)
    → keeps p x ≡ true
    → ((s : S) → p s ≡ true → r s ≡ true)
    → ((a : A) (t : S) → p t ≡ true → keeps r (f a t) ≡ true)
    → keeps r (continue f x) ≡ true
unfolding holds
keeps-continue_from p r f (ok a t) h g k = k a t h
keeps-continue_from p r f (err e t) h g k = g t h
keeps-continue_from p r f (panic q) h g k = h

-- A call and the rest succeed if both do.
pub continue-ok :
    {S E A B : Type 0} (f : A → M S E B) (x : Step S E A) (b : B) (t : S)
    → continue f x ≡ ok b t
    → (a : A) × (s : S) × (x ≡ ok a s) × (f a s ≡ ok b t)
continue-ok f (ok a s) b t h = (a, s, refl, h)
continue-ok f (err e s) b t h = cc
continue-ok f (panic p) b t h = cc

-- `q` holds of the result and the state, if the call succeeds.
unfoldable pub ensures : {S E A : Type 0} → (A → S → Bool) → Step S E A → Bool
ensures q (ok a s) = q a s
ensures q (err e s) = true
ensures q (panic p) = true

-- Only the rest decides.
pub ensures-continue :
    {S E A B : Type 0} (q : B → S → Bool) (f : A → M S E B) (x : Step S E A)
    → ((a : A) (t : S) → ensures q (f a t) ≡ true)
    → ensures q (continue f x) ≡ true
unfolding ensures
ensures-continue q f (ok a t) k = k a t
ensures-continue q f (err e t) k = refl
ensures-continue q f (panic p) k = refl

-- The rest may rely on what the first call ensures.
pub ensures-continue_from :
    {S E A B : Type 0} (p : A → S → Bool) (q : B → S → Bool) (f : A → M S E B) (x : Step S E A)
    → ensures p x ≡ true
    → ((a : A) (t : S) → p a t ≡ true → ensures q (f a t) ≡ true)
    → ensures q (continue f x) ≡ true
unfolding ensures
ensures-continue_from p q f (ok a t) h k = k a t h
ensures-continue_from p q f (err e t) h k = refl
ensures-continue_from p q f (panic r) h k = refl

pub ensures-local :
    {S T E A : Type 0} (q : A → Bool) (m : M T E A) (u : T) (s : S)
    → ensures (λ a _. q a) (m u) ≡ true
    → ensures (λ (p : A × T) _. q p.0) (local m u s) ≡ true
unfolding ensures
ensures-local {S = S} {T = T} {E = E} {A = A} q m u s h = step (m u) h
  where
    step :
        (x : Step T E A)
        → ensures (λ a _. q a) x ≡ true
        → ensures
            (λ (p : A × T) (_ : S). q p.0)
            (elim x [ ok a t ↦ ok (a, t) s | err e t ↦ err e s | panic r ↦ panic r ])
          ≡ true
    step (ok a t) h = h
    step (err e t) h = refl
    step (panic r) h = refl

pub ensures-weaken :
    {S E A : Type 0} (p q : A → S → Bool) (x : Step S E A)
    → ensures p x ≡ true
    → ((a : A) (s : S) → p a s ≡ true → q a s ≡ true)
    → ensures q x ≡ true
unfolding ensures
ensures-weaken p q (ok a s) h k = k a s h
ensures-weaken p q (err e s) h k = refl
ensures-weaken p q (panic r) h k = refl

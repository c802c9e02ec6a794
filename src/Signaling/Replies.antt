-- ===== src/Signaling/Replies.antt =====
-- Which actions the handlers give, in which state of the signaling.
pub mod Roles
pub mod Unchanged
pub mod Phases
pub mod Typed
use saltyrtc_client_rs.Prelude.{
  ◌≡◌, refl, Bool, true, false, not, ◌&&◌, ◌||◌, if◌then◌else◌, List, [], ◌∷◌, ◌++◌, arith, any,
  nat_has_eq,
}
use saltyrtc_client_rs.State.{SignalingState, signaling_state_eq}
use saltyrtc_client_rs.Signaling.{HandleAction}

module _ {V : Type 0} where
  abbrev pub is_done : HandleAction V → Bool
  is_done HandleAction.handshake_done = true
  is_done (HandleAction.reply _) = false
  is_done (HandleAction.handshake_error _) = false
  is_done (HandleAction.event _) = false
  is_done (HandleAction.task_message _) = false

  abbrev pub is_error : HandleAction V → Bool
  is_error (HandleAction.handshake_error _) = true
  is_error HandleAction.handshake_done = false
  is_error (HandleAction.reply _) = false
  is_error (HandleAction.event _) = false
  is_error (HandleAction.task_message _) = false

  abbrev pub is_task_message : HandleAction V → Bool
  is_task_message (HandleAction.task_message _) = true
  is_task_message HandleAction.handshake_done = false
  is_task_message (HandleAction.reply _) = false
  is_task_message (HandleAction.event _) = false
  is_task_message (HandleAction.handshake_error _) = false

  -- Neither the end of a handshake nor a task message: replies and events
  unfoldable pub plain : List (HandleAction V) → Bool
  plain [] = true
  plain (a ∷ as') = not (is_done a || is_error a || is_task_message a) && plain as'

  -- No task message; the end of the handshake only if it has led to the task state
  unfoldable pub settles : Bool → List (HandleAction V) → Bool
  settles in_task [] = true
  settles in_task (a ∷ as') =
      not (is_task_message a) && (not (is_done a) || in_task) && settles in_task as'

  -- No end of a handshake
  unfoldable pub carries_on : List (HandleAction V) → Bool
  carries_on [] = true
  carries_on (a ∷ as') = not (is_done a || is_error a) && carries_on as'

  pub plain-append :
      (xs ys : List (HandleAction V)) → plain xs ≡ true → plain ys ≡ true → plain (xs ++ ys) ≡ true
  unfolding plain
  plain-append [] ys h k = k
  plain-append (x ∷ xs) ys h k = ground (arith, plain-append xs ys)

  pub settles-append :
      (b : Bool) (xs ys : List (HandleAction V))
      → settles b xs ≡ true
      → settles b ys ≡ true
      → settles b (xs ++ ys) ≡ true
  unfolding settles
  settles-append b [] ys h k = k
  settles-append b (x ∷ xs) ys h k = ground (arith, settles-append b xs ys)

  pub plain-settles :
      (b : Bool) (as' : List (HandleAction V)) → plain as' ≡ true → settles b as' ≡ true
  unfolding plain settles
  plain-settles b [] h = refl
  plain-settles b (a ∷ as') h = ground (arith, plain-settles b as')

  pub plain-carries_on : (as' : List (HandleAction V)) → plain as' ≡ true → carries_on as' ≡ true
  unfolding plain carries_on
  plain-carries_on [] h = refl
  plain-carries_on (a ∷ as') h = ground (arith, plain-carries_on as')

abbrev pub in_task : SignalingState → Bool
in_task state = signaling_state_eq state SignalingState.task

-- Whether actions may come of a message, by whether the signaling was in the task state before and
-- is in it afterwards.
unfoldable pub allowed : {V : Type 0} → Bool → List (HandleAction V) → Bool → Bool
unfolding carries_on settles
allowed true as' after = carries_on as'
allowed false as' after = settles after as'

pub plain-allowed :
    {V : Type 0} (before : Bool) (xs : List (HandleAction V)) (after : Bool)
    → plain xs ≡ true
    → allowed before xs after ≡ true
unfolding allowed
plain-allowed true xs after h = plain-carries_on xs h
plain-allowed false xs after h = plain-settles after xs h

-- Whether the actions end the handshake
unfoldable pub finishes : {V : Type 0} → List (HandleAction V) → Bool
finishes [] = false
finishes (a ∷ xs) = is_done a || finishes xs

pub allowed-settles :
    {V : Type 0} (before : Bool) (xs : List (HandleAction V)) (after : Bool)
    → allowed before xs after ≡ true
    → before ≡ false
    → settles after xs ≡ true
unfolding allowed
allowed-settles true xs after h e = absurd (ground (arith, e))
allowed-settles false xs after h e = h

settles-done :
    {V : Type 0} (after : Bool) (xs : List (HandleAction V))
    → settles after xs ≡ true
    → finishes xs ≡ true
    → after ≡ true
unfolding settles finishes
settles-done after [] h k = absurd (ground (arith, k))
settles-done after (x ∷ xs) h k = ground (arith, settles-done after xs)

carries_on-done :
    {V : Type 0} (xs : List (HandleAction V)) → carries_on xs ≡ true → finishes xs ≡ false
unfolding carries_on finishes
carries_on-done [] h = refl
carries_on-done (x ∷ xs) h = ground (arith, carries_on-done xs)

pub allowed-done :
    {V : Type 0} (before : Bool) (xs : List (HandleAction V)) (after : Bool)
    → allowed before xs after ≡ true
    → finishes xs ≡ true
    → after ≡ true
unfolding allowed
allowed-done true xs after h k = absurd (ground (arith, carries_on-done xs h, k))
allowed-done false xs after h k = settles-done after xs h k

pub allowed-carries_on :
    {V : Type 0} (before : Bool) (xs : List (HandleAction V)) (after : Bool)
    → allowed before xs after ≡ true
    → before ≡ true
    → carries_on xs ≡ true
unfolding allowed
allowed-carries_on true xs after h e = h
allowed-carries_on false xs after h e = absurd (ground (arith, e))

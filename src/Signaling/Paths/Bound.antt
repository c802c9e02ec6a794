-- ===== src/Signaling/Paths/Bound.antt =====
-- How many responders an initiator keeps: the limit of 252 in `process_new_responder`.
use saltyrtc_client_rs.Prelude.{
  ℕ, ◌+◌, ◌≤◌, ◌<◌, ◌≡◌, Bool, true, false, Option, none, some, [], ◌∷◌, ok, arith, length,
  nat_has_eq, pure, ltb, if◌then◌else◌, zoom, modify, ap, Bool-cases, Option-cases, inl, inr, ◌∙◌,
  ◌⊎◌, is_some, subst, refl,
}
use saltyrtc_client_rs.Prelude.Outcome.{continue-ok}
use saltyrtc_client_rs.Prelude.Dict.{Dict, lookup, insert, remove, values, contains_key}
use saltyrtc_client_rs.Errors.{SignalingError}
use saltyrtc_client_rs.Types.{Address}
use saltyrtc_client_rs.State.{is_responder_new}
use saltyrtc_client_rs.Context.{ResponderContext, new_responder_context}
use saltyrtc_client_rs.Deps.{Deps, Value}
use saltyrtc_client_rs.Signaling.{
  AuthProvider, HandleAction, InitiatorSignaling, in_initiator_common, in_rng, increment_counter,
}
use saltyrtc_client_rs.Signaling.Encode.{send_drop_responder}
use saltyrtc_client_rs.Signaling.Paths.{
  oldest_inactive, inactive, drop_oldest_inactive_responder, register_responder,
  process_new_responder, apply_trusted_key,
}
use saltyrtc_client_rs.Signaling.Paths.Cleaning.{IsOldest, oldest_inactive-IsOldest}
use saltyrtc_client_rs.Signaling.Invariant.Tables.{lookup-insert}

length-insert :
    (a : Address) (r : ResponderContext) (d : Dict Address ResponderContext)
    → length (insert a r d) ≤ length d + 1
unfolding insert
length-insert a r [] = omega arith
length-insert a r ((b, x) ∷ d) = ground (arith, length-insert a r d)

length-remove : (a : Address) (d : Dict Address ResponderContext) → length (remove a d) ≤ length d
unfolding remove
length-remove a [] = omega arith
length-remove a ((b, x) ∷ d) = ground (arith, length-remove a d)

remove-shorter :
    (a : Address) (r : ResponderContext) (d : Dict Address ResponderContext)
    → lookup a d ≡ some r
    → length (remove a d) < length d
unfolding lookup remove
remove-shorter a r [] h = absurd (ground (arith, h))
remove-shorter a r ((b, x) ∷ d) h = ground (arith, h, remove-shorter a r d, length-remove a d)

remove-absent :
    (a : Address) (d : Dict Address ResponderContext) → lookup a d ≡ none → remove a d ≡ d
unfolding lookup remove
remove-absent a [] h = refl
remove-absent a ((b, x) ∷ d) h = ground (arith, h, remove-absent a d)

-- The table with the context `r` under the address `a`, in place of the one that was there
abbrev pub replaced :
    Address → ResponderContext → Dict Address ResponderContext → Dict Address ResponderContext
replaced a r d = insert a r (remove a d)

-- If nobody is inactive, then nobody in the table is.
none_inactive :
    (a : Address) (r : ResponderContext) (d : Dict Address ResponderContext)
    → oldest_inactive (values d) ≡ none
    → lookup a d ≡ some r
    → is_responder_new r.handshake_state ≡ false
unfolding oldest_inactive inactive lookup values
none_inactive a r [] h e = absurd (ground (arith, e))
none_inactive a r ((b, x) ∷ d) h e = ground (arith, h, e, none_inactive a r d)

length-replaced :
    (a : Address) (r : ResponderContext) (d : Dict Address ResponderContext)
    → length (replaced a r d) ≤ length d + 1
length-replaced a r d = omega (arith, length-insert a r (remove a d), length-remove a d)

-- What becomes of the table `d` with the new responder in it: it stays if it is not too full, and
-- else loses the oldest inactive responder and no other.
pub Cleaned :
    {A : Type 0} → Dict Address ResponderContext → Option A → Dict Address ResponderContext → Type 0
Cleaned d o d' =
    ((length d ≤ 252) × (o ≡ none) × (d' ≡ d))
    ⊎ ((252 < length d)
        × (is_some o ≡ true)
        × ((addr : Address) × IsOldest addr (values d) × (d' ≡ remove addr d)))

-- `if let Some(AuthProvider::TrustedKey(_))`
abbrev pub trusts : Option AuthProvider → Bool
trusts (some (AuthProvider.trusted_key _)) = true
trusts (some (AuthProvider.token _)) = false
trusts none = false

module _ {dep : Deps} where
  -- The table without the old context of the address
  abbrev pub without : Address → InitiatorSignaling dep → InitiatorSignaling dep
  without a s =
      if contains_key a s.responders then record s { responders = remove a s.responders } else s

  pub without-table :
      (a : Address) (s : InitiatorSignaling dep) → (without a s).responders ≡ remove a s.responders
  without-table a s = elim (Option-cases (lookup a s.responders)) [
    | inl absent ↦ ground (arith, absent, remove-absent a s.responders absent)
    | inr (r, found) ↦ ground (arith, found)
  ]

  pub without-provider :
      (a : Address) (s : InitiatorSignaling dep)
      → (without a s).common.auth_provider ≡ s.common.auth_provider
  without-provider a s = ground arith

  pub inserted :
      (a : Address) (x : ResponderContext) (w t : InitiatorSignaling dep)
      → modify {E = SignalingError} (λ z. record z { responders = insert a x z.responders }) w
        ≡ ok tt t
      → t.responders ≡ insert a x w.responders
  inserted a x w t e = ground (arith, e)

  pub inserted-provider :
      (a : Address) (x : ResponderContext) (w t : InitiatorSignaling dep)
      → modify {E = SignalingError} (λ z. record z { responders = insert a x z.responders }) w
        ≡ ok tt t
      → t.common.auth_provider ≡ w.common.auth_provider
  inserted-provider a x w t e = ground (arith, e)

  pub fresh-new :
      (a : Address) (counter : ℕ) (r : ResponderContext) (s t : InitiatorSignaling dep)
      → in_initiator_common {E = SignalingError}
          (in_rng (new_responder_context dep.sodium a counter))
          s
        ≡ ok r t
      → ((r.address ≡ a) × (is_responder_new r.handshake_state ≡ true))
        × (t.responders ≡ s.responders)
        × (t.common.auth_provider ≡ s.common.auth_provider)
  unfolding new_responder_context
  fresh-new a counter r s t e =
      ((ground (arith, e), ground (arith, e)), ground (arith, e), ground (arith, e))

  applied-same :
      (p : Option AuthProvider) (r x : ResponderContext) (s t : InitiatorSignaling dep)
      → trusts p ≡ false
      → apply_trusted_key p r s ≡ ok x t
      → (x ≡ r) × (t ≡ s)
  unfolding apply_trusted_key
  applied-same (some (AuthProvider.trusted_key _)) r x s t h e = absurd (ground (arith, h))
  applied-same (some (AuthProvider.token _)) r x s t h e = (ground (arith, e), ground (arith, e))
  applied-same none r x s t h e = (ground (arith, e), ground (arith, e))

  pub counted-same :
      (n : ℕ) (s t : InitiatorSignaling dep)
      → zoom
          (λ t. t.responder_counter)
          (λ c t. record t { responder_counter = c })
          increment_counter
          s
        ≡ ok n t
      → (t.responders ≡ s.responders) × (t.common ≡ s.common)
  unfolding increment_counter
  counted-same n s t e = (ground (arith, e), ground (arith, e))

  registered :
      (a : Address) (s t : InitiatorSignaling dep)
      → trusts s.common.auth_provider ≡ false
      → register_responder a s ≡ ok tt t
      → (r : ResponderContext) × (r.address ≡ a)
        × (is_responder_new r.handshake_state ≡ true)
        × (t.responders ≡ replaced a r s.responders)
  unfolding register_responder
  registered a s t h e =
      let (n, u, eu, e1) =
        continue-ok _
          (zoom (λ t. t.responder_counter) (λ c t. record t { responder_counter = c })
            increment_counter (without a s))
          tt t e in
      let (r, v, ev, e2) =
        continue-ok _ (in_initiator_common (in_rng (new_responder_context dep.sodium a n)) u) tt t
          e1 in
      let (x, w, ew, e3) = continue-ok _ (apply_trusted_key v.common.auth_provider r v) tt t e2 in
      let ((own, now), same, provider) = fresh-new a n r u v ev in
      let (counted, shared) = counted-same n (without a s) u eu in
      let trusting : trusts v.common.auth_provider ≡ false =
        ap trusts (provider ∙ (ap (λ c. c.auth_provider) shared ∙ without-provider a s)) ∙ h in
      let (xr, wv) = applied-same v.common.auth_provider r x v w trusting ew in
      let table : w.responders ≡ remove a s.responders =
        ap (λ z. z.responders) wv ∙ (same ∙ (counted ∙ without-table a s)) in
      (
        x,
        ap (λ z. z.address) xr ∙ own,
        ap (λ z. is_responder_new z.handshake_state) xr ∙ now,
        inserted a x w t e3 ∙ ap (insert a x) table,
      )

  dropped-oldest :
      (o : Option (HandleAction (Value dep))) (s t : InitiatorSignaling dep) (addr : Address)
      → oldest_inactive (values s.responders) ≡ some addr
      → drop_oldest_inactive_responder s ≡ ok o t
      → (is_some o ≡ true)
        × (t.responders ≡ remove addr s.responders)
        × (length t.responders < length s.responders)
  unfolding drop_oldest_inactive_responder send_drop_responder
  dropped-oldest o s t addr h e = elim (Option-cases (lookup addr s.responders)) [
    | inl gone ↦ absurd (ground (arith, h, gone, e))
    | inr (r, found) ↦
        let shorter = remove-shorter addr r s.responders found in
        (
          ground (arith, h, found, e),
          ground (arith, h, found, e),
          ground (arith, h, found, e, shorter),
        )
  ]

  cleaned :
      (o : Option (HandleAction (Value dep))) (u t : InitiatorSignaling dep) (addr : Address)
      → oldest_inactive (values u.responders) ≡ some addr
      → length u.responders ≤ 253
      → (if ltb 252 (length u.responders) then drop_oldest_inactive_responder else pure none) u
        ≡ ok o t
      → Cleaned u.responders o t.responders × (length t.responders ≤ 252)
  unfolding Cleaned
  cleaned o u t addr someone k e = elim (Bool-cases (ltb 252 (length u.responders))) [
    | inl full ↦
        let (told, gone, shorter) = dropped-oldest o u t addr someone (ground (arith, full, e)) in
        let oldest = oldest_inactive-IsOldest (values u.responders) addr someone in
        (inr (ground (arith, full), told, (addr, oldest, gone)), omega (arith, shorter, k))
    | inr room ↦ (
      inl (ground (arith, room), ground (arith, room, e), ground (arith, room, e)),
      ground (arith, room, e),
    )
  ]

  -- If the initiator does not trust a key, and its table has at most 252 responders, then it has at
  -- most as many after a new one that is taken without an error. The new one is put into the table
  -- under its address, as one that has not begun its handshake, in place of one that was there. If
  -- the table then has at most 252 responders, it stays so and there is no action; else the oldest of
  -- those that have not begun their handshake is taken out, no other, and there is an action.
  pub process_new_responder-bounded :
      (a : Address) (s t : InitiatorSignaling dep) (o : Option (HandleAction (Value dep)))
      → trusts s.common.auth_provider ≡ false
      → length s.responders ≤ 252
      → process_new_responder a s ≡ ok o t
      → (length t.responders ≤ 252)
        × ((r : ResponderContext) × (r.address ≡ a)
            × (is_responder_new r.handshake_state ≡ true)
            × Cleaned (replaced a r s.responders) o t.responders)
  unfolding process_new_responder
  process_new_responder-bounded a s t o h k e =
      let (_, u, eu, e1) = continue-ok _ (register_responder a s) o t e in
      let (r, own, now, table) = registered a s u h eu in
      let found : lookup a u.responders ≡ some r =
        ap (lookup a) table ∙ lookup-insert a r (remove a s.responders) in
      elim (Option-cases (oldest_inactive (values u.responders))) [
        | inl nobody ↦ absurd (ground (arith, none_inactive a r u.responders nobody found, now))
        | inr (addr, someone) ↦
            let few : length u.responders ≤ 253 =
              omega (arith, ap length table, length-replaced a r s.responders, k) in
            let (clean, bound) = cleaned o u t addr someone few e1 in
            (bound, (r, own, now, subst (λ d. Cleaned d o t.responders) table clean))
      ]

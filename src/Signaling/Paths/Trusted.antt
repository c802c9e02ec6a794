-- ===== src/Signaling/Paths/Trusted.antt =====
-- The table of an initiator that trusts the key of its responder.
use saltyrtc_client_rs.Prelude.{
  ◌≡◌, false, Option, none, some, [], ◌∷◌, ok, arith, nat_has_eq, zoom, ap, ◌∙◌, subst,
}
use saltyrtc_client_rs.Prelude.Outcome.{continue-ok}
use saltyrtc_client_rs.Prelude.Dict.{Dict, insert, remove, values}
use saltyrtc_client_rs.External.{PublicKey}
use saltyrtc_client_rs.Types.{Address}
use saltyrtc_client_rs.State.{ResponderHandshakeState, is_responder_new}
use saltyrtc_client_rs.Context.{ResponderContext, new_responder_context}
use saltyrtc_client_rs.Deps.{Deps, Value}
use saltyrtc_client_rs.Signaling.{
  AuthProvider, HandleAction, InitiatorSignaling, in_initiator_common, in_rng, increment_counter,
}
use saltyrtc_client_rs.Signaling.Paths.{
  oldest_inactive, inactive, drop_oldest_inactive_responder, register_responder,
  process_new_responder, apply_trusted_key, trust,
}
use saltyrtc_client_rs.Signaling.Paths.Bound.{
  replaced, without, without-table, without-provider, fresh-new, counted-same, inserted,
  inserted-provider,
}

nobody-insert :
    (a : Address) (r : ResponderContext) (d : Dict Address ResponderContext)
    → oldest_inactive (values d) ≡ none
    → is_responder_new r.handshake_state ≡ false
    → oldest_inactive (values (insert a r d)) ≡ none
unfolding oldest_inactive inactive insert values
nobody-insert a r [] h e = ground (arith, e)
nobody-insert a r ((b, x) ∷ d) h e = ground (arith, h, e, nobody-insert a r d)

nobody-remove :
    (a : Address) (d : Dict Address ResponderContext)
    → oldest_inactive (values d) ≡ none
    → oldest_inactive (values (remove a d)) ≡ none
unfolding oldest_inactive inactive remove values
nobody-remove a [] h = ground arith
nobody-remove a ((b, x) ∷ d) h = ground (arith, h, nobody-remove a d)

module _ {dep : Deps} where
  applied-trust :
      (key : PublicKey) (r x : ResponderContext) (s t : InitiatorSignaling dep)
      → apply_trusted_key (some (AuthProvider.trusted_key key)) r s ≡ ok x t
      → (x ≡ trust key r) × (t ≡ s)
  unfolding apply_trusted_key
  applied-trust key r x s t e = (ground (arith, e), ground (arith, e))

  registered-trust :
      (key : PublicKey) (a : Address) (s t : InitiatorSignaling dep)
      → s.common.auth_provider ≡ some (AuthProvider.trusted_key key)
      → register_responder a s ≡ ok tt t
      → (r : ResponderContext) × (r.address ≡ a)
        × (r.permanent_key ≡ some key)
        × (r.handshake_state ≡ ResponderHandshakeState.token_received)
        × (t.responders ≡ replaced a r s.responders)
        × (t.common.auth_provider ≡ some (AuthProvider.trusted_key key))
  unfolding register_responder trust
  registered-trust key a s t h e =
      let (n, u, eu, e1) =
        continue-ok _
          (zoom (λ z. z.responder_counter) (λ c z. record z { responder_counter = c })
            increment_counter (without a s))
          tt t e in
      let (r, v, ev, e2) =
        continue-ok _ (in_initiator_common (in_rng (new_responder_context dep.sodium a n)) u) tt t
          e1 in
      let (x, w, ew, e3) = continue-ok _ (apply_trusted_key v.common.auth_provider r v) tt t e2 in
      let ((own, _), same, provider) = fresh-new a n r u v ev in
      let (counted, shared) = counted-same n (without a s) u eu in
      let kept = provider ∙ (ap (λ c. c.auth_provider) shared ∙ (without-provider a s ∙ h)) in
      let (begun, wv) =
        applied-trust key r x v w (subst (λ p. apply_trusted_key p r v ≡ ok x w) kept ew) in
      let table : w.responders ≡ remove a s.responders =
        ap (λ z. z.responders) wv ∙ (same ∙ (counted ∙ without-table a s)) in
      (
        x,
        ap (λ z. z.address) begun ∙ own,
        ap (λ z. z.permanent_key) begun,
        ap (λ z. z.handshake_state) begun,
        inserted a x w t e3 ∙ ap (insert a x) table,
        inserted-provider a x w t e3 ∙ (ap (λ z. z.common.auth_provider) wv ∙ kept),
      )

  -- If an initiator trusts a key, and nobody in its table is inactive, then a new responder that it
  -- takes without an error is registered under its address, with this key and as one that has sent
  -- its token, in place of one that was there. Nobody is dropped, however many there are: no other
  -- entry of the table changes, there is no action, nobody is inactive afterwards, and the key is
  -- still trusted.
  pub process_new_responder-trusted :
      (key : PublicKey) (a : Address) (s t : InitiatorSignaling dep)
      (o : Option (HandleAction (Value dep)))
      → s.common.auth_provider ≡ some (AuthProvider.trusted_key key)
      → oldest_inactive (values s.responders) ≡ none
      → process_new_responder a s ≡ ok o t
      → (o ≡ none)
        × ((r : ResponderContext) × (r.address ≡ a)
            × (r.permanent_key ≡ some key)
            × (r.handshake_state ≡ ResponderHandshakeState.token_received)
            × (t.responders ≡ replaced a r s.responders))
        × (oldest_inactive (values t.responders) ≡ none)
        × (t.common.auth_provider ≡ some (AuthProvider.trusted_key key))
  unfolding process_new_responder drop_oldest_inactive_responder
  process_new_responder-trusted key a s t o h nobody e =
      let (_, u, eu, e1) = continue-ok _ (register_responder a s) o t e in
      let (r, own, known, begun, table, h') = registered-trust key a s u h eu in
      let nobody' : oldest_inactive (values u.responders) ≡ none =
        ap (λ d. oldest_inactive (values d)) table
        ∙ nobody-insert a r (remove a s.responders) (nobody-remove a s.responders nobody)
            (ap is_responder_new begun) in
      let tu : t ≡ u = ground (arith, nobody', e1) in
      (
        ground (arith, nobody', e1),
        (r, own, known, begun, ap (λ z. z.responders) tu ∙ table),
        ap (λ z. oldest_inactive (values z.responders)) tu ∙ nobody',
        ap (λ z. z.common.auth_provider) tu ∙ h',
      )

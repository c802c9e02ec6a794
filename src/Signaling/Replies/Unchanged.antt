-- ===== src/Signaling/Replies/Unchanged.antt =====
-- What `validate_nonce` leaves as it is: the states of the handshakes, and the keys for the server's
-- messages.
use saltyrtc_client_rs.Prelude.{◌∙◌, ◌≡◌, arith, ok, ◌>>◌, string_has_eq, nat_has_eq}
use saltyrtc_client_rs.Prelude.Outcome.{continue-ok}
use saltyrtc_client_rs.Nonce.{Nonce}
use saltyrtc_client_rs.Deps.{Deps}
use saltyrtc_client_rs.Signaling.{Common, Signaling, common}
use saltyrtc_client_rs.Signaling.Validate.{
  validate_nonce, validate_nonce_destination, validate_nonce_source, validate_nonce_csn,
  validate_nonce_cookie,
}

-- Two clients with the same states and keys
abbrev pub Unmoved : {dep : Deps} → Common dep → Common dep → Type 0
Unmoved c d =
    (d.signaling_state ≡ c.signaling_state)
    × (d.server.handshake_state ≡ c.server.handshake_state)
    × (d.server.session_key ≡ c.server.session_key)
    × (d.permanent_keypair ≡ c.permanent_keypair)

Unmoved-trans : {dep : Deps} (c d e : Common dep) → Unmoved c d → Unmoved d e → Unmoved c e
Unmoved-trans c d e (a, b, p, q) (a', b', p', q') = (a' ∙ a, b' ∙ b, p' ∙ p, q' ∙ q)

module _ {dep : Deps} where
  destination-Unmoved :
      (n : Nonce) (s t : Signaling dep)
      → validate_nonce_destination n s ≡ ok tt t
      → Unmoved (common s) (common t)
  unfolding validate_nonce_destination
  destination-Unmoved n (Signaling.initiator s) t e =
      (ground arith, ground arith, ground arith, ground arith)
  destination-Unmoved n (Signaling.responder s) t e =
      (ground arith, ground arith, ground arith, ground arith)

  source-Unmoved :
      (n : Nonce) (s t : Signaling dep)
      → validate_nonce_source n s ≡ ok tt t
      → Unmoved (common s) (common t)
  unfolding validate_nonce_source
  source-Unmoved n (Signaling.initiator s) t e =
      (ground arith, ground arith, ground arith, ground arith)
  source-Unmoved n (Signaling.responder s) t e =
      (ground arith, ground arith, ground arith, ground arith)

  csn-Unmoved :
      (n : Nonce) (s t : Signaling dep)
      → validate_nonce_csn n s ≡ ok tt t
      → Unmoved (common s) (common t)
  unfolding validate_nonce_csn
  csn-Unmoved n (Signaling.initiator s) t e =
      (ground arith, ground arith, ground arith, ground arith)
  csn-Unmoved n (Signaling.responder s) t e =
      (ground arith, ground arith, ground arith, ground arith)

  cookie-Unmoved :
      (n : Nonce) (s t : Signaling dep)
      → validate_nonce_cookie n s ≡ ok tt t
      → Unmoved (common s) (common t)
  unfolding validate_nonce_cookie
  cookie-Unmoved n (Signaling.initiator s) t e =
      (ground arith, ground arith, ground arith, ground arith)
  cookie-Unmoved n (Signaling.responder s) t e =
      (ground arith, ground arith, ground arith, ground arith)

  pub validate_nonce-Unmoved :
      (n : Nonce) (s t : Signaling dep)
      → validate_nonce n s ≡ ok tt t
      → Unmoved (common s) (common t)
  unfolding validate_nonce
  validate_nonce-Unmoved n s t e =
      let (_, u, eu, e1) =
        continue-ok
          (λ _. validate_nonce_source n >> (validate_nonce_csn n >> validate_nonce_cookie n))
          (validate_nonce_destination n s) tt t e in
      let (_, v, ev, e2) =
        continue-ok (λ _. validate_nonce_csn n >> validate_nonce_cookie n)
          (validate_nonce_source n u) tt t e1 in
      let (_, w, ew, e3) =
        continue-ok (λ _. validate_nonce_cookie n) (validate_nonce_csn n v) tt t e2 in
      Unmoved-trans (common s) (common v) (common t)
        (Unmoved-trans (common s) (common u) (common v) (destination-Unmoved n s u eu)
          (source-Unmoved n u v ev))
        (Unmoved-trans (common v) (common w) (common t) (csn-Unmoved n v w ew)
          (cookie-Unmoved n w t e3))

  pub validate_nonce-state :
      (n : Nonce) (s t : Signaling dep)
      → validate_nonce n s ≡ ok tt t
      → (common t).signaling_state ≡ (common s).signaling_state
  validate_nonce-state n s t e = (validate_nonce-Unmoved n s t e).0

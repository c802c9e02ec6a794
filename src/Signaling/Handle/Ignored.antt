-- ===== src/Signaling/Handle/Ignored.antt =====
-- Messages from clients that have nothing to say to this one.
use saltyrtc_client_rs.Prelude.{◌≡◌, Bool, true, arith, ok, ◌>>◌, ◌∙◌, leb, nat_eq, ◌||◌, ◌&&◌}
use saltyrtc_client_rs.Prelude.Outcome.{continue-ok}
use saltyrtc_client_rs.Nonce.{Nonce}
use saltyrtc_client_rs.Deps.{Deps}
use saltyrtc_client_rs.Signaling.{Signaling}
use saltyrtc_client_rs.Signaling.Validate.{
  validate_nonce, validate_nonce_destination, validate_nonce_source, validate_nonce_csn,
  validate_nonce_cookie,
}
use saltyrtc_client_rs.Types.{is_initiator_client, is_responder_client}

module _ {dep : Deps} where
  -- The sources that the client hears: the server, and from the time that it has an identity the
  -- responders, for an initiator, or the initiator, for a responder.
  unfoldable pub hears : Signaling dep → Nonce → Bool
  hears (Signaling.initiator s) n =
      nat_eq n.source 0x00 || (leb 0x02 n.source && is_initiator_client s.common.identity)
  hears (Signaling.responder s) n =
      nat_eq n.source 0x00 || (nat_eq n.source 0x01 && is_responder_client s.common.identity)

  source-heard :
      (n : Nonce) (s t : Signaling dep) → validate_nonce_source n s ≡ ok tt t → hears t n ≡ true
  unfolding validate_nonce_source hears
  source-heard n (Signaling.initiator s) t e = ground arith
  source-heard n (Signaling.responder s) t e = ground arith

  csn-hears :
      (n m : Nonce) (s t : Signaling dep) → validate_nonce_csn n s ≡ ok tt t → hears t m ≡ hears s m
  unfolding validate_nonce_csn hears
  csn-hears n m (Signaling.initiator s) t e = ground arith
  csn-hears n m (Signaling.responder s) t e = ground arith

  cookie-hears :
      (n m : Nonce) (s t : Signaling dep)
      → validate_nonce_cookie n s ≡ ok tt t
      → hears t m ≡ hears s m
  unfolding validate_nonce_cookie hears
  cookie-hears n m (Signaling.initiator s) t e = ground arith
  cookie-hears n m (Signaling.responder s) t e = ground arith

  -- A nonce that `validate_nonce` accepts is from a source that the client hears, with the identity
  -- that it has afterwards.
  pub validate_nonce-hears :
      (n : Nonce) (s t : Signaling dep) → validate_nonce n s ≡ ok tt t → hears t n ≡ true
  unfolding validate_nonce
  validate_nonce-hears n s t e =
      let (_, u, _, e1) =
        continue-ok
          (λ _. validate_nonce_source n >> (validate_nonce_csn n >> validate_nonce_cookie n))
          (validate_nonce_destination n s) tt t e in
      let (_, v, ev, e2) =
        continue-ok (λ _. validate_nonce_csn n >> validate_nonce_cookie n)
          (validate_nonce_source n u) tt t e1 in
      let (_, w, ew, e3) =
        continue-ok (λ _. validate_nonce_cookie n) (validate_nonce_csn n v) tt t e2 in
      cookie-hears n n w t e3 ∙ (csn-hears n n v w ew ∙ source-heard n u v ev)

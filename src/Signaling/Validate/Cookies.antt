-- ===== src/Signaling/Validate/Cookies.antt =====
-- `validate_nonce` and the cookies of the peers.
use saltyrtc_client_rs.Prelude.{
  ◌≡◌, true, Option, none, some, arith, ap, ◌∙◌, ok, err, panic, nat_has_eq, is_some,
}
use saltyrtc_client_rs.Types.{Address}
use saltyrtc_client_rs.Nonce.{Nonce}
use saltyrtc_client_rs.Cookie.{Cookie, CookiePair}
use saltyrtc_client_rs.Deps.{Deps}
use saltyrtc_client_rs.Context.{cookie_pair}
use saltyrtc_client_rs.Signaling.{Signaling}
use saltyrtc_client_rs.Signaling.Peers.{get_peer_with_address, set_peer}
use saltyrtc_client_rs.Signaling.Validate.{
  accept_cookie, validate_nonce, validate_nonce_destination, validate_nonce_csn,
  validate_nonce_cookie,
}
use saltyrtc_client_rs.Signaling.Validate.Replay.{accept_cookie_iff, IsKnown, accepted}
use saltyrtc_client_rs.Signaling.Invariant.Tables.{lookup-insert}

accepted_pair :
    (cookie : Cookie) (pair : CookiePair) (o : Option CookiePair)
    → accept_cookie cookie pair ≡ o
    → is_some o ≡ true
    → IsKnown cookie pair × (o ≡ some (record pair { theirs = some cookie }))
accepted_pair cookie pair none e h = absurd (ground arith)
accepted_pair cookie pair (some pair') e h =
    let (known, same) = (accept_cookie_iff cookie pair pair').0 e in (known, ap some same)

module _ {dep : Deps} where
  -- The cookies that are stored for the peer at an address
  unfoldable pub stored_cookies : Address → Signaling dep → Option CookiePair
  unfolding get_peer_with_address
  stored_cookies a s = elim (get_peer_with_address a s) [
    | ok (some p) _ ↦ some (cookie_pair p)
    | ok none _ ↦ none
    | err _ _ ↦ none
    | panic _ ↦ none
  ]

  destination-cookies :
      (n : Nonce) (a : Address) (s t : Signaling dep)
      → validate_nonce_destination n s ≡ ok tt t
      → stored_cookies a t ≡ stored_cookies a s
  unfolding stored_cookies validate_nonce_destination
  destination-cookies n a (Signaling.initiator s) t e = ground arith
  destination-cookies n a (Signaling.responder s) t e = ground arith

  csn-cookies :
      (n : Nonce) (s t : Signaling dep)
      → validate_nonce_csn n s ≡ ok tt t
      → stored_cookies n.source t ≡ stored_cookies n.source s
  unfolding stored_cookies validate_nonce_csn set_peer get_peer_with_address
  csn-cookies n (Signaling.initiator s) t e = grind (arith, lookup-insert)
  csn-cookies n (Signaling.responder s) t e = grind (arith, lookup-insert)

  accepted_cookie :
      (n : Nonce) (s t : Signaling dep) (pair : CookiePair)
      → validate_nonce_cookie n s ≡ ok tt t
      → stored_cookies n.source s ≡ some pair
      → (accept_cookie n.cookie pair ≡ stored_cookies n.source t)
        × (is_some (stored_cookies n.source t) ≡ true)
  unfolding stored_cookies validate_nonce_cookie set_peer get_peer_with_address
  accepted_cookie n (Signaling.initiator s) t pair e k =
      (grind (arith, lookup-insert), grind (arith, lookup-insert))
  accepted_cookie n (Signaling.responder s) t pair e k =
      (grind (arith, lookup-insert), grind (arith, lookup-insert))

  -- If `validate_nonce` accepts a nonce from a peer whose cookies are stored, then the nonce has
  -- the cookie that is stored as the peer's or, if none is, a cookie that differs from ours; and
  -- afterwards it is the nonce's cookie that is stored as the peer's, next to the same of ours.
  pub validate_nonce-cookie :
      (n : Nonce) (s t : Signaling dep) (pair : CookiePair)
      → validate_nonce n s ≡ ok tt t
      → stored_cookies n.source s ≡ some pair
      → IsKnown n.cookie pair
        × (stored_cookies n.source t ≡ some (record pair { theirs = some n.cookie }))
  validate_nonce-cookie n s t pair e k =
      let (u, v, eu, ev, ew) = accepted n s t e in
      let (same, some') =
        accepted_cookie n v t pair ew
          (csn-cookies n u v ev ∙ (destination-cookies n n.source s u eu ∙ k)) in
      accepted_pair n.cookie pair (stored_cookies n.source t) same some'

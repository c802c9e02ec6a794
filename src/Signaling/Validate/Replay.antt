-- ===== src/Signaling/Validate/Replay.antt =====
-- `validate_nonce` against replayed messages.
use saltyrtc_client_rs.Prelude.{
  ◌≡◌, ◌≢◌, ◌≤◌, ◌<◌, ◌↔◌, Option, none, some, arith, sym, ap, ◌∙◌, ok, err, panic, ◌>>◌,
  bytes_eq_iff, nat_has_eq,
}
use saltyrtc_client_rs.Prelude.Outcome.{continue-ok}
use saltyrtc_client_rs.Signaling.Invariant.Tables.{lookup-insert}
use saltyrtc_client_rs.Types.{Address}
use saltyrtc_client_rs.Nonce.{Nonce}
use saltyrtc_client_rs.Csn.{
  CombinedSequenceSnapshot, CombinedSequencePair, snapshot_number, snapshot_lt, snapshot_eq,
}
use saltyrtc_client_rs.Csn.Increment.{IsSnapshot}
use saltyrtc_client_rs.Cookie.{Cookie, CookiePair}
use saltyrtc_client_rs.Deps.{Deps}
use saltyrtc_client_rs.Context.{csn_pair}
use saltyrtc_client_rs.Signaling.{Signaling}
use saltyrtc_client_rs.Signaling.Peers.{get_peer_with_address, set_peer}
use saltyrtc_client_rs.Signaling.Validate.{
  accept_csn, accept_cookie, validate_nonce, validate_nonce_destination, validate_nonce_source,
  validate_nonce_csn, validate_nonce_cookie,
}

-- The last number that a peer sent is an earlier one.
abbrev pub IsNewer : Option CombinedSequenceSnapshot → CombinedSequenceSnapshot → Type 0
IsNewer none current = current.overflow ≡ 0
IsNewer (some previous) current = snapshot_number previous < snapshot_number current

abbrev AllSnapshot : Option CombinedSequenceSnapshot → Type 0
AllSnapshot none = Unit {0}
AllSnapshot (some c) = IsSnapshot c

-- For numbers that fit their machine types, `accept_csn` gives a pair just for a number that is
-- greater than the one stored or, if none is stored, has the overflow number 0. The pair then has
-- this number as the peer's, and the same of ours.
pub accept_csn_iff :
    (current : CombinedSequenceSnapshot) (pair pair' : CombinedSequencePair)
    → IsSnapshot current
    → AllSnapshot pair.theirs
    → (accept_csn current pair ≡ some pair')
      ↔ (IsNewer pair.theirs current × (pair' ≡ record pair { theirs = some current }))
unfolding accept_csn snapshot_number snapshot_lt snapshot_eq
accept_csn_iff current pair pair' v w = ground arith

accept_csn-newer :
    (current c : CombinedSequenceSnapshot) (pair pair' : CombinedSequencePair)
    → accept_csn current pair ≡ some pair'
    → pair.theirs ≡ some c
    → IsSnapshot c
    → IsSnapshot current
    → snapshot_number c < snapshot_number current
unfolding accept_csn snapshot_number snapshot_lt snapshot_eq
accept_csn-newer current c pair pair' e k v w = ground arith

-- The cookie of a peer may be stored, or is the one that is stored.
abbrev pub IsKnown : Cookie → CookiePair → Type 0
IsKnown cookie pair = elim pair.theirs [ none ↦ cookie ≢ pair.ours | some known ↦ cookie ≡ known ]

-- `accept_cookie` gives a pair just for a cookie that is the one stored, or that differs from ours
-- if none is stored. The pair then has this cookie as the peer's, and the same of ours.
pub accept_cookie_iff :
    (cookie : Cookie) (pair pair' : CookiePair)
    → (accept_cookie cookie pair ≡ some pair')
      ↔ (IsKnown cookie pair × (pair' ≡ record pair { theirs = some cookie }))
unfolding accept_cookie
accept_cookie_iff cookie pair pair' = grind (arith, bytes_eq_iff cookie pair.ours, bytes_eq_iff)

module _ {dep : Deps} where
  -- What the client has stored of the peer at an address
  unfoldable pub stored_csn : Address → Signaling dep → Option CombinedSequenceSnapshot
  unfolding get_peer_with_address
  stored_csn a s = elim (get_peer_with_address a s) [
    | ok (some p) _ ↦ (csn_pair p).theirs
    | ok none _ ↦ none
    | err _ _ ↦ none
    | panic _ ↦ none
  ]

  csn-stored :
      (n : Nonce) (s t : Signaling dep)
      → validate_nonce_csn n s ≡ ok tt t
      → stored_csn n.source t ≡ some n.csn
  unfolding stored_csn validate_nonce_csn set_peer accept_csn get_peer_with_address
  csn-stored n (Signaling.initiator s) t e = grind (arith, lookup-insert)
  csn-stored n (Signaling.responder s) t e = grind (arith, lookup-insert)

  cookie-stored :
      (n : Nonce) (s t : Signaling dep)
      → validate_nonce_cookie n s ≡ ok tt t
      → stored_csn n.source t ≡ stored_csn n.source s
  unfolding stored_csn validate_nonce_cookie set_peer accept_cookie get_peer_with_address
  cookie-stored n (Signaling.initiator s) t e = grind (arith, lookup-insert)
  cookie-stored n (Signaling.responder s) t e = grind (arith, lookup-insert)

  destination-stored :
      (n : Nonce) (a : Address) (s t : Signaling dep)
      → validate_nonce_destination n s ≡ ok tt t
      → stored_csn a t ≡ stored_csn a s
  unfolding stored_csn validate_nonce_destination
  destination-stored n a (Signaling.initiator s) t e = ground arith
  destination-stored n a (Signaling.responder s) t e = ground arith

  source-stored : (n : Nonce) (s t : Signaling dep) → validate_nonce_source n s ≡ ok tt t → t ≡ s
  unfolding validate_nonce_source
  source-stored n (Signaling.initiator s) t e = ground arith
  source-stored n (Signaling.responder s) t e = ground arith

  csn-newer :
      (n : Nonce) (s t : Signaling dep) (c : CombinedSequenceSnapshot)
      → validate_nonce_csn n s ≡ ok tt t
      → stored_csn n.source s ≡ some c
      → IsSnapshot c
      → IsSnapshot n.csn
      → snapshot_number c < snapshot_number n.csn
  unfolding stored_csn validate_nonce_csn get_peer_with_address
  csn-newer n (Signaling.initiator s) t c e k v w = grind (arith, accept_csn-newer n.csn c)
  csn-newer n (Signaling.responder s) t c e k v w = grind (arith, accept_csn-newer n.csn c)

  -- The steps of a nonce that is accepted
  pub accepted :
      (n : Nonce) (s t : Signaling dep)
      → validate_nonce n s ≡ ok tt t
      → (u v : Signaling dep) × (validate_nonce_destination n s ≡ ok tt u)
        × (validate_nonce_csn n u ≡ ok tt v)
        × (validate_nonce_cookie n v ≡ ok tt t)
  unfolding validate_nonce
  accepted n s t e =
      let (_, u, eu, e1) =
        continue-ok
          (λ _. validate_nonce_source n >> (validate_nonce_csn n >> validate_nonce_cookie n))
          (validate_nonce_destination n s) tt t e in
      let (_, w, ew, e2) =
        continue-ok (λ _. validate_nonce_csn n >> validate_nonce_cookie n)
          (validate_nonce_source n u) tt t e1 in
      let (_, v, ev, e3) =
        continue-ok (λ _. validate_nonce_cookie n) (validate_nonce_csn n w) tt t e2 in
      (u, v, eu, ap (validate_nonce_csn n) (sym (source-stored n u w ew)) ∙ ev, e3)

  -- After `validate_nonce` accepted a nonce, its number is the one stored for its source.
  pub validate_nonce-stored :
      (n : Nonce) (s t : Signaling dep)
      → validate_nonce n s ≡ ok tt t
      → stored_csn n.source t ≡ some n.csn
  validate_nonce-stored n s t e =
      let (u, v, _, ev, ew) = accepted n s t e in cookie-stored n v t ew ∙ csn-stored n u v ev

  -- A nonce that `validate_nonce` accepts has a combined sequence number greater than the one that
  -- is stored for its source, if there is one; both have to fit their machine types.
  pub validate_nonce-newer :
      (n : Nonce) (s t : Signaling dep) (c : CombinedSequenceSnapshot)
      → validate_nonce n s ≡ ok tt t
      → stored_csn n.source s ≡ some c
      → IsSnapshot c
      → IsSnapshot n.csn
      → snapshot_number c < snapshot_number n.csn
  validate_nonce-newer n s t c e k v w =
      let (u, _, eu, ev, _) = accepted n s t e in
      csn-newer n u _ c ev (destination-stored n n.source s u eu ∙ k) v w

  -- If `validate_nonce` accepted a nonce, then in the state after it no nonce from the same source
  -- is accepted whose combined sequence number is the same or smaller, so the same message is not
  -- accepted twice. The two numbers have to fit their machine types.
  pub validate_nonce-replayed :
      (n n' : Nonce) (s t u : Signaling dep)
      → validate_nonce n s ≡ ok tt t
      → n'.source ≡ n.source
      → IsSnapshot n.csn
      → IsSnapshot n'.csn
      → snapshot_number n'.csn ≤ snapshot_number n.csn
      → validate_nonce n' t ≢ ok tt u
  validate_nonce-replayed n n' s t u e d v w l f =
      omega
        (arith, l, validate_nonce-newer n' t u n.csn f (rw d (validate_nonce-stored n s t e)) v w)

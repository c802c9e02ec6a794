-- ===== src/Signaling/Handle/Sealed.antt =====
-- Which messages of the server are handled.
use saltyrtc_client_rs.Prelude.{
  ◌≡◌, Bool, true, false, none, some, arith, ok, err, panic, Step, M, List, ℕ, refl, ◌∙◌, ap, sym,
  ◌>>◌, Option-cases, inl, inr, if◌then◌else◌, ◌==◌, string_has_eq,
}
use saltyrtc_client_rs.Prelude.Outcome.{continue, continue-ok}
use saltyrtc_client_rs.External.{PublicKey}
use saltyrtc_client_rs.Errors.{ValidationError, SignalingError}
use saltyrtc_client_rs.Types.{is_server, is_responder}
use saltyrtc_client_rs.State.{is_server_new}
use saltyrtc_client_rs.Messages.{Message, get_type}
use saltyrtc_client_rs.Nonce.{Nonce, into_bytes}
use saltyrtc_client_rs.Crypto
use saltyrtc_client_rs.Deps.{Deps, Value}
use saltyrtc_client_rs.Boxes.{ByteBox, OpenBox, decrypt}
use saltyrtc_client_rs.Signaling.{Common, Actions, Signaling, common, in_common}
use saltyrtc_client_rs.Signaling.Peers.{get_peer_with_address}
use saltyrtc_client_rs.Signaling.Decode.{decode_server_message}
use saltyrtc_client_rs.Signaling.Decode.Sealed.{decode_server_message-sealed}
use saltyrtc_client_rs.Signaling.Validate.{
  validate_nonce, validate_nonce_destination, validate_nonce_source, validate_nonce_csn,
  validate_nonce_cookie, source_peer, missing_peer,
}
use saltyrtc_client_rs.Signaling.Handle.{
  handle_message, after_validation, process_message, server_branch, handle_server_message,
}
use saltyrtc_client_rs.Signaling.Replies.Unchanged.{Unmoved, validate_nonce-Unmoved}

-- Whether a call ends otherwise than in dropping the message
abbrev hears_out : {S A : Type 0} → Step S ValidationError A → Bool
hears_out (ok _ _) = true
hears_out (err ValidationError.drop_msg _) = false
hears_out (err ValidationError.fail _) = true
hears_out (err ValidationError.crash _) = true
hears_out (panic _) = true

hears_out-continue :
    {S A B : Type 0} (f : A → M S ValidationError B) (x : Step S ValidationError A)
    → hears_out x ≡ true
    → ((a : A) (t : S) → hears_out (f a t) ≡ true)
    → hears_out (continue f x) ≡ true
hears_out-continue f (ok a t) h k = k a t
hears_out-continue f (err e t) h k = h
hears_out-continue f (panic p) h k = h

module _ {dep : Deps} where
  destination-heard :
      (n : Nonce) (s : Signaling dep) → hears_out (validate_nonce_destination n s) ≡ true
  unfolding validate_nonce_destination
  destination-heard n (Signaling.initiator s) = ground arith
  destination-heard n (Signaling.responder s) = ground arith

  source-heard :
      (n : Nonce) (s : Signaling dep)
      → is_server n.source ≡ true
      → hears_out (validate_nonce_source n s) ≡ true
  unfolding validate_nonce_source is_server
  source-heard n (Signaling.initiator s) h = ground (arith, h)
  source-heard n (Signaling.responder s) h = ground (arith, h)

  csn-heard :
      (n : Nonce) (s : Signaling dep)
      → is_server n.source ≡ true
      → hears_out (validate_nonce_csn n s) ≡ true
  unfolding validate_nonce_csn source_peer missing_peer get_peer_with_address is_server is_responder
  csn-heard n (Signaling.initiator s) h = ground (arith, h)
  csn-heard n (Signaling.responder s) h = ground (arith, h)

  cookie-heard :
      (n : Nonce) (s : Signaling dep)
      → is_server n.source ≡ true
      → hears_out (validate_nonce_cookie n s) ≡ true
  unfolding validate_nonce_cookie source_peer missing_peer get_peer_with_address is_server
      is_responder
  cookie-heard n (Signaling.initiator s) h = ground (arith, h)
  cookie-heard n (Signaling.responder s) h = ground (arith, h)

  -- A nonce of the server is accepted or refused with an error.
  server-heard :
      (n : Nonce) (s : Signaling dep)
      → is_server n.source ≡ true
      → hears_out (validate_nonce n s) ≡ true
  unfolding validate_nonce
  server-heard n s h =
      hears_out-continue
        (λ _. validate_nonce_source n >> (validate_nonce_csn n >> validate_nonce_cookie n))
        (validate_nonce_destination n s) (destination-heard n s)
        (λ _ t.
          hears_out-continue (λ _. validate_nonce_csn n >> validate_nonce_cookie n)
            (validate_nonce_source n t) (source-heard n t h)
            (λ _ u.
              hears_out-continue (λ _. validate_nonce_cookie n) (validate_nonce_csn n u)
                (csn-heard n u h) (λ _ v. cookie-heard n v h)))

  -- The session key opens the bytes, and they are a message.
  abbrev pub Opens : ByteBox → Common dep → Type 0
  Opens bbox c =
      (key : PublicKey) × (plain : List ℕ) × (message : Message (Value dep)) × (c.server.session_key
        ≡ some key)
      × (dep.sodium.box_open bbox.bytes (into_bytes dep.byte_order bbox.nonce) key
            c.permanent_keypair.private_key
          ≡ some plain)
      × (dep.msgpack.from_msgpack plain ≡ some message)

  decrypt-Opens :
      (bbox : ByteBox) (c : Common dep) (key : PublicKey) (obox : OpenBox (Message (Value dep)))
      → c.server.session_key ≡ some key
      → decrypt dep bbox c.permanent_keypair key ≡ some obox
      → Opens bbox c
  unfolding decrypt Crypto.decrypt
  decrypt-Opens bbox c key obox k e =
      elim (Option-cases (
        dep.sodium.box_open bbox.bytes (into_bytes dep.byte_order bbox.nonce) key
          c.permanent_keypair.private_key)) [
            | inl closed ↦ absurd (ground (arith, closed, e))
            | inr (plain, open') ↦ elim (Option-cases (dep.msgpack.from_msgpack plain)) [
              | inl garbled ↦ absurd (ground (arith, open', garbled, e))
              | inr (message, read) ↦ (key, plain, message, k, open', read)
            ]
          ]

  in_common-ok :
      {A : Type 0} (m : M (Common dep) SignalingError A) (s u : Signaling dep) (a : A)
      → in_common m s ≡ ok a u
      → (d : Common dep) × (m (common s) ≡ ok a d)
  in_common-ok {A = A} m s u a e = by_result (m (common s)) refl
    where
      by_result :
          (x : Step (Common dep) SignalingError A)
          → m (common s) ≡ x
          → (d : Common dep) × (m (common s) ≡ ok a d)
      by_result (ok b d) k = (d, k ∙ ground (arith, k, e))
      by_result (err x d) k = absurd (ground (arith, k, e))
      by_result (panic p) k = absurd (ground (arith, k, e))

  server_branch-Opens :
      (bbox : ByteBox) (s t : Signaling dep) (actions : Actions dep)
      → is_server_new (common s).server.handshake_state ≡ false
      → server_branch bbox s ≡ ok actions t
      → Opens bbox (common s)
  unfolding server_branch
  server_branch-Opens bbox s t actions h e =
      let (obox, u, eu, _) =
        continue-ok
          (λ obox.
            handle_server_message obox
              (if get_type obox.message == "server-auth" then some bbox.nonce else none))
          (in_common (decode_server_message bbox) s) actions t e in
      let (d, ed) = in_common-ok (decode_server_message bbox) s u obox eu in
      let (_, key, k, o) = decode_server_message-sealed bbox (common s) d obox h ed in
      decrypt-Opens bbox (common s) key obox k o

  Opens-Unmoved : (bbox : ByteBox) (c d : Common dep) → Unmoved c d → Opens bbox d → Opens bbox c
  Opens-Unmoved bbox c d (_, _, k, p) (key, plain, message, known, opened, read) = (
    key,
    plain,
    message,
    sym k ∙ known,
    ap
          (λ pair.
            dep.sodium.box_open bbox.bytes (into_bytes dep.byte_order bbox.nonce) key
              pair.private_key)
          (sym p)
        ∙ opened,
    read,
  )

  -- Once the client has answered the server's hello, no message from the server's address is handled
  -- without an error unless the session key of the server is known and, with our permanent private
  -- key and the message's nonce, opens the bytes of the message, and these are a message.
  pub handle_message-sealed :
      (bbox : ByteBox) (s t : Signaling dep) (actions : Actions dep)
      → is_server_new (common s).server.handshake_state ≡ false
      → is_server bbox.nonce.source ≡ true
      → handle_message bbox s ≡ ok actions t
      → (key : PublicKey) × (plain : List ℕ) × (message : Message (Value dep)) × ((common
            s).server.session_key
          ≡ some key)
        × (dep.sodium.box_open bbox.bytes
              (into_bytes dep.byte_order bbox.nonce)
              key
              (common s).permanent_keypair.private_key
            ≡ some plain)
        × (dep.msgpack.from_msgpack plain ≡ some message)
  unfolding handle_message after_validation process_message
  handle_message-sealed bbox s t actions h far e =
      validated (validate_nonce bbox.nonce s) refl (server-heard bbox.nonce s far) e
    where
      validated :
          (x : Step (Signaling dep) ValidationError (Unit {0}))
          → validate_nonce bbox.nonce s ≡ x
          → hears_out x ≡ true
          → after_validation bbox x ≡ ok actions t
          → Opens bbox (common s)
      validated (ok _ v) ev _ e =
          let same = validate_nonce-Unmoved bbox.nonce s v ev in
          let (_, state, _, _) = same in
          Opens-Unmoved bbox (common s) (common v) same (
            server_branch-Opens bbox v t actions (ap is_server_new state ∙ h)
              (ground (arith, far, e)))
      validated (err ValidationError.drop_msg v) ev heard e = absurd (ground (arith, heard))
      validated (err ValidationError.fail v) ev heard e = absurd (ground (arith, e))
      validated (err ValidationError.crash v) ev heard e = absurd (ground (arith, e))
      validated (panic p) ev heard e = absurd (ground (arith, e))

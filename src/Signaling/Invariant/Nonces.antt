-- ===== src/Signaling/Invariant/Nonces.antt =====
-- `validate_nonce` on a well-formed state.
use saltyrtc_client_rs.Prelude.{ℕ, ◌≡◌, Bool, true, arith, ◌&&◌, ◌||◌, not, is_some}
use saltyrtc_client_rs.Prelude.Outcome.{holds, keeps}
use saltyrtc_client_rs.Nonce.{Nonce}
use saltyrtc_client_rs.Types.{is_server}
use saltyrtc_client_rs.Deps.{Deps}
use saltyrtc_client_rs.Signaling.{InitiatorSignaling, ResponderSignaling, Signaling, common}
use saltyrtc_client_rs.Signaling.Validate.{
  accept_cookie, initiator_validate_destination, responder_validate_destination, validate_nonce_csn,
  validate_nonce_cookie, validate_nonce, validate_nonce_destination, validate_nonce_source,
}
use saltyrtc_client_rs.Signaling.Invariant.Tables.{lookup-keyed, insert-keyed}
use saltyrtc_client_rs.Signaling.Invariant.{
  is_valid_common, keyed_by_address, chosen_has_address, is_valid_initiator, is_valid_responder,
  is_valid,
}

module _ {dep : Deps} (from : ℕ) (nonce : Nonce) where
  initiator_validate_destination-is_valid :
      (s : InitiatorSignaling dep)
      → is_valid_initiator from s ≡ true
      → keeps (is_valid_initiator from) (initiator_validate_destination nonce s) ≡ true
  unfolding initiator_validate_destination is_valid_initiator is_valid_common holds
  initiator_validate_destination-is_valid s h = ground arith

  responder_validate_destination-is_valid :
      (s : ResponderSignaling dep)
      → is_valid_responder from s ≡ true
      → keeps (is_valid_responder from) (responder_validate_destination nonce s) ≡ true
  unfolding responder_validate_destination is_valid_responder is_valid_common holds
  responder_validate_destination-is_valid s h = ground arith

  validate_nonce_destination-is_valid :
      (s : Signaling dep)
      → is_valid from s ≡ true
      → keeps (is_valid from) (validate_nonce_destination nonce s) ≡ true
  unfolding validate_nonce_destination is_valid is_valid_initiator is_valid_responder
      is_valid_common keyed_by_address chosen_has_address holds
  validate_nonce_destination-is_valid s h = ground arith

  validate_nonce_source-is_valid :
      (s : Signaling dep)
      → is_valid from s ≡ true
      → keeps (is_valid from) (validate_nonce_source nonce s) ≡ true
  unfolding validate_nonce_source is_valid is_valid_initiator is_valid_responder is_valid_common
      keyed_by_address chosen_has_address holds
  validate_nonce_source-is_valid s h = ground arith

  validate_nonce_csn-is_valid :
      (s : Signaling dep)
      → is_valid from s ≡ true
      → keeps (is_valid from) (validate_nonce_csn nonce s) ≡ true
  unfolding validate_nonce_csn is_valid is_valid_initiator is_valid_responder is_valid_common
      keyed_by_address chosen_has_address holds
  validate_nonce_csn-is_valid s h = grind (arith, lookup-keyed, insert-keyed)

  -- After a message of the server its cookie is known.
  abbrev cookie_known : Signaling dep → Bool
  cookie_known s = not (is_server nonce.source) || is_some (common s).server.cookie_pair.theirs

  validate_nonce_cookie-is_valid :
      (s : Signaling dep)
      → is_valid from s ≡ true
      → holds
          (λ _ t. is_valid from t && cookie_known t)
          (is_valid from)
          (validate_nonce_cookie nonce s)
        ≡ true
  unfolding validate_nonce_cookie accept_cookie is_valid is_valid_initiator is_valid_responder
      is_valid_common keyed_by_address chosen_has_address holds is_server
  validate_nonce_cookie-is_valid s h = grind (arith, lookup-keyed, insert-keyed)

  pub validate_nonce-is_valid :
      (s : Signaling dep)
      → is_valid from s ≡ true
      → holds (λ _ t. is_valid from t && cookie_known t) (is_valid from) (validate_nonce nonce s)
        ≡ true
  unfolding validate_nonce holds
  validate_nonce-is_valid s h = grind (
    arith, validate_nonce_destination-is_valid, validate_nonce_source-is_valid,
    validate_nonce_csn-is_valid, validate_nonce_cookie-is_valid,
  )

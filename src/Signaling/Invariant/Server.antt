-- ===== src/Signaling/Invariant/Server.antt =====
-- The messages of the server on a well-formed state, for the data that both roles share.
use saltyrtc_client_rs.Prelude.{ℕ, ◌≡◌, true, Option, List, [], ◌∷◌, arith, is_some, pure, ◌>>=◌}
use saltyrtc_client_rs.Prelude.Outcome.{holds, keeps, keeps-continue}
use saltyrtc_client_rs.Nonce.{Nonce}
use saltyrtc_client_rs.Types.{Address, Role}
use saltyrtc_client_rs.Messages.{ServerHello, ServerAuth, DropReason}
use saltyrtc_client_rs.Boxes.{ByteBox}
use saltyrtc_client_rs.Deps.{Deps}
use saltyrtc_client_rs.Signaling.{Common}
use saltyrtc_client_rs.Signaling.Encode.{server_nonce, send_drop_responder}
use saltyrtc_client_rs.Signaling.Server.{handle_server_hello, check_server_auth, finish_server_auth}
use saltyrtc_client_rs.Signaling.Decode.{decode_server_message}
use saltyrtc_client_rs.Signaling.Initiator.{drop_responders}
use saltyrtc_client_rs.Signaling.Invariant.{is_valid_common}

module _ {dep : Deps} (role : Role) (from : ℕ) where
  pub decode_server_message-is_valid :
      (bbox : ByteBox) (c : Common dep)
      → is_valid_common role from c ≡ true
      → keeps (is_valid_common role from) (decode_server_message bbox c) ≡ true
  unfolding decode_server_message holds
  decode_server_message-is_valid bbox c h = ground arith

  -- A server nonce needs an identity with an address.
  server_nonce-is_valid :
      (c : Common dep)
      → is_valid_common role from c ≡ true
      → keeps (is_valid_common role from) (server_nonce c) ≡ true
  unfolding server_nonce holds is_valid_common
  server_nonce-is_valid c h = ground arith

  pub send_drop_responder-is_valid :
      (a : Address) (reason : DropReason) (c : Common dep)
      → is_valid_common role from c ≡ true
      → keeps (is_valid_common role from) (send_drop_responder a reason c) ≡ true
  unfolding send_drop_responder holds
  send_drop_responder-is_valid a reason c h = grind (arith, server_nonce-is_valid)

  pub drop_responders-is_valid :
      (as' : List Address) (c : Common dep)
      → is_valid_common role from c ≡ true
      → keeps (is_valid_common role from) (drop_responders as' c) ≡ true
  unfolding drop_responders holds
  drop_responders-is_valid [] c h = ground arith
  drop_responders-is_valid (a ∷ as') c h =
      keeps-continue (is_valid_common role from)
        (λ d. drop_responders {dep = dep} as' >>= λ rest. pure (d ∷ rest)) _
        (send_drop_responder-is_valid a DropReason.dropped_by_initiator c h)
        (λ x t k. ground (arith, drop_responders-is_valid as' t k))

  pub handle_server_hello-is_valid :
      (msg : ServerHello) (c : Common dep)
      → is_valid_common role from c ≡ true
      → is_some c.server.cookie_pair.theirs ≡ true
      → keeps (is_valid_common role from) (handle_server_hello msg c) ≡ true
  unfolding handle_server_hello holds is_valid_common server_nonce
  handle_server_hello-is_valid msg c h k = grind (arith)

  pub check_server_auth-is_valid :
      (msg : ServerAuth) (n : Option Nonce) (c : Common dep)
      → is_valid_common role from c ≡ true
      → keeps (is_valid_common role from) (check_server_auth msg n c) ≡ true
  unfolding check_server_auth holds
  check_server_auth-is_valid msg n c h = ground arith

  pub finish_server_auth-is_valid :
      (c : Common dep)
      → is_valid_common role from c ≡ true
      → keeps (is_valid_common role from) (finish_server_auth c) ≡ true
  unfolding finish_server_auth holds is_valid_common
  finish_server_auth-is_valid c h = ground arith

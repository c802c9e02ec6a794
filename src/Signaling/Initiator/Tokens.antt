-- ===== src/Signaling/Initiator/Tokens.antt =====
-- The token in the initiator's `handle_token`.
use saltyrtc_client_rs.Prelude.{◌≡◌, ◌≢◌, none, arith, ok, nat_has_eq}
use saltyrtc_client_rs.Types.{Address}
use saltyrtc_client_rs.Messages.{Token}
use saltyrtc_client_rs.Deps.{Deps}
use saltyrtc_client_rs.Signaling.{Actions, InitiatorSignaling}
use saltyrtc_client_rs.Signaling.Initiator.{handle_token}

module _ {dep : Deps} where
  handle_token-used :
      (msg : Token) (a : Address) (s t : InitiatorSignaling dep) (actions : Actions dep)
      → handle_token msg a s ≡ ok actions t
      → t.common.auth_provider ≡ none
  unfolding handle_token
  handle_token-used msg a s t actions e = ground arith

  -- After the initiator's `handle_token` succeeded, it does not succeed again, for any responder: the
  -- token is used up.
  pub handle_token-once :
      (msg msg' : Token) (a a' : Address) (s t u : InitiatorSignaling dep)
      (actions actions' : Actions dep)
      → handle_token msg a s ≡ ok actions t
      → handle_token msg' a' t ≢ ok actions' u
  unfolding handle_token
  handle_token-once msg msg' a a' s t u actions actions' e f =
      absurd (ground (arith, handle_token-used msg a s t actions e))

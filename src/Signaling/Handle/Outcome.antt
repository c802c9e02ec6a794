-- ===== src/Signaling/Handle/Outcome.antt =====
-- What a successful `server-auth` leads to.
use saltyrtc_client_rs.Prelude.{◌≡◌, Option, arith, ok, pure, ◌>>=◌, ◌∙◌, ap, sym, bytes_eq_iff}
use saltyrtc_client_rs.Prelude.Outcome.{continue-ok}
use saltyrtc_client_rs.Nonce.{Nonce}
use saltyrtc_client_rs.State.{SignalingState, ServerHandshakeState}
use saltyrtc_client_rs.Messages.{ServerAuth}
use saltyrtc_client_rs.Deps.{Deps}
use saltyrtc_client_rs.Signaling.{Actions, Signaling, common, in_common, dispatch}
use saltyrtc_client_rs.Signaling.Server.{check_server_auth, finish_server_auth}
use saltyrtc_client_rs.Signaling.Paths.{initiator_handle_server_auth}
use saltyrtc_client_rs.Signaling.Responder.{responder_handle_server_auth}
use saltyrtc_client_rs.Signaling.Validate.{validate_repeated_cookie}
use saltyrtc_client_rs.Signaling.Handle.{handle_server_auth}

module _ {dep : Deps} where
  finished :
      (s t : Signaling dep)
      → in_common finish_server_auth s ≡ ok tt t
      → ((common t).signaling_state ≡ SignalingState.peer_handshake)
        × ((common t).server.handshake_state ≡ ServerHandshakeState.done)
  unfolding finish_server_auth
  finished (Signaling.initiator s) t e = (ground arith, ground arith)
  finished (Signaling.responder s) t e = (ground arith, ground arith)

  checked :
      (msg : ServerAuth) (n : Option Nonce) (s u : Signaling dep)
      → in_common (check_server_auth msg n) s ≡ ok tt u
      → msg.your_cookie ≡ (common s).server.cookie_pair.ours
  unfolding check_server_auth validate_repeated_cookie
  checked msg n (Signaling.initiator s) u e =
      grind (arith, bytes_eq_iff msg.your_cookie s.common.server.cookie_pair.ours)
  checked msg n (Signaling.responder s) u e =
      grind (arith, bytes_eq_iff msg.your_cookie s.common.server.cookie_pair.ours)

  -- If `handle_server_auth` succeeds, then the message repeated our cookie, the handshake with the
  -- server is done and the signaling is in the peer handshake.
  pub handle_server_auth-peer_handshake :
      (msg : ServerAuth) (n : Option Nonce) (s t : Signaling dep) (actions : Actions dep)
      → handle_server_auth msg n s ≡ ok actions t
      → (msg.your_cookie ≡ (common s).server.cookie_pair.ours)
        × ((common t).signaling_state ≡ SignalingState.peer_handshake)
        × ((common t).server.handshake_state ≡ ServerHandshakeState.done)
  unfolding handle_server_auth
  handle_server_auth-peer_handshake msg n s t actions e =
      let (_, u, eu, e1) =
        continue-ok
          (λ _.
            dispatch (initiator_handle_server_auth msg) (responder_handle_server_auth msg)
            >>= λ actions. in_common finish_server_auth >>= λ _. pure actions)
          (in_common (check_server_auth msg n) s) actions t e in
      let (acts, v, ev, e2) =
        continue-ok (λ actions. in_common finish_server_auth >>= λ _. pure actions)
          (dispatch (initiator_handle_server_auth msg) (responder_handle_server_auth msg) u) actions
          t e1 in
      let (_, w, ew, e3) =
        continue-ok (λ _. pure acts) (in_common finish_server_auth v) actions t e2 in
      let (now, done) = finished v w ew in
      let wt : w ≡ t = ground arith in
      (
        checked msg n s u eu,
        sym (ap (λ x. (common x).signaling_state) wt) ∙ now,
        sym (ap (λ x. (common x).server.handshake_state) wt) ∙ done,
      )

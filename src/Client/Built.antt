-- ===== src/Client/Built.antt =====
-- What the builder makes, and raw data under the session keys.
use saltyrtc_client_rs.Prelude.{ℕ, ◌≡◌, ◌≢◌, Option, some, List, [], ok, M, arith, length}
use saltyrtc_client_rs.External.{PublicKey, PrivateKey, SodiumLaws}
use saltyrtc_client_rs.Types.{Role}
use saltyrtc_client_rs.Errors.{BuilderError}
use saltyrtc_client_rs.Crypto.{AuthToken, from_private_key}
use saltyrtc_client_rs.Deps.{Deps, Rng}
use saltyrtc_client_rs.Context.{PeerContext, keypair, session_key}
use saltyrtc_client_rs.Signaling.{Signaling, common}
use saltyrtc_client_rs.Signaling.Peers.{get_peer}
use saltyrtc_client_rs.Signaling.New.{new_initiator, new_responder}
use saltyrtc_client_rs.Signaling.Reach.{IsNew}
use saltyrtc_client_rs.Client.{
  SaltyClientBuilder, SaltyClient, build_initiator, build_responder, encrypt_raw, decrypt_raw,
}

-- The four last calls on a builder
pub data Request : Type 0 where
  initiator : Option PublicKey → Request
  responder : PublicKey → Option AuthToken → Request

abbrev pub build :
    {dep : Deps} → Request → SaltyClientBuilder dep → M (Rng dep) BuilderError (SaltyClient dep)
build (Request.initiator trusted) b = build_initiator trusted b
build (Request.responder key token) b = build_responder key token b

abbrev pub role_of : Request → Role
role_of (Request.initiator _) = Role.initiator
role_of (Request.responder _ _) = Role.responder

module _ {dep : Deps} where
  -- A client that a builder makes is one that `new` has made, of the role that was asked for, and has
  -- the tasks that were added, in their order, of which there is at least one.
  pub build-IsNew :
      (r : Request) (b : SaltyClientBuilder dep) (g h : Rng dep) (c : SaltyClient dep)
      → build r b g ≡ ok c h
      → IsNew c × ((common c).role ≡ role_of r) × ((common c).tasks ≡ some b.tasks) × (b.tasks ≢ [])
  unfolding build_initiator build_responder new_initiator new_responder
  build-IsNew (Request.initiator trusted) b g h (Signaling.initiator s) e = (
    IsNew.initiator b.permanent_key b.tasks trusted b.server_public_permanent_key b.ping_interval g
        h s (ground (arith, e)),
    ground (arith, e),
    ground (arith, e),
    λ k. ground (arith, e, k),
  )
  build-IsNew (Request.responder key token) b g h (Signaling.responder s) e = (
    IsNew.responder b.permanent_key key token b.server_public_permanent_key b.tasks b.ping_interval
        g h s (ground (arith, e)),
    ground (arith, e),
    ground (arith, e),
    λ k. ground (arith, e, k),
  )
  build-IsNew (Request.initiator trusted) b g h (Signaling.responder s) e =
      absurd (ground (arith, e))
  build-IsNew (Request.responder key token) b g h (Signaling.initiator s) e =
      absurd (ground (arith, e))

  -- Raw data that one client encrypts is decrypted by the other with the same nonce, of 24 bytes, if
  -- each has the other's session key and libsodium opens what it sealed.
  pub decrypt_raw-encrypt_raw :
      (bytes nonce sealed : List ℕ) (s t other : SaltyClient dep) (p q : PeerContext)
      (ours theirs : PrivateKey)
      → SodiumLaws dep.sodium
      → get_peer s ≡ some p
      → keypair p ≡ some (from_private_key dep.sodium ours)
      → session_key p ≡ some (dep.sodium.scalarmult_base theirs)
      → get_peer other ≡ some q
      → keypair q ≡ some (from_private_key dep.sodium theirs)
      → session_key q ≡ some (dep.sodium.scalarmult_base ours)
      → encrypt_raw bytes nonce s ≡ ok sealed t
      → (t ≡ s) × (length nonce ≡ 24) × (decrypt_raw sealed nonce other ≡ ok bytes other)
  unfolding encrypt_raw decrypt_raw from_private_key
  decrypt_raw-encrypt_raw bytes nonce sealed s t other p q ours theirs laws ps kp sp qs kq sq e = (
    ground (arith, e, ps, kp, sp),
    ground (arith, e),
    ground (arith, e, ps, kp, sp, qs, kq, sq, laws.box_open-box_seal bytes nonce ours theirs),
  )

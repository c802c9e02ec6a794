-- ===== src/Signaling/New.antt =====
-- `InitiatorSignaling::new` and `ResponderSignaling::new` of src/protocol/mod.rs.
use saltyrtc_client_rs.Prelude.{ℕ, Option, none, some, List, [], M, pure, ◌>>=◌, get}
use saltyrtc_client_rs.External.{Sodium, PublicKey}
use saltyrtc_client_rs.Types.{Role, ClientIdentity}
use saltyrtc_client_rs.State.{SignalingState}
use saltyrtc_client_rs.Crypto.{KeyPair, AuthToken, new_token}
use saltyrtc_client_rs.Deps.{Deps, BoxedTask, Rng}
use saltyrtc_client_rs.Context.{ServerContext, new_server_context, new_initiator_context}
use saltyrtc_client_rs.Signaling.{AuthProvider, Common, InitiatorSignaling, ResponderSignaling}

-- The auth provider of an initiator: the key that it trusts, or a new token
unfoldable pub new_auth_provider :
    (so : Sodium) {E : Type 0} → Option PublicKey → M so.Rng E AuthProvider
unfolding new_token
new_auth_provider so none = do token ← new_token so; pure (AuthProvider.token token)
new_auth_provider so (some trusted) = pure (AuthProvider.trusted_key trusted)

-- The auth provider of a responder
unfoldable pub responder_auth_provider : PublicKey → Option AuthToken → AuthProvider
responder_auth_provider initiator_pubkey none = AuthProvider.trusted_key initiator_pubkey
responder_auth_provider initiator_pubkey (some token) = AuthProvider.token token

module _ {dep : Deps} where
  -- The data that both roles begin with. `rng` is the generator's state once all is drawn.
  abbrev pub new_common :
      Role
      → KeyPair
      → AuthProvider
      → ServerContext
      → Option PublicKey
      → List (BoxedTask dep)
      → Option ℕ
      → Rng dep
      → Common dep
  new_common role pair provider server key tasks ping g = record {
    signaling_state = SignalingState.server_handshake;
    permanent_keypair = pair;
    auth_provider = some provider;
    role = role;
    identity = ClientIdentity.unknown;
    server = record server { permanent_key = key };
    tasks = some tasks;
    task = none;
    task_supported_types = none;
    ping_interval = ping;
    rng = g;
  }

  unfoldable pub new_initiator :
      {E : Type 0}
      → KeyPair
      → List (BoxedTask dep)
      → Option PublicKey
      → Option PublicKey
      → Option ℕ
      → M (Rng dep) E (InitiatorSignaling dep)
  unfolding new_auth_provider new_server_context
  new_initiator permanent_keypair tasks responder_trusted_pubkey server_public_permanent_key
        ping_interval =
      do
        provider ← new_auth_provider dep.sodium responder_trusted_pubkey
        server ← new_server_context dep.sodium
        g ← get
        pure (record {
          common =
              new_common Role.initiator permanent_keypair provider server
                server_public_permanent_key tasks ping_interval g;
          responders = [];
          responder = none;
          responder_counter = 0;
        })

  unfoldable pub new_responder :
      {E : Type 0}
      → KeyPair
      → PublicKey
      → Option AuthToken
      → Option PublicKey
      → List (BoxedTask dep)
      → Option ℕ
      → M (Rng dep) E (ResponderSignaling dep)
  unfolding responder_auth_provider new_server_context new_initiator_context
  new_responder permanent_keypair initiator_pubkey auth_token server_public_permanent_key tasks
        ping_interval =
      do
        server ← new_server_context dep.sodium
        initiator ← new_initiator_context dep.sodium initiator_pubkey
        g ← get
        pure (record {
          common =
              new_common Role.responder permanent_keypair
                (responder_auth_provider initiator_pubkey auth_token) server
                server_public_permanent_key tasks ping_interval g;
          initiator = initiator;
        })

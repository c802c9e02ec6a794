-- ===== src/Client.antt =====
-- src/lib.rs: `SaltyClientBuilder` and `SaltyClient`, the interface of the library. The children
-- have the loops that run a client on a WebSocket.
pub mod WebSocket
pub mod Handshake
pub mod TaskLoop
pub mod Built
pub mod Lifetime
use saltyrtc_client_rs.Prelude.{
  ℕ, Option, none, some, List, [], ◌∷◌, ◌++◌, length, nat_eq, if◌then◌else◌, nat_has_eq,
  string_has_eq, bytes_has_eq, M, pure, or_throw, map_err, ok, err, panic, ◌>>=◌, ◌>>◌, throw_if,
  not,
}
use saltyrtc_client_rs.External.{PublicKey}
use saltyrtc_client_rs.Errors.{SignalingError, SaltyError, BuilderError, to_salty_error}
use saltyrtc_client_rs.CloseCode.{CloseCode}
use saltyrtc_client_rs.Crypto.{KeyPair, AuthToken}
use saltyrtc_client_rs.Deps.{Deps, Value, BoxedTask, Rng}
use saltyrtc_client_rs.Tasks.{from_vec}
use saltyrtc_client_rs.Boxes.{into_bytes}
use saltyrtc_client_rs.Signaling.{Signaling, common}
use saltyrtc_client_rs.Signaling.New.{new_initiator, new_responder}
use saltyrtc_client_rs.Signaling.Encode.{
  encode_task_message, encode_close_message, encrypt_raw_with_session_keys,
  decrypt_raw_with_session_keys,
}

-- A `Duration` is its seconds and nanoseconds; the signaling reads the seconds only.
pub record SaltyClientBuilder (dep : Deps) : Type 0 where
  pub permanent_key : KeyPair
  pub tasks : List (BoxedTask dep)
  pub ping_interval : Option ℕ
  pub server_public_permanent_key : Option PublicKey

-- `SaltyClient` wraps the signaling.
abbrev pub SaltyClient : Deps → Type 0
SaltyClient dep = Signaling dep

-- The errors that `encrypt_task_message` and `encrypt_close_message` map
unfoldable pub encryption_error : SignalingError → SaltyError
encryption_error SignalingError.crypto = SaltyError.crypto
encryption_error SignalingError.decode = SaltyError.decode
encryption_error SignalingError.protocol = SaltyError.protocol
encryption_error SignalingError.crash = SaltyError.crash
encryption_error _ = SaltyError.crash

module _ {dep : Deps} where
  -- `SaltyClientBuilder::new`
  unfoldable pub new_builder : KeyPair → SaltyClientBuilder dep
  new_builder permanent_key = record {
    permanent_key = permanent_key;
    tasks = [];
    ping_interval = none;
    server_public_permanent_key = none;
  }

  unfoldable pub add_task : BoxedTask dep → SaltyClientBuilder dep → SaltyClientBuilder dep
  add_task task b = record b { tasks = b.tasks ++ (task ∷ []) }

  unfoldable pub with_server_key : PublicKey → SaltyClientBuilder dep → SaltyClientBuilder dep
  with_server_key key b = record b { server_public_permanent_key = some key }

  unfoldable pub with_ping_interval : Option ℕ → SaltyClientBuilder dep → SaltyClientBuilder dep
  with_ping_interval interval b = record b { ping_interval = interval }

  -- `initiator` and `initiator_trusted`, which differ in the key that is trusted
  unfoldable pub build_initiator :
      Option PublicKey → SaltyClientBuilder dep → M (Rng dep) BuilderError (SaltyClient dep)
  unfolding from_vec new_initiator
  build_initiator trusted b = do
    tasks ← or_throw (from_vec dep.task b.tasks) BuilderError.missing_task
    signaling ←
        new_initiator b.permanent_key tasks trusted b.server_public_permanent_key b.ping_interval
    pure (Signaling.initiator signaling)

  -- `SaltyClientBuilder::initiator`
  unfoldable pub initiator : SaltyClientBuilder dep → M (Rng dep) BuilderError (SaltyClient dep)
  initiator b = build_initiator none b

  -- `SaltyClientBuilder::initiator_trusted`
  unfoldable pub initiator_trusted :
      PublicKey → SaltyClientBuilder dep → M (Rng dep) BuilderError (SaltyClient dep)
  initiator_trusted key b = build_initiator (some key) b

  -- `responder` and `responder_trusted`, which differ in the token
  unfoldable pub build_responder :
      PublicKey
      → Option AuthToken
      → SaltyClientBuilder dep
      → M (Rng dep) BuilderError (SaltyClient dep)
  unfolding from_vec new_responder
  build_responder initiator_pubkey token b = do
    tasks ← or_throw (from_vec dep.task b.tasks) BuilderError.missing_task
    signaling ←
        new_responder b.permanent_key initiator_pubkey token b.server_public_permanent_key tasks
          b.ping_interval
    pure (Signaling.responder signaling)

  -- `SaltyClientBuilder::responder`
  unfoldable pub responder :
      PublicKey → AuthToken → SaltyClientBuilder dep → M (Rng dep) BuilderError (SaltyClient dep)
  responder initiator_pubkey auth_token b = build_responder initiator_pubkey (some auth_token) b

  -- `SaltyClientBuilder::responder_trusted`
  unfoldable pub responder_trusted :
      PublicKey → SaltyClientBuilder dep → M (Rng dep) BuilderError (SaltyClient dep)
  responder_trusted initiator_trusted_pubkey b = build_responder initiator_trusted_pubkey none b

  -- `SaltyClient::encrypt_task_message`
  unfoldable pub encrypt_task_message : Value dep → M (SaltyClient dep) SaltyError (List ℕ)
  unfolding encode_task_message into_bytes encryption_error
  encrypt_task_message val =
      map_err encryption_error
        (do bbox ← encode_task_message val; pure (into_bytes dep.byte_order bbox))

  -- `SaltyClient::encrypt_close_message`
  unfoldable pub encrypt_close_message : CloseCode → M (SaltyClient dep) SaltyError (List ℕ)
  unfolding encode_close_message into_bytes encryption_error
  encrypt_close_message reason =
      map_err encryption_error
        (do bbox ← encode_close_message reason; pure (into_bytes dep.byte_order bbox))

  -- `SaltyClient::encrypt_raw_with_session_keys`; a nonce of libsodium has 24 bytes.
  unfoldable pub encrypt_raw : List ℕ → List ℕ → M (SaltyClient dep) SaltyError (List ℕ)
  unfolding encrypt_raw_with_session_keys to_salty_error
  encrypt_raw bytes nonce = do
    throw_if (not (nat_eq (length nonce) 24)) SaltyError.crypto
    map_err to_salty_error (encrypt_raw_with_session_keys bytes nonce)

  -- `SaltyClient::decrypt_raw_with_session_keys`
  unfoldable pub decrypt_raw : List ℕ → List ℕ → M (SaltyClient dep) SaltyError (List ℕ)
  unfolding decrypt_raw_with_session_keys to_salty_error
  decrypt_raw bytes nonce = do
    throw_if (not (nat_eq (length nonce) 24)) SaltyError.crypto
    map_err to_salty_error (decrypt_raw_with_session_keys bytes nonce)

-- ===== src/Crypto.antt =====
-- src/crypto_types.rs: key pairs, auth tokens and the signed keys of `server-auth`.
pub mod Hex
use saltyrtc_client_rs.Prelude.{
  ℕ, Option, none, some, List, length, take, drop, nat_eq, not, if◌then◌else◌, M, pure, or_throw,
  panic_if, bytes_eq, Bool, ◌>>=◌, ◌>>◌, libsodium_init, signed_keys_length,
}
use saltyrtc_client_rs.Errors.{SignalingError}
use saltyrtc_client_rs.External.{Sodium, ByteOrder, PublicKey, PrivateKey, SecretKey}
use saltyrtc_client_rs.Nonce.{Nonce, into_bytes}

pub record KeyPair : Type 0 where
  pub public_key : PublicKey
  pub private_key : PrivateKey

-- `struct AuthToken(SecretKey)`
abbrev pub AuthToken : Type 0
AuthToken = SecretKey

pub record UnsignedKeys : Type 0 where
  pub server_public_session_key : PublicKey
  pub client_public_permanent_key : PublicKey

-- `2 * box_::PUBLICKEYBYTES + box_::MACBYTES`
abbrev pub signed_keys_bytes : ℕ
signed_keys_bytes = 80

-- `struct SignedKeys([u8; SIGNED_KEYS_BYTES])`
abbrev pub SignedKeys : Type 0
SignedKeys = List ℕ

-- `SignedKeys`'s `==`: the bytes
unfoldable pub signed_keys_eq : SignedKeys → SignedKeys → Bool
signed_keys_eq a b = bytes_eq a b

-- `SignedKeysVisitor::visit_bytes`; `none` is the error for a wrong length.
unfoldable pub visit_signed_keys_bytes : List ℕ → Option SignedKeys
visit_signed_keys_bytes v = if not (nat_eq (length v) signed_keys_bytes) then none else some v

-- `AuthToken::from_slice`; `none` is `Err(SaltyError::Decode)`.
unfoldable pub token_from_slice : List ℕ → Option AuthToken
token_from_slice bytes = if not (nat_eq (length bytes) 32) then none else some bytes

module _ (so : Sodium) where
  -- `KeyPair::new`
  unfoldable pub new_keypair : {E : Type 0} → M so.Rng E KeyPair
  new_keypair = do
    panic_if (not so.init) libsodium_init
    λ g.
        let ((pk, sk), g') = so.gen_keypair g in
        pure (record { public_key = pk; private_key = sk }) g'

  -- `KeyPair::from_private_key`
  unfoldable pub from_private_key : PrivateKey → KeyPair
  from_private_key sk = record { public_key = so.scalarmult_base sk; private_key = sk }

  -- `AuthToken::new`
  unfoldable pub new_token : {E : Type 0} → M so.Rng E AuthToken
  new_token = do
    panic_if (not so.init) libsodium_init
    λ g. let (key, g') = so.gen_key g in pure key g'

module _ (so : Sodium) (bo : ByteOrder) where
  -- `KeyPair::encrypt`
  unfoldable pub encrypt : KeyPair → List ℕ → Nonce → PublicKey → List ℕ
  encrypt pair bytes nonce other_key =
      so.box_seal bytes (into_bytes bo nonce) other_key pair.private_key

  -- `KeyPair::decrypt`; `none` is `Err(SignalingError::Crypto)`.
  unfoldable pub decrypt : KeyPair → List ℕ → Nonce → PublicKey → Option (List ℕ)
  decrypt pair bytes nonce other_key =
      so.box_open bytes (into_bytes bo nonce) other_key pair.private_key

  -- `AuthToken::encrypt`
  unfoldable pub token_encrypt : AuthToken → List ℕ → Nonce → List ℕ
  token_encrypt token bytes nonce = so.secretbox_seal bytes (into_bytes bo nonce) token

  -- `AuthToken::decrypt`; `none` is `Err(SignalingError::Crypto)`.
  unfoldable pub token_decrypt : AuthToken → List ℕ → Nonce → Option (List ℕ)
  token_decrypt token bytes nonce = so.secretbox_open bytes (into_bytes bo nonce) token

  -- `SignedKeys::decrypt`
  unfoldable pub signed_keys_decrypt :
      {S : Type 0} → SignedKeys → KeyPair → PublicKey → Nonce → M S SignalingError UnsignedKeys
  signed_keys_decrypt keys permanent_key server_key nonce = do
    decrypted ←
        or_throw (so.box_open keys (into_bytes bo nonce) server_key permanent_key.private_key)
          SignalingError.crypto
    panic_if (not (nat_eq (length decrypted) 64)) signed_keys_length
    pure (record {
      server_public_session_key = take 32 decrypted;
      client_public_permanent_key = take 32 (drop 32 decrypted);
    })

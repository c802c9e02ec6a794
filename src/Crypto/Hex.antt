-- ===== src/Crypto/Hex.antt =====
-- The hex strings of src/crypto_types.rs. `none` stands for `SaltyError::Decode`, their only error.
use saltyrtc_client_rs.Prelude.{
  ℕ, ◌≡◌, Option, none, some, String, length, nat_eq, if◌then◌else◌, List, arith, All,
}
use saltyrtc_client_rs.External.{Hex, HexLaws, IsByte, PublicKey, PrivateKey}
use saltyrtc_client_rs.Crypto.{KeyPair, AuthToken, token_from_slice}

-- `PublicKey::from_slice`, and those of the other keys: a key of libsodium has 32 bytes.
abbrev key_from_slice : List ℕ → Option (List ℕ)
key_from_slice bytes = if nat_eq (length bytes) 32 then some bytes else none

module _ (hex : Hex) where
  unfoldable pub public_key_from_hex_str : String → Option PublicKey
  public_key_from_hex_str hex_str = elim (hex.decode hex_str) [
    | none ↦ none
    | some bytes ↦ key_from_slice bytes
  ]

  unfoldable pub private_key_from_hex_str : String → Option PrivateKey
  private_key_from_hex_str hex_str = elim (hex.decode hex_str) [
    | none ↦ none
    | some bytes ↦ key_from_slice bytes
  ]

  -- `KeyPair::public_key_hex`
  unfoldable pub public_key_hex : KeyPair → String
  public_key_hex pair = hex.encode pair.public_key

  -- `KeyPair::private_key_hex`
  unfoldable pub private_key_hex : KeyPair → String
  private_key_hex pair = hex.encode pair.private_key

  -- `AuthToken::from_hex_str`
  unfoldable pub token_from_hex_str : String → Option AuthToken
  token_from_hex_str hex_str = elim (hex.decode hex_str) [
    | none ↦ none
    | some bytes ↦ key_from_slice bytes
  ]

  -- A key pair whose keys have 32 bytes each is restored from its hex strings, and a token that
  -- `from_slice` takes from that of its bytes.
  pub keys_from_hex_str :
      (pair : KeyPair) (bytes : List ℕ) (token : AuthToken)
      → HexLaws hex
      → All IsByte pair.public_key
      → All IsByte pair.private_key
      → length pair.public_key ≡ 32
      → length pair.private_key ≡ 32
      → All IsByte bytes
      → token_from_slice bytes ≡ some token
      → (public_key_from_hex_str (public_key_hex pair) ≡ some pair.public_key)
        × (private_key_from_hex_str (private_key_hex pair) ≡ some pair.private_key)
        × (token_from_hex_str (hex.encode bytes) ≡ some token)
  unfolding public_key_from_hex_str private_key_from_hex_str public_key_hex private_key_hex
      token_from_hex_str token_from_slice
  keys_from_hex_str pair bytes token laws pub' priv n m b e = (
    ground (arith, laws.decode-encode pair.public_key pub', n),
    ground (arith, laws.decode-encode pair.private_key priv, m),
    ground (arith, laws.decode-encode bytes b, e),
  )

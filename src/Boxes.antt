-- ===== src/Boxes.antt =====
-- src/boxes.rs: messages with their nonces, open and sealed.
pub mod RoundTrip
use saltyrtc_client_rs.Prelude.{
  ℕ, Option, none, some, List, ◌++◌, length, take, drop, leb, if◌then◌else◌, nat_has_eq,
  string_has_eq, bytes_has_eq,
}
use saltyrtc_client_rs.External.{ByteOrder, PublicKey}
use saltyrtc_client_rs.Nonce
use saltyrtc_client_rs.Nonce.{Nonce, from_bytes}
use saltyrtc_client_rs.Crypto
use saltyrtc_client_rs.Crypto.{KeyPair, AuthToken}
use saltyrtc_client_rs.Messages.{Message}
use saltyrtc_client_rs.Deps.{Deps, Value}

pub record OpenBox (T : Type 0) : Type 0 where
  pub message : T
  pub nonce : Nonce

-- The bytes may or may not be encrypted.
pub record ByteBox : Type 0 where
  pub bytes : List ℕ
  pub nonce : Nonce

-- `rust_sodium::crypto::box_::NONCEBYTES`
abbrev pub nonce_bytes : ℕ
nonce_bytes = 24

module _ (bo : ByteOrder) where
  -- `ByteBox::from_slice`; `none` is `Err(SignalingError::Decode)`.
  unfoldable pub from_slice : List ℕ → Option ByteBox
  from_slice bytes =
      if leb (length bytes) nonce_bytes then none else elim (from_bytes bo (take 24 bytes)) [
        | some nonce ↦ some (record { bytes = drop 24 bytes; nonce = nonce })
        | none ↦ none
      ]

  -- `ByteBox::into_bytes`
  unfoldable pub into_bytes : ByteBox → List ℕ
  into_bytes bbox = Nonce.into_bytes bo bbox.nonce ++ bbox.bytes

module _ (dep : Deps) where
  -- `OpenBox::encode`
  unfoldable pub encode : OpenBox (Message (Value dep)) → ByteBox
  encode obox = record { bytes = dep.msgpack.to_msgpack obox.message; nonce = obox.nonce }

  -- `OpenBox::<Message>::encrypt`
  unfoldable pub encrypt : KeyPair → PublicKey → OpenBox (Message (Value dep)) → ByteBox
  encrypt keypair other_key obox = record {
    bytes =
        Crypto.encrypt dep.sodium dep.byte_order keypair (dep.msgpack.to_msgpack obox.message)
          obox.nonce other_key;
    nonce = obox.nonce;
  }

  -- `OpenBox::encrypt_token`
  unfoldable pub encrypt_token : AuthToken → OpenBox (Message (Value dep)) → ByteBox
  encrypt_token token obox = record {
    bytes =
        Crypto.token_encrypt dep.sodium dep.byte_order token (dep.msgpack.to_msgpack obox.message)
          obox.nonce;
    nonce = obox.nonce;
  }

  -- The end of `decode`, `decrypt` and `decrypt_token`. Each of these answers with
  -- `SignalingError::Decode` whatever goes wrong, which is `none` here.
  unfoldable pub open_message : Option (List ℕ) → Nonce → Option (OpenBox (Message (Value dep)))
  open_message none nonce = none
  open_message (some bytes) nonce = elim (dep.msgpack.from_msgpack bytes) [
    | some message ↦ some (record { message = message; nonce = nonce })
    | none ↦ none
  ]

  -- `OpenBox::decode`
  unfoldable pub decode : ByteBox → Option (OpenBox (Message (Value dep)))
  unfolding open_message
  decode bbox = open_message (some bbox.bytes) bbox.nonce

  -- `OpenBox::<Message>::decrypt`
  unfoldable pub decrypt : ByteBox → KeyPair → PublicKey → Option (OpenBox (Message (Value dep)))
  unfolding open_message
  decrypt bbox keypair other_key =
      open_message
        (Crypto.decrypt dep.sodium dep.byte_order keypair bbox.bytes bbox.nonce other_key)
        bbox.nonce

  -- `OpenBox::decrypt_token`
  unfoldable pub decrypt_token : ByteBox → AuthToken → Option (OpenBox (Message (Value dep)))
  unfolding open_message
  decrypt_token bbox token =
      open_message (Crypto.token_decrypt dep.sodium dep.byte_order token bbox.bytes bbox.nonce)
        bbox.nonce

  -- `OpenBox::<Value>::encrypt`
  unfoldable pub encrypt_value : KeyPair → PublicKey → OpenBox (Value dep) → ByteBox
  encrypt_value keypair other_key obox = record {
    bytes =
        Crypto.encrypt dep.sodium dep.byte_order keypair (dep.msgpack.value_to_msgpack obox.message)
          obox.nonce other_key;
    nonce = obox.nonce;
  }

  unfoldable pub open_value : Option (List ℕ) → Nonce → Option (OpenBox (Value dep))
  open_value none nonce = none
  open_value (some bytes) nonce = elim (dep.msgpack.value_from_msgpack bytes) [
    | some value ↦ some (record { message = value; nonce = nonce })
    | none ↦ none
  ]

  -- `OpenBox::<Value>::decrypt`
  unfoldable pub decrypt_value : ByteBox → KeyPair → PublicKey → Option (OpenBox (Value dep))
  unfolding open_value
  decrypt_value bbox keypair other_key =
      open_value (Crypto.decrypt dep.sodium dep.byte_order keypair bbox.bytes bbox.nonce other_key)
        bbox.nonce

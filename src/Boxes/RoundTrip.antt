-- ===== src/Boxes/RoundTrip.antt =====
-- Sealing and opening boxes, writing and reading their bytes.
use saltyrtc_client_rs.Prelude.{
  ℕ, ap₂, All-take, ◌≡◌, ◌<◌, some, List, ◌++◌, arith, ◌∙◌, length, take, drop, All, length-append,
  take-append_left, drop-append_left, take-append-drop,
}
use saltyrtc_client_rs.External.{ByteOrder, BigEndianLaws, SodiumLaws, PrivateKey, IsByte}
use saltyrtc_client_rs.Nonce
use saltyrtc_client_rs.Nonce.{Nonce, from_bytes}
use saltyrtc_client_rs.Nonce.RoundTrip.{
  IsNonce, length-into_bytes, from_bytes-into_bytes, into_bytes-from_bytes,
}
use saltyrtc_client_rs.Crypto
use saltyrtc_client_rs.Crypto.{KeyPair, AuthToken, from_private_key}
use saltyrtc_client_rs.Messages.{Message}
use saltyrtc_client_rs.Deps.{Deps, Value}
use saltyrtc_client_rs.Boxes.{
  open_message, open_value, OpenBox, ByteBox, from_slice, into_bytes, encrypt, decrypt,
  encrypt_token, decrypt_token, encrypt_value, decrypt_value,
}

module _ (dep : Deps) (laws : SodiumLaws dep.sodium) where
  -- A message that msgpack reads back is what `decrypt` gives for what `encrypt` made of it, with its
  -- nonce, if each side has its own private key and the other's public key, and
  -- libsodium opens what it sealed.
  pub decrypt-encrypt :
      (obox : OpenBox (Message (Value dep))) (a b : PrivateKey)
      → dep.msgpack.from_msgpack (dep.msgpack.to_msgpack obox.message) ≡ some obox.message
      → decrypt dep
          (encrypt dep (from_private_key dep.sodium a) (dep.sodium.scalarmult_base b) obox)
          (from_private_key dep.sodium b)
          (dep.sodium.scalarmult_base a)
        ≡ some obox
  unfolding decrypt encrypt from_private_key open_message Crypto.encrypt Crypto.decrypt
  decrypt-encrypt obox a b h = grind (arith, laws.box_open-box_seal)

  -- A message that msgpack reads back is what `decrypt_token` gives for what `encrypt_token` made of
  -- it with the same token, if libsodium opens what it sealed.
  pub decrypt_token-encrypt_token :
      (obox : OpenBox (Message (Value dep))) (token : AuthToken)
      → dep.msgpack.from_msgpack (dep.msgpack.to_msgpack obox.message) ≡ some obox.message
      → decrypt_token dep (encrypt_token dep token obox) token ≡ some obox
  unfolding decrypt_token encrypt_token open_message Crypto.token_encrypt Crypto.token_decrypt
  decrypt_token-encrypt_token obox token h = grind (arith, laws.secretbox_open-secretbox_seal)

  pub decrypt_value-encrypt_value :
      (obox : OpenBox (Value dep)) (a b : PrivateKey)
      → dep.msgpack.value_from_msgpack (dep.msgpack.value_to_msgpack obox.message)
        ≡ some obox.message
      → decrypt_value dep
          (encrypt_value dep (from_private_key dep.sodium a) (dep.sodium.scalarmult_base b) obox)
          (from_private_key dep.sodium b)
          (dep.sodium.scalarmult_base a)
        ≡ some obox
  unfolding decrypt_value encrypt_value from_private_key open_value Crypto.encrypt Crypto.decrypt
  decrypt_value-encrypt_value obox a b h = grind (arith, laws.box_open-box_seal)

module _ (bo : ByteOrder) (be : BigEndianLaws bo) where
  -- A box with a well-formed nonce and at least one byte of data is read back from its bytes, if
  -- byteorder is big-endian.
  pub from_slice-into_bytes :
      (bbox : ByteBox)
      → IsNonce bbox.nonce
      → 0 < length bbox.bytes
      → from_slice bo (into_bytes bo bbox) ≡ some bbox
  unfolding from_slice into_bytes
  from_slice-into_bytes bbox v h = grind (
    arith,
    length-append (Nonce.into_bytes bo bbox.nonce) bbox.bytes,
    take-append_left 24 (Nonce.into_bytes bo bbox.nonce) bbox.bytes,
    drop-append_left 24 (Nonce.into_bytes bo bbox.nonce) bbox.bytes,
    length-into_bytes bo be bbox.nonce v,
    from_bytes-into_bytes bo be bbox.nonce v,
  )

  from_slice_parts :
      (bytes : List ℕ) (bbox : ByteBox)
      → from_slice bo bytes ≡ some bbox
      → (from_bytes bo (take 24 bytes) ≡ some bbox.nonce) × (bbox.bytes ≡ drop 24 bytes)
  unfolding from_slice
  from_slice_parts bytes bbox h = (ground arith, ground arith)

  -- A box that was read from bytes has these bytes, if each is below 256 and byteorder is
  -- big-endian.
  pub into_bytes-from_slice :
      (bytes : List ℕ) (bbox : ByteBox)
      → All IsByte bytes
      → from_slice bo bytes ≡ some bbox
      → into_bytes bo bbox ≡ bytes
  unfolding into_bytes
  into_bytes-from_slice bytes bbox b h =
      let (n, d) = from_slice_parts bytes bbox h in
      ap₂ (λ x y. x ++ y)
        (into_bytes-from_bytes bo be (take 24 bytes) bbox.nonce (All-take IsByte 24 bytes b) n).0 d
      ∙ take-append-drop 24 bytes

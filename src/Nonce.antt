-- ===== src/Nonce.antt =====
-- src/protocol/nonce.rs: the 24-byte nonce of a message.
pub mod RoundTrip
use saltyrtc_client_rs.Prelude.{
  ℕ, ◌+◌, Option, none, some, List, [], ◌∷◌, ◌++◌, length, take, drop, nat_eq, not, if◌then◌else◌,
}
use saltyrtc_client_rs.External.{ByteOrder}
use saltyrtc_client_rs.Types.{Address, Identity, identity_from_address}
use saltyrtc_client_rs.Cookie.{Cookie}
use saltyrtc_client_rs.Csn.{CombinedSequenceSnapshot}

pub record Nonce : Type 0 where
  pub cookie : Cookie
  pub source : Address
  pub destination : Address
  pub csn : CombinedSequenceSnapshot

-- `bytes[i]` of an array that is long enough
abbrev pub byte_at : List ℕ → ℕ
byte_at [] = 0
byte_at (b ∷ bs) = b

unfoldable pub source_identity : Nonce → Identity
unfolding identity_from_address
source_identity n = identity_from_address n.source

module _ (bo : ByteOrder) where
  -- `none` is `Err(SignalingError::Decode)`, for a slice that is not 24 bytes long.
  unfoldable pub from_bytes : List ℕ → Option Nonce
  from_bytes bytes =
      if not (nat_eq (length bytes) 24)
      then none
      else some (record {
        cookie = take 16 bytes;
        source = byte_at (drop 16 bytes);
        destination = byte_at (drop 17 bytes);
        csn = record {
          overflow = bo.read_u16 (take 2 (drop 18 bytes));
          sequence = bo.read_u32 (take 4 (drop 20 bytes));
        };
      })

  -- The cookie fills the bytes 0 to 15, of which there are as many as it has.
  unfoldable pub into_bytes : Nonce → List ℕ
  into_bytes n =
      n.cookie
      ++ (n.source ∷ n.destination ∷ (bo.write_u16 n.csn.overflow ++ bo.write_u32 n.csn.sequence))

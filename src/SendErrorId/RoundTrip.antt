-- ===== src/SendErrorId/RoundTrip.antt =====
-- Writing the 8 bytes of a `send-error` id, and reading them.
use saltyrtc_client_rs.Prelude.{ℕ, ◌<◌, ◌≡◌, some, List, [], ◌∷◌, subst, arith, All}
use mathlib.Core.Option.{some-injective}
use saltyrtc_client_rs.External.{ByteOrder, BigEndianLaws, IsByte}
use saltyrtc_client_rs.Csn.Increment.{IsSnapshot}
use saltyrtc_client_rs.Nonce.RoundTrip.{write_u16-read, write_u32-read}
use saltyrtc_client_rs.SendErrorId.{SendErrorId, as_bytes, from_slice}

pub record IsSendErrorId (id : SendErrorId) : Type 0 where
  pub source_u8 : id.source < 256
  pub destination_u8 : id.destination < 256
  pub csn : IsSnapshot id.csn

module _ (bo : ByteOrder) (be : BigEndianLaws bo) where
  -- An id whose numbers fit their machine types is read back from the bytes that it writes, if
  -- byteorder is big-endian.
  pub from_slice-as_bytes :
      (id : SendErrorId) → IsSendErrorId id → from_slice bo (as_bytes bo id) ≡ some id
  unfolding as_bytes from_slice
  from_slice-as_bytes id v =
      rw
        (
          be.write_u16_bytes id.csn.overflow v.csn.overflow_u16,
          be.write_u32_bytes id.csn.sequence v.csn.sequence_u32,
          be.read_u16_bytes,
          be.read_u32_bytes,
        )
        (ground arith)

  -- If bytes below 256 are read as an id, then these are the bytes that the id writes; byteorder has
  -- to be big-endian.
  pub as_bytes-from_slice :
      (bytes : List ℕ) (id : SendErrorId)
      → All IsByte bytes
      → from_slice bo bytes ≡ some id
      → as_bytes bo id ≡ bytes
  unfolding as_bytes from_slice
  as_bytes-from_slice (s ∷ d ∷ o1 ∷ o0 ∷ s3 ∷ s2 ∷ s1 ∷ s0 ∷ []) id b h =
      subst (λ m. as_bytes bo m ≡ s ∷ d ∷ o1 ∷ o0 ∷ s3 ∷ s2 ∷ s1 ∷ s0 ∷ []) (some-injective _ _ h)
        (rw (
          be.read_u16_bytes o1 o0,
          be.read_u32_bytes s3 s2 s1 s0,
          write_u16-read bo be o1 o0 (omega arith) (omega arith),
          write_u32-read bo be s3 s2 s1 s0 (omega arith) (omega arith) (omega arith) (omega arith),
        ))
  as_bytes-from_slice _ id b h = ground arith

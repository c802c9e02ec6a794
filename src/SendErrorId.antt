-- ===== src/SendErrorId.antt =====
-- src/protocol/send_error.rs: the 8-byte id of a `send-error` message.
pub mod RoundTrip
use saltyrtc_client_rs.Prelude.{
  ℕ, Option, none, some, List, [], ◌∷◌, ◌++◌, length, take, drop, nat_eq, not, if◌then◌else◌,
}
use saltyrtc_client_rs.External.{ByteOrder}
use saltyrtc_client_rs.Types.{Address}
use saltyrtc_client_rs.Csn.{CombinedSequenceSnapshot}
use saltyrtc_client_rs.Nonce.{byte_at}

abbrev pub send_error_id_bytes : ℕ
send_error_id_bytes = 8

pub record SendErrorId : Type 0 where
  pub source : Address
  pub destination : Address
  pub csn : CombinedSequenceSnapshot

module _ (bo : ByteOrder) where
  unfoldable pub as_bytes : SendErrorId → List ℕ
  as_bytes id =
      id.source ∷ id.destination ∷ (bo.write_u16 id.csn.overflow ++ bo.write_u32 id.csn.sequence)

  -- `none` is `Err(SignalingError::Decode)`, for a slice that is not 8 bytes long.
  unfoldable pub from_slice : List ℕ → Option SendErrorId
  from_slice bytes =
      if not (nat_eq (length bytes) send_error_id_bytes)
      then none
      else some (record {
        source = byte_at bytes;
        destination = byte_at (drop 1 bytes);
        csn = record {
          overflow = bo.read_u16 (take 2 (drop 2 bytes));
          sequence = bo.read_u32 (take 4 (drop 4 bytes));
        };
      })

  -- `SendErrorIdVisitor::visit_bytes`; `none` is either of its two errors.
  unfoldable pub visit_send_error_id_bytes : List ℕ → Option SendErrorId
  unfolding from_slice
  visit_send_error_id_bytes v = if not (nat_eq (length v) 8) then none else from_slice v

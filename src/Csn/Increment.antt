-- ===== src/Csn/Increment.antt =====
-- `increment` against the 48-bit number that a combined sequence stands for, and the order.
use saltyrtc_client_rs.Prelude.{◌+◌, ◌^◌, ◌<◌, ◌≡◌, ◌↔◌, true, arith, ok, err, ltb, if◌then◌else◌}
use saltyrtc_client_rs.Errors.{SignalingError}
use saltyrtc_client_rs.Csn.{
  CombinedSequence, CombinedSequenceSnapshot, combined_sequence_number, snapshot_number, increment,
  snapshot, snapshot_lt, snapshot_eq,
}

-- The fields fit their machine types.
pub record IsCsn (c : CombinedSequence) : Type 0 where
  pub overflow_u16 : c.overflow < 2 ^ 16
  pub sequence_u32 : c.sequence < 2 ^ 32

pub record IsSnapshot (c : CombinedSequenceSnapshot) : Type 0 where
  pub overflow_u16 : c.overflow < 2 ^ 16
  pub sequence_u32 : c.sequence < 2 ^ 32

-- The number does not wrap: it is below 2 ^ 48.
pub combined_lt : (c : CombinedSequence) → IsCsn c → combined_sequence_number c < 2 ^ 48
unfolding combined_sequence_number
combined_lt c v = ground arith

-- One more in 48 bits: the sequence number carries into the overflow number.
unfoldable pub successor : CombinedSequence → CombinedSequence
successor c =
    if ltb (c.sequence + 1) (2 ^ 32)
    then record { overflow = c.overflow; sequence = c.sequence + 1 }
    else record { overflow = c.overflow + 1; sequence = 0 }

-- Below the last 48-bit number, `increment` succeeds: the fields of the result fit their machine
-- types, it stands for the next number, and its snapshot is what is returned. The fields before have
-- to fit their machine types.
pub increment_number :
    (c : CombinedSequence)
    → IsCsn c
    → combined_sequence_number c + 1 < 2 ^ 48
    → (d : CombinedSequence) × (increment c ≡ ok (snapshot d) d)
      × IsCsn d
      × (combined_sequence_number d ≡ combined_sequence_number c + 1)
unfolding increment combined_sequence_number successor
increment_number c v h = (successor c, ground arith, ground arith, ground arith)

-- At the last 48-bit number, `increment` fails with the overflow error and changes nothing. The
-- fields have to fit their machine types.
pub increment_overflow :
    (c : CombinedSequence)
    → IsCsn c
    → combined_sequence_number c + 1 ≡ 2 ^ 48
    → increment c ≡ err SignalingError.csn_overflow c
unfolding increment combined_sequence_number
increment_overflow c v h = ground arith

-- One snapshot is less than another just if the number that it stands for is.
pub snapshot_lt_iff :
    (a b : CombinedSequenceSnapshot)
    → (snapshot_lt a b ≡ true) ↔ (snapshot_number a < snapshot_number b)
unfolding snapshot_lt
snapshot_lt_iff a b = ground arith

-- Two snapshots whose fields fit their machine types are equal just if they stand for the same number.
pub snapshot_eq_iff :
    (a b : CombinedSequenceSnapshot)
    → IsSnapshot a
    → IsSnapshot b
    → (snapshot_eq a b ≡ true) ↔ (snapshot_number a ≡ snapshot_number b)
unfolding snapshot_eq snapshot_number
snapshot_eq_iff a b va vb = ground arith

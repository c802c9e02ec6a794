-- ===== src/Csn.antt =====
-- src/protocol/csn.rs: 48-bit combined sequence numbers, an overflow number (u16) and a sequence
-- number (u32).
pub mod Increment
use Prim.Native.Nat.{compare, Ordering}
use saltyrtc_client_rs.Prelude.{
  ℕ, ◌+◌, ◌*◌, ◌%◌, ◌^◌, ◌<◌, Bool, ◌&&◌, Option, none, some, List, [], ◌∷◌, nat_eq, ltb,
  if◌then◌else◌, M, pure, throw, panics, get, modify, ◌>>=◌, ◌>>◌, panic_if, libsodium_init, not,
}
use saltyrtc_client_rs.Errors.{SignalingError}
use saltyrtc_client_rs.External.{Sodium}

-- `u32::checked_add` and `u16::checked_add`, by the width
unfoldable pub checked_add : ℕ → ℕ → ℕ → Option ℕ
checked_add width a b = if ltb (a + b) (2 ^ width) then some (a + b) else none

pub record CombinedSequence : Type 0 where
  pub overflow : ℕ
  pub sequence : ℕ

pub record CombinedSequenceSnapshot : Type 0 where
  pub overflow : ℕ
  pub sequence : ℕ

-- `(u64::from(overflow) << 32) + u64::from(sequence)`, in both types
unfoldable pub combined : ℕ → ℕ → ℕ
combined overflow sequence = (overflow * 2 ^ 32 % 2 ^ 64 + sequence) % 2 ^ 64

unfoldable pub combined_sequence_number : CombinedSequence → ℕ
unfolding combined
combined_sequence_number c = combined c.overflow c.sequence

unfoldable pub snapshot_number : CombinedSequenceSnapshot → ℕ
unfolding combined
snapshot_number c = combined c.overflow c.sequence

-- `impl From<&CombinedSequence> for CombinedSequenceSnapshot`
abbrev pub snapshot : CombinedSequence → CombinedSequenceSnapshot
snapshot c = record { overflow = c.overflow; sequence = c.sequence }

-- `impl From<&CombinedSequenceSnapshot> for CombinedSequence`
abbrev pub from_snapshot : CombinedSequenceSnapshot → CombinedSequence
from_snapshot c = record { overflow = c.overflow; sequence = c.sequence }

-- The number after this one, if there is one.
unfoldable pub next_sequence : CombinedSequence → Option CombinedSequence
unfolding checked_add
next_sequence c = elim (checked_add 32 c.sequence 1) [
  | some incremented ↦ some (record { overflow = c.overflow; sequence = incremented })
  | none ↦ elim (checked_add 16 c.overflow 1) [
    | some incremented ↦ some (record { overflow = incremented; sequence = 0 })
    | none ↦ none
  ]
]

unfoldable pub increment : M CombinedSequence SignalingError CombinedSequenceSnapshot
unfolding next_sequence
increment c = elim (next_sequence c) [
  | some next ↦ (do modify (λ _. next); pure (snapshot next)) c
  | none ↦ throw SignalingError.csn_overflow c
]

-- `PartialEq<CombinedSequenceSnapshot> for CombinedSequence`: by the combined number
unfoldable pub sequence_eq_snapshot : CombinedSequence → CombinedSequenceSnapshot → Bool
unfolding combined_sequence_number snapshot_number
sequence_eq_snapshot a b = nat_eq (combined_sequence_number a) (snapshot_number b)

unfoldable pub sequence_cmp_snapshot : CombinedSequence → CombinedSequenceSnapshot → Option Ordering
unfolding combined_sequence_number snapshot_number
sequence_cmp_snapshot a b = some (compare (combined_sequence_number a) (snapshot_number b))

-- `==` between snapshots is derived, field by field.
unfoldable pub snapshot_eq : CombinedSequenceSnapshot → CombinedSequenceSnapshot → Bool
snapshot_eq a b = nat_eq a.overflow b.overflow && nat_eq a.sequence b.sequence

-- `Ord for CombinedSequenceSnapshot`
unfoldable pub snapshot_cmp : CombinedSequenceSnapshot → CombinedSequenceSnapshot → Ordering
unfolding snapshot_number
snapshot_cmp a b = compare (snapshot_number a) (snapshot_number b)

-- `<`, which Rust derives from `partial_cmp`, which is `cmp`
unfoldable pub snapshot_lt : CombinedSequenceSnapshot → CombinedSequenceSnapshot → Bool
unfolding snapshot_cmp
snapshot_lt a b = ltb (snapshot_number a) (snapshot_number b)

pub record CombinedSequencePair : Type 0 where
  pub ours : CombinedSequence
  pub theirs : Option CombinedSequenceSnapshot

pub record PeerSequenceNumbers : Type 0 where
  pub incoming : ℕ
  pub outgoing : ℕ

-- `(u32::from(rand[0]) << 24) + ... + u32::from(rand[3])`
unfoldable pub sequence_from_bytes : List ℕ → ℕ
sequence_from_bytes (a ∷ b ∷ c ∷ d ∷ rest) = (a * 2 ^ 24 + b * 2 ^ 16 + c * 2 ^ 8 + d) % 2 ^ 32
sequence_from_bytes _ = 0

module _ (so : Sodium) where
  unfoldable pub random : {E : Type 0} → M so.Rng E CombinedSequence
  unfolding sequence_from_bytes
  random = do
    panic_if (not so.init) libsodium_init
    rand ← λ g. let (bytes, g') = so.randombytes 4 g in pure bytes g'
    pure (record { overflow = 0; sequence = sequence_from_bytes rand })

  unfoldable pub new_pair : {E : Type 0} → M so.Rng E CombinedSequencePair
  unfolding random
  new_pair = do ours ← random; pure (record { ours = ours; theirs = none })

-- ===== src/Runs/Formats.antt =====
-- The theorems on numbers, bytes and boxes, at small inputs.
use saltyrtc_client_rs.Prelude.{
  ℕ, ◌+◌, ◌^◌, ◌≡◌, ◌<◌, List, All, refl, some, [], ◌∷◌, ◌++◌, ok, err, arith,
}
use saltyrtc_client_rs.External.{IsByte}
use saltyrtc_client_rs.External.Examples.{big_endian, big_endian-laws, repeat, all_bytes-IsByte}
use saltyrtc_client_rs.Errors.{SignalingError}
use saltyrtc_client_rs.Csn.{
  CombinedSequence, CombinedSequenceSnapshot, combined_sequence_number, increment, snapshot,
}
use saltyrtc_client_rs.Csn.Increment.{IsCsn, IsSnapshot, increment_number, increment_overflow}
use saltyrtc_client_rs.Nonce
use saltyrtc_client_rs.Nonce.{Nonce, from_bytes}
use saltyrtc_client_rs.Nonce.RoundTrip.{IsNonce, from_bytes-into_bytes, into_bytes-from_bytes}

-- The last sequence number before a carry, and the last number of all
abbrev carry : CombinedSequence
carry = record { overflow = 1; sequence = 4294967295 }

abbrev last : CombinedSequence
last = record { overflow = 65535; sequence = 4294967295 }

carry-IsCsn : IsCsn carry
carry-IsCsn = record { overflow_u16 = omega arith; sequence_u32 = omega arith }

last-IsCsn : IsCsn last
last-IsCsn = record { overflow_u16 = omega arith; sequence_u32 = omega arith }

carry-fits : combined_sequence_number carry + 1 < 2 ^ 48
unfolding combined_sequence_number
carry-fits = omega arith

last-full : combined_sequence_number last + 1 ≡ 2 ^ 48
unfolding combined_sequence_number
last-full = refl

increment_number_example :
    (d : CombinedSequence) × (increment carry ≡ ok (snapshot d) d)
    × IsCsn d
    × (combined_sequence_number d ≡ combined_sequence_number carry + 1)
increment_number_example = increment_number carry carry-IsCsn carry-fits

increment_overflow_example : increment last ≡ err SignalingError.csn_overflow last
increment_overflow_example = increment_overflow last last-IsCsn last-full

abbrev low : CombinedSequenceSnapshot
low = record { overflow = 0; sequence = 258 }

low-IsSnapshot : IsSnapshot low
low-IsSnapshot = record { overflow_u16 = omega arith; sequence_u32 = omega arith }

abbrev nonce : Nonce
nonce = record { cookie = repeat 16 9; source = 2; destination = 1; csn = low }

bytes-IsByte : All IsByte (repeat 16 9)
bytes-IsByte = all_bytes-IsByte (repeat 16 9) refl

nonce-IsNonce : IsNonce nonce
nonce-IsNonce = record {
  cookie_length = refl;
  cookie_bytes = bytes-IsByte;
  source_u8 = omega arith;
  destination_u8 = omega arith;
  csn = low-IsSnapshot;
}

from_bytes-into_bytes_example :
    from_bytes big_endian (Nonce.into_bytes big_endian nonce) ≡ some nonce
from_bytes-into_bytes_example = from_bytes-into_bytes big_endian big_endian-laws nonce nonce-IsNonce

abbrev bytes : List ℕ
bytes = repeat 16 9 ++ (2 ∷ 1 ∷ 0 ∷ 0 ∷ 0 ∷ 0 ∷ 1 ∷ 2 ∷ [])

nonce_bytes-IsByte : All IsByte bytes
nonce_bytes-IsByte = all_bytes-IsByte bytes refl

nonce-read : from_bytes big_endian bytes ≡ some nonce
unfolding from_bytes
nonce-read = refl

into_bytes-from_bytes_example : (Nonce.into_bytes big_endian nonce ≡ bytes) × IsNonce nonce
into_bytes-from_bytes_example =
    into_bytes-from_bytes big_endian big_endian-laws bytes nonce nonce_bytes-IsByte nonce-read

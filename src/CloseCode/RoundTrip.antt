-- ===== src/CloseCode/RoundTrip.antt =====
-- Close codes and numbers, there and back.
use saltyrtc_client_rs.Prelude.{ℕ, ◌≡◌, arith}
use saltyrtc_client_rs.CloseCode.{as_number, from_number}

-- A number read as a close code, and written again, is the same number.
pub as_number-from_number : (code : ℕ) → as_number (from_number code) ≡ code
unfolding as_number from_number
as_number-from_number code = ground arith

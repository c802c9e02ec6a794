-- ===== src/Runs/Nonces.antt =====
-- The theorems on `validate_nonce`, at the nonces of the run.
use saltyrtc_client_rs.Prelude.{◌≡◌, ◌≢◌, ◌<◌, ◌↔◌, refl, true, some, ok, arith}
use saltyrtc_client_rs.External.Examples.{toy, repeat}
use saltyrtc_client_rs.Types.{ClientIdentity}
use saltyrtc_client_rs.Csn.{CombinedSequencePair, snapshot_number}
use saltyrtc_client_rs.Csn.Increment.{IsSnapshot}
use saltyrtc_client_rs.Cookie.{CookiePair}
use saltyrtc_client_rs.Signaling.{InitiatorSignaling, Signaling}
use saltyrtc_client_rs.Signaling.Validate.{
  validate_nonce, validate_nonce_destination, validate_nonce_source, validate_nonce_csn,
  validate_nonce_cookie, accept_csn, accept_cookie,
}
use saltyrtc_client_rs.Signaling.Validate.Replay.{
  stored_csn, IsNewer, IsKnown, accept_csn_iff, validate_nonce-newer, validate_nonce-replayed,
}
use saltyrtc_client_rs.Signaling.Validate.Cookies.{stored_cookies, validate_nonce-cookie}
use saltyrtc_client_rs.Signaling.Handle.Ignored.{hears, validate_nonce-hears}
use saltyrtc_client_rs.Runs.{hello, greeted, listing}

-- The state once the nonce of `listing` is accepted
abbrev pub assigned : InitiatorSignaling toy
assigned = record greeted {
  common = record (greeted.common) {
    identity = ClientIdentity.initiator;
    server = record (greeted.common.server) {
      csn_pair = record (greeted.common.server.csn_pair) {
        theirs = some (record { overflow = 0; sequence = 6 });
      };
    };
  };
}

listing-accepted :
    validate_nonce listing.nonce (Signaling.initiator greeted)
    ≡ ok tt (Signaling.initiator assigned)
unfolding validate_nonce validate_nonce_destination validate_nonce_source validate_nonce_csn
    validate_nonce_cookie accept_csn accept_cookie
listing-accepted = refl

five-IsSnapshot : IsSnapshot hello.nonce.csn
five-IsSnapshot = record { overflow_u16 = omega arith; sequence_u32 = omega arith }

six-IsSnapshot : IsSnapshot listing.nonce.csn
six-IsSnapshot = record { overflow_u16 = omega arith; sequence_u32 = omega arith }

five-stored : stored_csn listing.nonce.source (Signaling.initiator greeted) ≡ some hello.nonce.csn
unfolding stored_csn
five-stored = refl

abbrev known_cookies : CookiePair
known_cookies = record { ours = repeat 16 3; theirs = some (repeat 16 200) }

cookies-stored :
    stored_cookies listing.nonce.source (Signaling.initiator greeted) ≡ some known_cookies
unfolding stored_cookies
cookies-stored = refl

validate_nonce-replayed_example :
    validate_nonce listing.nonce (Signaling.initiator assigned)
    ≢ ok tt (Signaling.initiator assigned)
validate_nonce-replayed_example =
    validate_nonce-replayed listing.nonce listing.nonce (Signaling.initiator greeted)
      (Signaling.initiator assigned) (Signaling.initiator assigned) listing-accepted refl
      six-IsSnapshot six-IsSnapshot (omega arith)

validate_nonce-newer_example : snapshot_number hello.nonce.csn < snapshot_number listing.nonce.csn
validate_nonce-newer_example =
    validate_nonce-newer listing.nonce (Signaling.initiator greeted) (Signaling.initiator assigned)
      hello.nonce.csn listing-accepted five-stored five-IsSnapshot six-IsSnapshot

validate_nonce-cookie_example :
    IsKnown listing.nonce.cookie known_cookies
    × (stored_cookies listing.nonce.source (Signaling.initiator assigned)
        ≡ some (record known_cookies { theirs = some listing.nonce.cookie }))
validate_nonce-cookie_example =
    validate_nonce-cookie listing.nonce (Signaling.initiator greeted) (Signaling.initiator assigned)
      known_cookies listing-accepted cookies-stored

validate_nonce-hears_example : hears (Signaling.initiator assigned) listing.nonce ≡ true
validate_nonce-hears_example =
    validate_nonce-hears listing.nonce (Signaling.initiator greeted) (Signaling.initiator assigned)
      listing-accepted

abbrev numbers : CombinedSequencePair
numbers = greeted.common.server.csn_pair

accept_csn_iff_example :
    (accept_csn listing.nonce.csn numbers
      ≡ some (record numbers { theirs = some listing.nonce.csn }))
    ↔ (IsNewer numbers.theirs listing.nonce.csn
        × (record numbers { theirs = some listing.nonce.csn }
            ≡ record numbers { theirs = some listing.nonce.csn }))
accept_csn_iff_example =
    accept_csn_iff listing.nonce.csn numbers (record numbers { theirs = some listing.nonce.csn })
      six-IsSnapshot five-IsSnapshot

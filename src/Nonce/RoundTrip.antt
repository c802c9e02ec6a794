-- ===== src/Nonce/RoundTrip.antt =====
-- Writing the 24 bytes of a nonce, and reading them.
use saltyrtc_client_rs.Prelude.{
  ℕ, ◌+◌, ◌*◌, ◌<◌, ◌≡◌, refl, some, List, [], ◌∷◌, ◌++◌, length, arith, take, drop, All,
  length-append, take-append_left, drop-append_add, sym, subst, ◌∙◌, take-append-drop, length-take,
  length-drop, All-take, All-drop,
}
use mathlib.Core.Path.{ap₂}
use mathlib.Core.Option.{some-injective}
use saltyrtc_client_rs.External.{ByteOrder, BigEndianLaws, IsByte}
use saltyrtc_client_rs.Csn.Increment.{IsSnapshot}
use saltyrtc_client_rs.Nonce.{Nonce, from_bytes, into_bytes}

-- The fields fit their machine types, and the cookie its array.
pub record IsNonce (n : Nonce) : Type 0 where
  pub cookie_length : length n.cookie ≡ 16
  pub cookie_bytes : All IsByte n.cookie
  pub source_u8 : n.source < 256
  pub destination_u8 : n.destination < 256
  pub csn : IsSnapshot n.csn

module _ (bo : ByteOrder) (be : BigEndianLaws bo) where
  pub length-into_bytes : (n : Nonce) → IsNonce n → length (into_bytes bo n) ≡ 24
  unfolding into_bytes
  length-into_bytes n v =
      rw
        (
          be.write_u16_bytes n.csn.overflow v.csn.overflow_u16,
          be.write_u32_bytes n.csn.sequence v.csn.sequence_u32,
          length-append,
        )
        (omega (arith, v.cookie_length))

  -- What `from_bytes` reads from a 16-byte cookie and the eight bytes after it.
  from_bytes_parts :
      (c : List ℕ) (s d o1 o0 s3 s2 s1 s0 : ℕ)
      → length c ≡ 16
      → from_bytes bo (c ++ (s ∷ d ∷ o1 ∷ o0 ∷ s3 ∷ s2 ∷ s1 ∷ s0 ∷ []))
        ≡ some (record {
          cookie = c;
          source = s;
          destination = d;
          csn = record {
            overflow = o1 * 256 + o0;
            sequence = ((s3 * 256 + s2) * 256 + s1) * 256 + s0;
          };
        })
  unfolding from_bytes
  from_bytes_parts c s d o1 o0 s3 s2 s1 s0 h =
      let t : List ℕ = s ∷ d ∷ o1 ∷ o0 ∷ s3 ∷ s2 ∷ s1 ∷ s0 ∷ [] in
      rw (
        length-append c t,
        h,
        take-append_left 16 c t h,
        drop-append_add 16 0 16 c t h refl,
        drop-append_add 16 1 17 c t h refl,
        drop-append_add 16 2 18 c t h refl,
        drop-append_add 16 4 20 c t h refl,
        be.read_u16_bytes o1 o0,
        be.read_u32_bytes s3 s2 s1 s0,
      )

  -- A nonce whose cookie has 16 bytes and whose numbers fit their machine types is read back from the
  -- bytes that it writes, if byteorder is big-endian.
  pub from_bytes-into_bytes : (n : Nonce) → IsNonce n → from_bytes bo (into_bytes bo n) ≡ some n
  unfolding into_bytes
  from_bytes-into_bytes n v =
      rw
        (
          be.write_u16_bytes n.csn.overflow v.csn.overflow_u16,
          be.write_u32_bytes n.csn.sequence v.csn.sequence_u32,
          from_bytes_parts n.cookie n.source n.destination _ _ _ _ _ _ v.cookie_length,
        )
        (ground arith)

  pub length-of_from_bytes :
      (bytes : List ℕ) (n : Nonce) → from_bytes bo bytes ≡ some n → length bytes ≡ 24
  unfolding from_bytes
  length-of_from_bytes bytes n h = ground arith

  -- `write` after `read` gives the bytes back.
  pub write_u16-read : (a b : ℕ) → a < 256 → b < 256 → bo.write_u16 (a * 256 + b) ≡ a ∷ b ∷ []
  write_u16-read a b ha hb =
      rw (be.write_u16_bytes (a * 256 + b) (omega arith))
        (ap₂ (λ x y. x ∷ y ∷ []) (omega arith) (omega arith))

  pub write_u32-read :
      (a b c d : ℕ)
      → a < 256
      → b < 256
      → c < 256
      → d < 256
      → bo.write_u32 (((a * 256 + b) * 256 + c) * 256 + d) ≡ a ∷ b ∷ c ∷ d ∷ []
  write_u32-read a b c d ha hb hc hd =
      be.write_u32_bytes (((a * 256 + b) * 256 + c) * 256 + d) (omega arith)
      ∙ ap₂ (λ x rest. x ∷ rest) (omega arith)
          (ap₂ (λ x rest. x ∷ rest) (omega arith)
            (ap₂ (λ x y. x ∷ y ∷ []) (omega arith) (omega arith)))

  into_bytes_parts :
      (bytes c t : List ℕ) (n : Nonce)
      → bytes ≡ c ++ t
      → length c ≡ 16
      → length t ≡ 8
      → All IsByte c
      → All IsByte t
      → from_bytes bo bytes ≡ some n
      → (into_bytes bo n ≡ bytes) × IsNonce n
  unfolding into_bytes
  into_bytes_parts bytes c (s ∷ d ∷ o1 ∷ o0 ∷ s3 ∷ s2 ∷ s1 ∷ s0 ∷ []) n e hc ht bc bt h =
      subst (λ m. (into_bytes bo m ≡ bytes) × IsNonce m)
        (some-injective _ _ (sym (from_bytes_parts c s d o1 o0 s3 s2 s1 s0 hc) ∙ rw e at h))
        (
          rw
              (
                write_u16-read o1 o0 (omega arith) (omega arith),
                write_u32-read s3 s2 s1 s0 (omega arith) (omega arith) (omega arith) (omega arith),
                e,
              )
              refl,
          record {
            cookie_length = hc;
            cookie_bytes = bc;
            source_u8 = omega arith;
            destination_u8 = omega arith;
            csn = omega arith;
          },
        )
  into_bytes_parts bytes c _ n e hc ht bc bt h = absurd (omega arith)

  -- If bytes below 256 are read as a nonce, then these are the bytes that the nonce writes, and its
  -- fields fit their types; byteorder has to be big-endian.
  pub into_bytes-from_bytes :
      (bytes : List ℕ) (n : Nonce)
      → All IsByte bytes
      → from_bytes bo bytes ≡ some n
      → (into_bytes bo n ≡ bytes) × IsNonce n
  into_bytes-from_bytes bytes n b h =
      into_bytes_parts bytes (take 16 bytes) (drop 16 bytes) n (sym (take-append-drop 16 bytes))
        (length-take 16 bytes (omega (arith, length-of_from_bytes bytes n h)))
        (omega (arith, length-drop 16 bytes, length-of_from_bytes bytes n h))
        (All-take IsByte 16 bytes b) (All-drop IsByte 16 bytes b) h

-- ===== src/External.antt =====
-- The packages that the client calls and whose code is not in the repository. Each is a record of
-- operations that the model takes as a parameter, and a second record of the documented laws that
-- a theorem may take as a hypothesis.
pub mod Examples
use saltyrtc_client_rs.Prelude.{
  ℕ, ◌+◌, ◌*◌, ◌/◌, ◌%◌, ◌<◌, ◌^◌, ◌≡◌, Bool, true, Option, none, some, List, [], ◌∷◌, String, All,
  length,
}

-- A byte is below 256.
abbrev pub IsByte : ℕ → Type 0
IsByte b = b < 256

-- The crate `byteorder`: `BigEndian`. A write gives the bytes that it stores.
pub record ByteOrder : Type 0 where
  pub read_u16 : List ℕ → ℕ
  pub read_u32 : List ℕ → ℕ
  pub write_u16 : ℕ → List ℕ
  pub write_u32 : ℕ → List ℕ

-- The most significant byte comes first.
pub record BigEndianLaws (bo : ByteOrder) : Type 0 where
  pub read_u16_bytes : (a b : ℕ) → bo.read_u16 (a ∷ b ∷ []) ≡ a * 256 + b
  pub read_u32_bytes :
      (a b c d : ℕ) → bo.read_u32 (a ∷ b ∷ c ∷ d ∷ []) ≡ ((a * 256 + b) * 256 + c) * 256 + d
  pub write_u16_bytes : (n : ℕ) → n < 2 ^ 16 → bo.write_u16 n ≡ n / 256 ∷ n % 256 ∷ []
  pub write_u32_bytes :
      (n : ℕ)
      → n < 2 ^ 32
      → bo.write_u32 n ≡ n / 2 ^ 24 ∷ n / 2 ^ 16 % 256 ∷ n / 2 ^ 8 % 256 ∷ n % 256 ∷ []

-- A key is its bytes, and so is a nonce of libsodium.
abbrev pub PublicKey : Type 0
PublicKey = List ℕ

abbrev pub PrivateKey : Type 0
PrivateKey = List ℕ

abbrev pub SecretKey : Type 0
SecretKey = List ℕ

-- The crate `rust_sodium`. `Rng` is the state of its generator, which each random value advances;
-- `init` says whether the library could be initialised.
pub record Sodium : Type 1 where
  pub Rng : Type 0
  pub init : Bool
  pub randombytes : ℕ → Rng → List ℕ × Rng
  pub gen_keypair : Rng → (PublicKey × PrivateKey) × Rng
  pub gen_key : Rng → SecretKey × Rng
  pub scalarmult_base : PrivateKey → PublicKey
  pub box_seal : List ℕ → List ℕ → PublicKey → PrivateKey → List ℕ
  pub box_open : List ℕ → List ℕ → PublicKey → PrivateKey → Option (List ℕ)
  pub secretbox_seal : List ℕ → List ℕ → SecretKey → List ℕ
  pub secretbox_open : List ℕ → List ℕ → SecretKey → Option (List ℕ)

pub record SodiumLaws (so : Sodium) : Type 0 where
  -- `randombytes(n)` gives `n` bytes.
  pub length-randombytes : (n : ℕ) (g : so.Rng) → length (so.randombytes n g).0 ≡ n
  pub randombytes-IsByte : (n : ℕ) (g : so.Rng) → All IsByte (so.randombytes n g).0
  -- What was sealed from one key pair to another is opened by the other.
  pub box_open-box_seal :
      (data' nonce : List ℕ) (a b : PrivateKey)
      → so.box_open
          (so.box_seal data' nonce (so.scalarmult_base b) a)
          nonce
          (so.scalarmult_base a)
          b
        ≡ some data'
  pub secretbox_open-secretbox_seal :
      (data' nonce : List ℕ) (k : SecretKey)
      → so.secretbox_open (so.secretbox_seal data' nonce k) nonce k ≡ some data'

-- The crate `rmpv`: a dynamically typed msgpack value, the two constructors that the client calls
-- (`Value::Map` and `Value::String`) and the views that it takes.
pub record Rmpv : Type 1 where
  pub Value : Type 0
  pub from_map : List (Value × Value) → Value
  pub from_str : String → Value
  pub as_map : Value → Option (List (Value × Value))
  pub as_str : Value → Option String
  -- The bytes of a `Value::String` as a text; the inner `none` is for bytes that are not UTF-8.
  pub as_string : Value → Option (Option String)
  pub as_u64 : Value → Option ℕ

pub record RmpvLaws (rmpv : Rmpv) : Type 0 where
  pub as_map-from_map :
      (pairs : List (rmpv.Value × rmpv.Value)) → rmpv.as_map (rmpv.from_map pairs) ≡ some pairs
  pub as_str-from_str : (text : String) → rmpv.as_str (rmpv.from_str text) ≡ some text
  pub as_string-from_str : (text : String) → rmpv.as_string (rmpv.from_str text) ≡ some (some text)

-- The crate `data_encoding`: `HEXLOWER.encode` and `HEXLOWER_PERMISSIVE.decode`, whose `none` is the
-- error for a text that is no hex string.
pub record Hex : Type 0 where
  pub encode : List ℕ → String
  pub decode : String → Option (List ℕ)

pub record HexLaws (hex : Hex) : Type 0 where
  pub decode-encode :
      (bytes : List ℕ) → All IsByte bytes → hex.decode (hex.encode bytes) ≡ some bytes

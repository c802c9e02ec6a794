-- ===== src/External/Examples.antt =====
-- Packages that satisfy the laws, for concrete runs: sealing prepends a tag of 16 bytes and does not
-- hide anything, public keys are private keys, and random bytes count up.
use saltyrtc_client_rs.Prelude.{
  string_has_eq, nat_eq, ltb, ◌&&◌, ℕ, ◌+◌, ◌*◌, ◌/◌, ◌%◌, ◌<◌, ◌^◌, ◌≡◌, Bool, true, Option, none,
  some, List, [], ◌∷◌, ◌++◌, String, All, length, drop, take, zero, suc, refl, ap, arith, leb,
  if◌then◌else◌,
}
use saltyrtc_client_rs.External.{
  ByteOrder, BigEndianLaws, Sodium, SodiumLaws, Rmpv, RmpvLaws, IsByte,
}
use saltyrtc_client_rs.Messages.{Message}
use saltyrtc_client_rs.Prelude.Dict.Collect.{lookup-collect_all}
use saltyrtc_client_rs.Deps.{EntryOrderLaws, Deps, Msgpack, Task, IterOrderLaws}

abbrev pub big_endian : ByteOrder
big_endian = record {
  read_u16 = λ bs. first_two bs;
  read_u32 = λ bs. first_four bs;
  write_u16 = λ n. n / 256 ∷ n % 256 ∷ [];
  write_u32 = λ n. n / 2 ^ 24 ∷ n / 2 ^ 16 % 256 ∷ n / 2 ^ 8 % 256 ∷ n % 256 ∷ [];
}
  where
    first_two : List ℕ → ℕ
    first_two (a ∷ b ∷ bs) = a * 256 + b
    first_two _ = 0

    first_four : List ℕ → ℕ
    first_four (a ∷ b ∷ c ∷ d ∷ bs) = ((a * 256 + b) * 256 + c) * 256 + d
    first_four _ = 0

pub big_endian-laws : BigEndianLaws big_endian
big_endian-laws = record {
  read_u16_bytes = λ a b. refl;
  read_u32_bytes = λ a b c d. refl;
  write_u16_bytes = λ n h. refl;
  write_u32_bytes = λ n h. refl;
}

abbrev pub repeat : ℕ → ℕ → List ℕ
repeat zero b = []
repeat (suc n) b = b ∷ repeat n b

length-repeat : (n b : ℕ) → length (repeat n b) ≡ n
length-repeat zero b = refl
length-repeat (suc n) b = omega (arith, length-repeat n b)

repeat-IsByte : (n b : ℕ) → b < 256 → All IsByte (repeat n b)
repeat-IsByte zero b h = tt
repeat-IsByte (suc n) b h = (h, repeat-IsByte n b h)

-- A tag of 16 bytes before the data
abbrev sealed : List ℕ → List ℕ
sealed bytes = repeat 16 0 ++ bytes

abbrev opened : List ℕ → Option (List ℕ)
opened bytes = if leb 16 (length bytes) then some (drop 16 bytes) else none

abbrev pub toy_sodium : Sodium
toy_sodium = record {
  Rng = ℕ;
  init = true;
  randombytes = λ n g. (repeat n (g % 255 + 1), g + 1);
  gen_keypair = λ g. ((repeat 32 (g % 255 + 1), repeat 32 (g % 255 + 1)), g + 1);
  gen_key = λ g. (repeat 32 (g % 255 + 1), g + 1);
  scalarmult_base = λ sk. sk;
  box_seal = λ bytes nonce pk sk. sealed bytes;
  box_open = λ bytes nonce pk sk. opened bytes;
  secretbox_seal = λ bytes nonce k. sealed bytes;
  secretbox_open = λ bytes nonce k. opened bytes;
}

opened-sealed : (bytes : List ℕ) → opened (sealed bytes) ≡ some bytes
opened-sealed bytes = ground arith

pub toy_sodium-laws : SodiumLaws toy_sodium
toy_sodium-laws = record {
  length-randombytes = λ n g. length-repeat n (g % 255 + 1);
  randombytes-IsByte = λ n g. repeat-IsByte n (g % 255 + 1) (omega arith);
  box_open-box_seal = λ bytes nonce a b. opened-sealed bytes;
  secretbox_open-secretbox_seal = λ bytes nonce k. opened-sealed bytes;
}

-- A value is a number, a text or a map.
mutual
  pub data ToyValue : Type 0 where
    number : ℕ → ToyValue
    text : String → ToyValue
    dict : ToyPairs → ToyValue

  pub data ToyPairs : Type 0 where
    end : ToyPairs
    pair : ToyValue → ToyValue → ToyPairs → ToyPairs

abbrev from_pairs : List (ToyValue × ToyValue) → ToyPairs
from_pairs [] = ToyPairs.end
from_pairs ((k, v) ∷ ps) = ToyPairs.pair k v (from_pairs ps)

abbrev to_pairs : ToyPairs → List (ToyValue × ToyValue)
to_pairs ToyPairs.end = []
to_pairs (ToyPairs.pair k v ps) = (k, v) ∷ to_pairs ps

to_pairs-from_pairs : (ps : List (ToyValue × ToyValue)) → to_pairs (from_pairs ps) ≡ ps
to_pairs-from_pairs [] = refl
to_pairs-from_pairs ((k, v) ∷ ps) = rw (to_pairs-from_pairs ps)

abbrev toy_as_map : ToyValue → Option (List (ToyValue × ToyValue))
toy_as_map (ToyValue.dict ps) = some (to_pairs ps)
toy_as_map _ = none

abbrev toy_as_str : ToyValue → Option String
toy_as_str (ToyValue.text t) = some t
toy_as_str _ = none

abbrev toy_as_string : ToyValue → Option (Option String)
toy_as_string (ToyValue.text t) = some (some t)
toy_as_string _ = none

abbrev toy_as_u64 : ToyValue → Option ℕ
toy_as_u64 (ToyValue.number n) = some n
toy_as_u64 _ = none

abbrev pub toy_rmpv : Rmpv
toy_rmpv = record {
  Value = ToyValue;
  from_map = λ ps. ToyValue.dict (from_pairs ps);
  from_str = ToyValue.text;
  as_map = toy_as_map;
  as_str = toy_as_str;
  as_string = toy_as_string;
  as_u64 = toy_as_u64;
}

pub toy_rmpv-laws : RmpvLaws toy_rmpv
toy_rmpv-laws = record {
  as_map-from_map = λ ps. ap some (to_pairs-from_pairs ps);
  as_str-from_str = λ t. refl;
  as_string-from_str = λ t. refl;
}

-- The first byte is the kind of message. Of the other messages nothing is read back.
abbrev pub write_message : Message ToyValue → List ℕ
write_message (Message.server_hello m) = 1 ∷ m.key
write_message (Message.token m) = 2 ∷ m.key
write_message (Message.key m) = 3 ∷ m.key
write_message (Message.drop_responder m) = 4 ∷ m.id ∷ []
write_message _ = []

abbrev pub read_message : List ℕ → Option (Message ToyValue)
read_message [] = none
read_message (kind ∷ bytes) =
    if nat_eq kind 1
    then some (Message.server_hello (record { key = bytes }))
    else if nat_eq kind 2
    then some (Message.token (record { key = bytes }))
    else if nat_eq kind 3
    then some (Message.key (record { key = bytes }))
    else if nat_eq kind 4
    then some (Message.drop_responder (record { id = 2; reason = none }))
    else if nat_eq kind 5
    then some (
        Message.server_auth (record {
          your_cookie = take 16 bytes;
          signed_keys = none;
          responders = some (drop 16 bytes);
          initiator_connected = none;
        }))
    else if nat_eq kind 6
    then some (
        Message.auth (record {
          your_cookie = take 16 bytes;
          tasks = none;
          task = some "chat";
          entries = ("chat", none) ∷ [];
        }))
    else none

-- A number, an application message with a number, or the text message "hi" of a chat
abbrev write_value : ToyValue → List ℕ
write_value (ToyValue.number n) = n ∷ []
write_value (ToyValue.dict (ToyPairs.pair _ _ (ToyPairs.pair _ (ToyValue.number n) _))) = 9 ∷ n ∷ []
write_value (ToyValue.dict (ToyPairs.pair _ _ (ToyPairs.pair _ (ToyValue.text t) _))) =
    7 ∷ 7 ∷ 7 ∷ []
write_value _ = []

abbrev read_value : List ℕ → Option ToyValue
read_value (n ∷ []) = some (ToyValue.number n)
read_value (_ ∷ n ∷ []) = some (
    ToyValue.dict (
      ToyPairs.pair (ToyValue.text "type") (ToyValue.text "application")
        (ToyPairs.pair (ToyValue.text "data") (ToyValue.number n) ToyPairs.end)))
read_value (_ ∷ _ ∷ _ ∷ []) = some (
    ToyValue.dict (
      ToyPairs.pair (ToyValue.text "type") (ToyValue.text "msg")
        (ToyPairs.pair (ToyValue.text "text") (ToyValue.text "hi") ToyPairs.end)))
read_value _ = none

abbrev pub toy_msgpack : Msgpack ToyValue
toy_msgpack = record {
  to_msgpack = write_message;
  from_msgpack = read_message;
  value_to_msgpack = write_value;
  value_from_msgpack = read_value;
}

-- A task is its name.
abbrev pub toy_task : Task ToyValue
toy_task = record {
  BoxedTask = String;
  name = λ t. t;
  task_data = λ t. none;
  supported_types = λ t. t ∷ [];
  init = λ t entry. some t;
}

abbrev pub toy : Deps
toy = record {
  sodium = toy_sodium;
  byte_order = big_endian;
  rmpv = toy_rmpv;
  msgpack = toy_msgpack;
  task = toy_task;
  iter_order = λ as'. as';
  entry_order = λ d. d;
  close_text = λ code. "";
}

pub toy-laws : IterOrderLaws toy
toy-laws = record { elem-iter_order = λ a as'. refl; length-iter_order = λ as'. refl }

-- A test for lists of bytes
abbrev pub all_bytes : List ℕ → Bool
all_bytes [] = true
all_bytes (b ∷ bs) = ltb b 256 && all_bytes bs

pub all_bytes-IsByte : (bs : List ℕ) → all_bytes bs ≡ true → All IsByte bs
all_bytes-IsByte [] h = tt
all_bytes-IsByte (b ∷ bs) h = (ground arith, all_bytes-IsByte bs (ground arith))

pub toy_entry-laws : EntryOrderLaws toy
toy_entry-laws = record { lookup-collect = lookup-collect_all }

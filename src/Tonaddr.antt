-- ===== src/Tonaddr.antt =====
-- internal/tonaddr/tonaddr.go: TON addresses, raw and user-friendly.
pub mod Crc
pub mod RoundTrip
pub mod Sound
pub mod Network
pub mod Typos
pub mod Plain
pub mod Tests
use Prim.Native.Nat.{bit_and, bit_or}
use tonpayment.Base.{
  ℕ, zero, suc, ◌+◌, ◌*◌, ◌/◌, ◌%◌, ◌^◌, Bool, true, false, not, ◌&&◌, Option, none, some, List, [],
  ◌∷◌, ◌++◌, ◌==◌, if◌then◌else◌, length, take, drop, ◌≡◌, refl,
}
use tonpayment.Base.Int.{ℤ, pos, negsuc}
use tonpayment.Base.Text.{Text, codes, is_empty}
use tonpayment.Golib.Strings.{trim_space, cut_at, contains_byte}
use tonpayment.Golib.Strconv.{parse_int, format_int}
use tonpayment.Golib.Hex
use tonpayment.Golib.Base64
use tonpayment.Golib.Base64.{url_encoding, std_encoding}
use Crc.{crc16}

pub record Address : Type 0 where
  pub workchain : ℤ
  pub hash : List ℕ
  pub bounceable : Bool
  pub testnet : Bool

pub data AddressError : Type 0 where
  empty_address invalid_workchain unsupported_workchain bad_hash_length bad_hex : AddressError
  not_base64 bad_length bad_tag bad_workchain_byte checksum_mismatch wrong_network : AddressError

pub data Checked (A : Type 0) : Type 0 where
  valid : A → Checked A
  invalid : AddressError → Checked A

abbrev pub tag_bounceable : ℕ
tag_bounceable = 0x11

abbrev pub tag_non_bounceable : ℕ
tag_non_bounceable = 0x51

abbrev pub tag_testnet : ℕ
tag_testnet = 0x80

-- A raw address carries no flag.
raw_address : ℤ → Text → Checked Address
raw_address wc hex_str =
    if length hex_str == 64
    then elim (Hex.decode hex_str) [
      | none ↦ invalid bad_hex
      | some h ↦ valid (record { workchain = wc; hash = h; bounceable = true; testnet = false })
    ]
    else invalid bad_hash_length

workchain_then : Option ℤ → Text → Checked Address
unfolding raw_address
workchain_then none hex_str = invalid invalid_workchain
workchain_then (some (pos zero)) hex_str = raw_address (pos 0) hex_str
workchain_then (some (pos (suc n))) hex_str = invalid unsupported_workchain
workchain_then (some (negsuc zero)) hex_str = raw_address (negsuc 0) hex_str
workchain_then (some (negsuc (suc n))) hex_str = invalid unsupported_workchain

parse_raw : Text → Text → Checked Address
unfolding workchain_then
parse_raw wc_str hex_str = workchain_then (parse_int 32 wc_str) hex_str

-- `uint16(raw[34])<<8 | uint16(raw[35])`, of the bytes behind the hash.
pub stated_checksum : List ℕ → ℕ
stated_checksum (hi ∷ lo ∷ rest) = bit_or (hi * 2 ^ 8 % 2 ^ 16) lo
stated_checksum _ = 0

read_bounceable : ℕ → Checked Bool
read_bounceable tag =
    if bit_and tag 0x7f == tag_bounceable
    then valid true
    else if bit_and tag 0x7f == tag_non_bounceable
    then valid false
    else invalid bad_tag

read_workchain : ℕ → Checked ℤ
read_workchain b =
    if b == 0x00
    then valid (pos 0)
    else if b == 0xff
    then valid (negsuc 0)
    else invalid bad_workchain_byte

is_testnet_tag : ℕ → Bool
is_testnet_tag tag = not (bit_and tag tag_testnet == 0)

infixl 5 ◌>>=◌
abbrev pub ◌>>=◌ : {A B : Type 0} → Checked A → (A → Checked B) → Checked B
valid a >>= f = f a
invalid e >>= f = invalid e

-- The 36 bytes: tag, workchain, hash, checksum.
pub parse_fields : ℕ → ℕ → List ℕ → Checked Address
unfolding read_bounceable read_workchain stated_checksum is_testnet_tag
parse_fields tag wc rest = do
  bounceable ← read_bounceable tag
  workchain ← read_workchain wc
  if crc16 (tag ∷ wc ∷ take 32 rest) == stated_checksum (drop 32 rest)
      then valid (record {
        workchain = workchain;
        hash = take 32 rest;
        bounceable = bounceable;
        testnet = is_testnet_tag tag;
      })
      else invalid checksum_mismatch

pub parse_bytes : List ℕ → Checked Address
unfolding parse_fields
parse_bytes (tag ∷ wc ∷ rest) =
    if length (tag ∷ wc ∷ rest) == 36 then parse_fields tag wc rest else invalid bad_length
parse_bytes _ = invalid bad_length

decoded_bytes : Option (List ℕ) → Checked Address
unfolding parse_bytes
decoded_bytes none = invalid not_base64
decoded_bytes (some raw) = parse_bytes raw

-- The url-safe alphabet is tried first, then the standard one.
or_else : Option (List ℕ) → Option (List ℕ) → Option (List ℕ)
or_else none r = r
or_else (some raw) r = some raw

pub parse_friendly : Text → Checked Address
unfolding decoded_bytes or_else
parse_friendly s =
    decoded_bytes (or_else (Base64.decode url_encoding s) (Base64.decode std_encoding s))

pub parse_trimmed : Text → Checked Address
unfolding parse_friendly parse_raw
parse_trimmed s = if is_empty s then invalid empty_address else elim (cut_at b':' s) [
  | some (wc_str, hex_str) ↦ parse_raw wc_str hex_str
  | none ↦ parse_friendly s
]

pub parse : Text → Checked Address
unfolding parse_trimmed
parse s = parse_trimmed (trim_space s)

-- `switch` on the flags: the tag byte.
tag_byte : Bool → Bool → ℕ
tag_byte bounceable testnet =
    let tag = if bounceable then tag_bounceable else tag_non_bounceable in
    if testnet then bit_or tag tag_testnet else tag

workchain_byte : ℤ → ℕ
workchain_byte (pos n) = 0
workchain_byte (negsuc zero) = 0xff
workchain_byte (negsuc (suc n)) = 0

-- `buf[:34]`
pub payload : Address → Bool → List ℕ
unfolding tag_byte workchain_byte
payload a bounceable = tag_byte bounceable a.testnet ∷ workchain_byte a.workchain ∷ a.hash

-- `buf`: the payload and the two bytes of its checksum.
pub friendly_bytes : Address → Bool → List ℕ
unfolding payload
friendly_bytes a bounceable =
    let body = payload a bounceable in
    let crc = crc16 body in body ++ crc / 2 ^ 8 ∷ crc % 2 ^ 8 ∷ []

pub friendly : Address → Bool → Text
unfolding friendly_bytes
friendly a bounceable = Base64.encode url_encoding (friendly_bytes a bounceable)

-- `Address.String`
pub to_text : Address → Text
unfolding friendly
to_text a = friendly a a.bounceable

pub raw : Address → Text
raw a = format_int a.workchain ++ b':' ∷ Hex.encode a.hash

pub is_valid : Text → Bool
is_valid s = elim (parse s) [ valid _ ↦ true | invalid _ ↦ false ]

pub normalize : Text → Checked Text
normalize s = do a ← parse s; valid (to_text a)

same_bool : Bool → Bool → Bool
same_bool true b = b
same_bool false b = not b

-- `!strings.Contains(s, ":") && a.Testnet != wantTestnet`
pub normalize_on_network : Text → Bool → Checked Text
unfolding same_bool
normalize_on_network s want_testnet = do
  a ← parse s
  if not (contains_byte b':' s) && not (same_bool a.testnet want_testnet)
      then invalid wrong_network
      else valid (to_text a)

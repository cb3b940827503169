-- ===== src/Golib/Hex.antt =====
-- `hex.EncodeToString` and `hex.DecodeString`.
use tonpayment.Base.{
  ℕ, ◌+◌, ◌-◌, ◌*◌, ◌/◌, ◌%◌, ◌<◌, ◌≤◌, ◌&&◌, Option, none, some, List, [], ◌∷◌, ltb, leb,
  if◌then◌else◌, ◌≡◌, refl, arith, All, length, suc, subst,
}
use tonpayment.Base.Text.{Text}

unfoldable pub hex_digit : ℕ → ℕ
hex_digit n = if ltb n 10 then n + b'0' else n - 10 + b'a'

-- Both cases of the letters are read.
unfoldable pub hex_value : ℕ → Option ℕ
hex_value c =
    if leb b'0' c && leb c b'9'
    then some (c - b'0')
    else if leb b'a' c && leb c b'f'
    then some (c - b'a' + 10)
    else if leb b'A' c && leb c b'F'
    then some (c - b'A' + 10)
    else none

unfoldable pub encode : List ℕ → Text
unfolding hex_digit
encode [] = []
encode (b ∷ bs) = hex_digit (b / 16) ∷ hex_digit (b % 16) ∷ encode bs

byte_of : Option ℕ → Option ℕ → Option (List ℕ) → Option (List ℕ)
byte_of (some hi) (some lo) (some bs) = some ((hi * 16 + lo) ∷ bs)
byte_of _ _ _ = none

-- An odd number of digits is an error.
unfoldable pub decode : Text → Option (List ℕ)
unfolding byte_of hex_value
decode [] = some []
decode (c ∷ []) = none
decode (c ∷ d ∷ s) = byte_of (hex_value c) (hex_value d) (decode s)

abbrev pub IsByte : ℕ → Type 0
IsByte b = b < 256

pub hex_value-hex_digit : (n : ℕ) → n < 16 → hex_value (hex_digit n) ≡ some n
unfolding hex_value hex_digit
hex_value-hex_digit n h = ground arith

-- What is encoded is decoded to the same bytes.
pub decode-encode : (bs : List ℕ) → All IsByte bs → decode (encode bs) ≡ some bs
unfolding decode encode
decode-encode [] h = refl
decode-encode (b ∷ bs) h =
    ground (arith, hex_value-hex_digit (b / 16), hex_value-hex_digit (b % 16), decode-encode bs h.1)

pub length-encode : (bs : List ℕ) → length (encode bs) ≡ 2 * length bs
unfolding encode
length-encode [] = refl
length-encode (b ∷ bs) = omega (arith, length-encode bs)

hex_value-lt : (c n : ℕ) → hex_value c ≡ some n → n < 16
unfolding hex_value
hex_value-lt c n h = ground arith

byte_of-some :
    (x y : Option ℕ) (z : Option (List ℕ)) {bs : List ℕ}
    → byte_of x y z ≡ some bs
    → (hi : ℕ) × (lo : ℕ) × (rest : List ℕ) × (x ≡ some hi)
      × (y ≡ some lo)
      × (z ≡ some rest)
      × ((hi * 16 + lo) ∷ rest ≡ bs)
unfolding byte_of
byte_of-some (some hi) (some lo) (some rest) h = (hi, lo, rest, refl, refl, refl, cc)
byte_of-some (some hi) (some lo) none h = cc
byte_of-some (some hi) none z h = cc
byte_of-some none y z h = cc

-- What is decoded is a list of bytes, one for two digits.
pub decode_bytes :
    (s : Text) (bs : List ℕ) → decode s ≡ some bs → All IsByte bs × (length s ≡ 2 * length bs)
unfolding decode
decode_bytes [] [] h = (tt, refl)
decode_bytes [] (b ∷ bs) h = cc
decode_bytes (c ∷ []) bs h = cc
decode_bytes (c ∷ d ∷ s) bs h =
    let (hi, lo, rest, ch, cl, cr, e) = byte_of-some (hex_value c) (hex_value d) (decode s) h in
    let (all_bytes, len) = decode_bytes s rest cr in
    subst (λ b. All IsByte b × (suc (suc (length s)) ≡ 2 * length b)) e
      ((omega (arith, hex_value-lt c hi ch, hex_value-lt d lo cl), all_bytes), omega arith)

pub hex_digit_bounds : (n : ℕ) → n < 16 → (b'0' ≤ hex_digit n) × (hex_digit n ≤ b'f')
unfolding hex_digit
hex_digit_bounds n h = ground arith

-- ===== src/Golib/Base64/RoundTrip.antt =====
-- What is encoded is decoded again.
use tonpayment.Base.{ℕ, ◌+◌, ◌*◌, ◌/◌, ◌%◌, ◌<◌, some, List, [], ◌∷◌, ◌≡◌, ◌≢◌, refl, arith, All}
use tonpayment.Base.Text.{Text}
use tonpayment.Golib.Hex.{IsByte}
use tonpayment.Golib.Strings.{IsGraphic}
use tonpayment.Golib.Base64.{
  Alphabet, url_encoding, symbol, value, encode, skip_breaks, full_group, two_bytes, last_group,
  groups, decode,
}

pub value-symbol : (n : ℕ) → n < 64 → value url_encoding (symbol url_encoding n) ≡ some n
unfolding value symbol
value-symbol n h = ground arith

pub symbol-IsGraphic :
    (n : ℕ)
    → IsGraphic (symbol url_encoding n)
      × (symbol url_encoding n ≢ b'=')
      × (symbol url_encoding n ≢ b':')
unfolding symbol
symbol-IsGraphic n = ground arith

pub groups_full :
    (e : Alphabet) (c d f g : ℕ) (s : Text)
    → g ≢ b'='
    → groups e (c ∷ d ∷ f ∷ g ∷ s)
      ≡ full_group (value e c) (value e d) (value e f) (value e g) (groups e s)
unfolding groups
groups_full e c d f g [] h = ground arith
groups_full e c d f g (x ∷ s) h = refl

pub skip_breaks-graphic : (s : Text) → All IsGraphic s → skip_breaks s ≡ s
unfolding skip_breaks
skip_breaks-graphic [] h = refl
skip_breaks-graphic (c ∷ s) h = ground (arith, skip_breaks-graphic s h.1)

abbrev pub IsSymbol : ℕ → Type 0
IsSymbol c = IsGraphic c × (c ≢ b':')

symbol-IsSymbol : (n : ℕ) → IsSymbol (symbol url_encoding n)
symbol-IsSymbol n = ((symbol-IsGraphic n).0, (symbol-IsGraphic n).2)

-- What holds of every symbol and of the padding holds of the characters of an encoding.
pub encode-All :
    (P : ℕ → Type 0)
    → ((n : ℕ) → P (symbol url_encoding n))
    → P b'='
    → (bs : List ℕ) → All P (encode url_encoding bs)
unfolding encode
encode-All P h p [] = tt
encode-All P h p (a ∷ []) = (h (a / 4), (h (a % 4 * 16), (p, (p, tt))))
encode-All P h p (a ∷ b ∷ []) = (h (a / 4), (h (a % 4 * 16 + b / 16), (h (b % 16 * 4), (p, tt))))
encode-All P h p (a ∷ b ∷ c ∷ s) = (
  h (a / 4),
  (h (a % 4 * 16 + b / 16), (h (b % 16 * 4 + c / 64), (h (c % 64), encode-All P h p s))),
)

-- The encoding is printable ASCII without a colon.
pub encode-IsSymbol : (bs : List ℕ) → All IsSymbol (encode url_encoding bs)
encode-IsSymbol = encode-All IsSymbol symbol-IsSymbol (omega arith)

abbrev sym : ℕ → ℕ
sym = symbol url_encoding

-- The groups at the end of an encoding.
groups_one : (a : ℕ) → IsByte a → groups url_encoding (encode url_encoding (a ∷ [])) ≡ some (a ∷ [])
unfolding groups encode
groups_one a h =
    rw (value-symbol (a / 4) (omega arith), value-symbol (a % 4 * 16) (omega arith)) (ground arith)

two_bytes_lem :
    (a b : ℕ)
    → IsByte a
    → IsByte b
    → two_bytes (some (a / 4)) (some (a % 4 * 16 + b / 16)) (some (b % 16 * 4)) ≡ some (a ∷ b ∷ [])
unfolding two_bytes
two_bytes_lem a b h k = ground arith

groups_padded :
    (e : Alphabet) (c d f : ℕ)
    → f ≢ b'='
    → groups e (c ∷ d ∷ f ∷ b'=' ∷ []) ≡ two_bytes (value e c) (value e d) (value e f)
unfolding groups last_group
groups_padded e c d f h = ground arith

encode_two :
    (a b : ℕ)
    → encode url_encoding (a ∷ b ∷ [])
      ≡ sym (a / 4) ∷ sym (a % 4 * 16 + b / 16) ∷ sym (b % 16 * 4) ∷ b'=' ∷ []
unfolding encode
encode_two a b = refl

groups_two :
    (a b : ℕ)
    → IsByte a
    → IsByte b
    → groups url_encoding (encode url_encoding (a ∷ b ∷ [])) ≡ some (a ∷ b ∷ [])
groups_two a b h k =
    rw
      (
        encode_two a b,
        groups_padded url_encoding (sym (a / 4)) (sym (a % 4 * 16 + b / 16)) (sym (b % 16 * 4))
            (symbol-IsGraphic (b % 16 * 4)).1,
        value-symbol (a / 4) (omega arith),
        value-symbol (a % 4 * 16 + b / 16) (omega arith),
        value-symbol (b % 16 * 4) (omega arith),
      )
      (two_bytes_lem a b h k)

encode_three :
    (a b c : ℕ) (s : List ℕ)
    → encode url_encoding (a ∷ b ∷ c ∷ s)
      ≡ sym (a / 4)
        ∷ sym (a % 4 * 16 + b / 16)
        ∷ sym (b % 16 * 4 + c / 64)
        ∷ sym (c % 64)
        ∷ encode url_encoding s
unfolding encode
encode_three a b c s = refl

groups_three :
    (a b c : ℕ) (s : List ℕ)
    → IsByte a
    → IsByte b
    → IsByte c
    → full_group
        (some (a / 4))
        (some (a % 4 * 16 + b / 16))
        (some (b % 16 * 4 + c / 64))
        (some (c % 64))
        (some s)
      ≡ some (a ∷ b ∷ c ∷ s)
unfolding full_group
groups_three a b c s h k l = ground arith

groups-encode_three :
    (a b c : ℕ) (s : List ℕ)
    → IsByte a
    → IsByte b
    → IsByte c
    → groups url_encoding (encode url_encoding s) ≡ some s
    → groups url_encoding (encode url_encoding (a ∷ b ∷ c ∷ s)) ≡ some (a ∷ b ∷ c ∷ s)
groups-encode_three a b c s ha hb hc ih =
    rw
      (
        encode_three a b c s,
        groups_full url_encoding (sym (a / 4)) (sym (a % 4 * 16 + b / 16))
            (sym (b % 16 * 4 + c / 64)) (sym (c % 64)) (encode url_encoding s)
            (symbol-IsGraphic (c % 64)).1,
        value-symbol (a / 4) (omega arith),
        value-symbol (a % 4 * 16 + b / 16) (omega arith),
        value-symbol (b % 16 * 4 + c / 64) (omega arith),
        value-symbol (c % 64) (omega arith),
        ih,
      )
      (groups_three a b c s ha hb hc)

pub groups-encode :
    (bs : List ℕ) → All IsByte bs → groups url_encoding (encode url_encoding bs) ≡ some bs
groups-encode [] h = unfold groups encode in refl
groups-encode (a ∷ []) h = groups_one a h.0
groups-encode (a ∷ b ∷ []) h = groups_two a b h.0 h.1.0
groups-encode (a ∷ b ∷ c ∷ s) h =
    groups-encode_three a b c s h.0 h.1.0 h.1.1.0 (groups-encode s h.1.1.1)

-- What is encoded is decoded to the same bytes.
pub decode-encode :
    (bs : List ℕ) → All IsByte bs → decode url_encoding (encode url_encoding bs) ≡ some bs
unfolding decode
decode-encode bs h =
    rw
      (skip_breaks-graphic (encode url_encoding bs)
        (graphic (encode url_encoding bs) (encode-IsSymbol bs)))
      (groups-encode bs h)
  where
    graphic : (s : Text) → All IsSymbol s → All IsGraphic s
    graphic [] k = tt
    graphic (c ∷ s) k = (k.0.0, graphic s k.1)

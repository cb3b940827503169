-- ===== src/Golib/Strconv.antt =====
-- `strconv.ParseInt` and `Atoi` in base 10, `FormatInt`, and the padded decimals of `%09d`.
pub mod Padded
use tonpayment.Base.{
  ℕ, zero, suc, ◌+◌, ◌-◌, ◌*◌, ◌/◌, ◌%◌, ◌^◌, ◌≤◌, ◌<◌, Bool, true, false, ◌&&◌, Option, none, some,
  [], ◌∷◌, ltb, leb, ◌==◌, if◌then◌else◌, ◌≡◌, refl, arith, All, ◌∙◌, Bool-cases, inl, inr,
}
use tonpayment.Base.Int.{ℤ, pos, negsuc, sub_ℕ}
use tonpayment.Base.Text.{Text, codes}

-- The digits of a number, read behind `n`; another character is a syntax error.
unfoldable pub scan : ℕ → Text → Option ℕ
scan n [] = some n
scan n (c ∷ s) =
    let rest = scan (n * 10 + (c - b'0')) s in if leb b'0' c && leb c b'9' then rest else none

unfoldable pub parse_uint : Text → Option ℕ
unfolding scan
parse_uint [] = none
parse_uint (c ∷ s) = scan 0 (c ∷ s)

-- The range test of a signed number of `bits` bits.
in_range : ℕ → Bool → ℕ → Option ℤ
in_range bits false n = if ltb n (2 ^ (bits - 1)) then some (pos n) else none
in_range bits true n = if leb n (2 ^ (bits - 1)) then some (sub_ℕ 0 n) else none

ranged : ℕ → Bool → Option ℕ → Option ℤ
unfolding in_range
ranged bits neg none = none
ranged bits neg (some n) = in_range bits neg n

-- `strconv.ParseInt(s, 10, bits)`
unfoldable pub parse_int : ℕ → Text → Option ℤ
unfolding ranged parse_uint
parse_int bits [] = none
parse_int bits (c ∷ s) =
    if c == b'-'
    then ranged bits true (parse_uint s)
    else if c == b'+'
    then ranged bits false (parse_uint s)
    else ranged bits false (parse_uint (c ∷ s))

-- The loop that divides by ten; `n` rounds are enough.
emit : ℕ → ℕ → Text → Text
emit zero n out = out
emit (suc f) n out =
    let rest = emit f (n / 10) ((b'0' + n % 10) ∷ out) in if n == 0 then out else rest

unfoldable pub format_uint : ℕ → Text
unfolding emit
format_uint n = if n == 0 then b'0' ∷ [] else emit n n []

-- `strconv.FormatInt(i, 10)`
unfoldable pub format_int : ℤ → Text
unfolding format_uint
format_int (pos n) = format_uint n
format_int (negsuc n) = b'-' ∷ format_uint (suc n)

-- `%0wd` of a number with at most `w` digits.
unfoldable pub padded : ℕ → ℕ → Text
padded zero n = []
padded (suc w) n = (b'0' + n / 10 ^ w % 10) ∷ padded w n

runs :
    (format_int (pos 1_000_000_007) ≡ codes "1000000007")
    × (format_int (negsuc 41) ≡ codes "-42")
    × (padded 9 2_500 ≡ codes "000002500")
    × (parse_int 32 (codes "-1") ≡ some (negsuc 0))
    × (parse_int 64 (codes "9223372036854775808") ≡ none)
    × (parse_int 64 (codes "-9223372036854775808") ≡ some (negsuc 9223372036854775807))
unfolding format_int padded parse_int
runs = (refl, refl, refl, refl, refl, refl)

-- Reading the last digit of `n` behind the digits before it.
scan_last : (n : ℕ) (out : Text) → scan (n / 10) ((b'0' + n % 10) ∷ out) ≡ scan n out
unfolding scan
scan_last n out = ground arith

scan-emit : (f n : ℕ) (out : Text) → n ≤ f → scan 0 (emit f n out) ≡ scan n out
unfolding emit
scan-emit zero n out h = ground arith
scan-emit (suc f) n out h =
    ground (arith, scan-emit f (n / 10) ((b'0' + n % 10) ∷ out), scan_last n out)

abbrev pub IsDigit : ℕ → Type 0
IsDigit c = (b'0' ≤ c) × (c ≤ b'9')

-- A text of at least one digit.
abbrev pub IsNumeral : Text → Type 0
IsNumeral [] = ⊥
IsNumeral (c ∷ s) = IsDigit c × All IsDigit s

emit-IsNumeral : (f n : ℕ) (out : Text) → IsNumeral out → IsNumeral (emit f n out)
unfolding emit
emit-IsNumeral zero n out h = h
emit-IsNumeral (suc f) n [] h = absurd h
emit-IsNumeral (suc f) n (c ∷ out) h = elim (Bool-cases (n == 0)) [
  | inl e ↦ rw e h
  | inr e ↦ rw e (emit-IsNumeral f (n / 10) ((b'0' + n % 10) ∷ c ∷ out) (omega arith, h))
]

suc_not_zero : (n : ℕ) → (suc n == 0) ≡ false
suc_not_zero n = ground arith

format_uint-suc : (n : ℕ) → format_uint (suc n) ≡ emit (suc n) (suc n) []
unfolding format_uint
format_uint-suc n = rw (suc_not_zero n)

pub format_uint-IsNumeral : (n : ℕ) → IsNumeral (format_uint n)
unfolding format_uint
format_uint-IsNumeral zero = omega arith
format_uint-IsNumeral (suc n) =
    rw (suc_not_zero n) (emit-IsNumeral n (suc n / 10) ((b'0' + suc n % 10) ∷ []) (omega arith, tt))

parse_uint-scan : (s : Text) → IsNumeral s → parse_uint s ≡ scan 0 s
unfolding parse_uint
parse_uint-scan [] h = absurd h
parse_uint-scan (c ∷ s) h = refl

pub parse_uint-format_uint : (n : ℕ) → parse_uint (format_uint n) ≡ some n
parse_uint-format_uint zero = unfold parse_uint format_uint in refl
parse_uint-format_uint (suc n) =
    parse_uint-scan (format_uint (suc n)) (format_uint-IsNumeral (suc n))
    ∙ rw (format_uint-suc n) (scan-emit (suc n) (suc n) [] (omega arith) ∙ unfold scan in refl)

parse_int-numeral :
    (bits : ℕ) (s : Text) → IsNumeral s → parse_int bits s ≡ ranged bits false (parse_uint s)
unfolding parse_int
parse_int-numeral bits [] h = absurd h
parse_int-numeral bits (c ∷ s) h = ground arith

parse_int-minus :
    (bits : ℕ) (s : Text) → parse_int bits (b'-' ∷ s) ≡ ranged bits true (parse_uint s)
unfolding parse_int
parse_int-minus bits s = refl

-- The range of a signed number of `bits` bits.
abbrev pub Fits : ℕ → ℤ → Type 0
Fits bits (pos n) = n < 2 ^ (bits - 1)
Fits bits (negsuc n) = suc n ≤ 2 ^ (bits - 1)

-- A signed number in range is read back from its decimal form.
pub parse_int-format_int : (bits : ℕ) (i : ℤ) → Fits bits i → parse_int bits (format_int i) ≡ some i
unfolding format_int
parse_int-format_int bits (pos n) h =
    rw (parse_int-numeral bits (format_uint n) (format_uint-IsNumeral n), parse_uint-format_uint n)
      (unfold ranged in ground arith)
parse_int-format_int bits (negsuc n) h =
    rw (parse_int-minus bits (format_uint (suc n)), parse_uint-format_uint (suc n))
      (unfold ranged in ground arith)

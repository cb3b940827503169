-- ===== src/Money.antt =====
-- internal/money/money.go: nanoTON as decimal text. `TONToNano`, which is floating point and which
-- nothing calls, is not modelled.
pub mod RoundTrip
mod Tests
use tonpayment.Base.{
  ℕ, zero, suc, ◌+◌, ◌-◌, ◌*◌, ◌/◌, ◌%◌, ◌^◌, Bool, true, false, [], ◌∷◌, ◌++◌, ◌==◌, if◌then◌else◌,
  ◌≡◌, refl,
}
use tonpayment.Base.Int.{ℤ, pos, negsuc, sub_ℕ}
use tonpayment.Base.Text.{Text, codes}
use tonpayment.Golib.Strings.{trim_right_byte}
use tonpayment.Golib.Strconv.{format_int, format_uint, padded}

abbrev pub nano : ℕ
nano = 1_000_000_000

abbrev pub is_negative : ℤ → Bool
is_negative (pos n) = false
is_negative (negsuc n) = true

-- `-n` on an int64: the least number is its own negation.
negate : ℤ → ℤ
negate (pos n) = sub_ℕ 0 n
negate (negsuc n) = if suc n == 2 ^ 63 then negsuc n else pos (suc n)

-- `n / Nano` and `n % Nano`, rounded toward zero.
whole_part : ℤ → ℤ
whole_part (pos n) = pos (n / nano)
whole_part (negsuc n) = sub_ℕ 0 (suc n / nano)

frac_part : ℤ → ℤ
frac_part (pos n) = pos (n % nano)
frac_part (negsuc n) = sub_ℕ 0 (suc n % nano)

-- `%09d` of the fraction. The one negative fraction that occurs has nine digits.
frac_text : ℤ → Text
frac_text (pos n) = padded 9 n
frac_text (negsuc n) = b'-' ∷ format_uint (suc n)

is_zero_frac : ℤ → Bool
is_zero_frac (pos n) = n == 0
is_zero_frac (negsuc n) = false

unsigned_text : ℤ → Text
unfolding whole_part frac_part frac_text is_zero_frac
unsigned_text n =
    let whole = whole_part n in
    let frac = frac_part n in
    if is_zero_frac frac
    then format_int whole
    else trim_right_byte b'.' (trim_right_byte b'0' (format_int whole ++ b'.' ∷ frac_text frac))

unfoldable pub nano_to_ton_string : ℤ → Text
unfolding negate unsigned_text
nano_to_ton_string n = if is_negative n then b'-' ∷ unsigned_text (negate n) else unsigned_text n

-- Whole amounts, fractions, a negative amount, and the least int64, which is misprinted.
runs :
    (nano_to_ton_string (pos 2_500_000_000) ≡ codes "2.5")
    × (nano_to_ton_string (pos 3_000_000_000) ≡ codes "3")
    × (nano_to_ton_string (pos 1) ≡ codes "0.000000001")
    × (nano_to_ton_string (negsuc 1_099_999_999) ≡ codes "-1.1")
    × (nano_to_ton_string (negsuc 9_223_372_036_854_775_807) ≡ codes "--9223372036.-854775808")
unfolding nano_to_ton_string trim_right_byte format_int format_uint padded
runs = (refl, refl, refl, refl, refl)

-- ===== src/Money/RoundTrip.antt =====
-- Reading the printed amounts back.
use mathlib.Core.List.{append_assoc, append-nil}
use tonpayment.Base.{
  ℕ, suc, ◌+◌, ◌-◌, ◌*◌, ◌/◌, ◌%◌, ◌^◌, ◌≤◌, ◌<◌, ◌==◌, true, false, Option, none, some, [], ◌∷◌,
  ◌++◌, leb, if◌then◌else◌, length, ◌≡◌, ◌≢◌, refl, sym, subst, ap, ◌∙◌, arith, All, Bool-cases,
  inl, inr,
}
use tonpayment.Base.Int.{ℤ, pos, negsuc, sub_ℕ}
use tonpayment.Base.Text.{Text}
use tonpayment.Golib.Strings.{
  cut_at, cut_at-append, cut_at-none, contains_byte-none, contains_byte, trim_right_byte,
}
use tonpayment.Golib.Strings.Trim.{
  trim_right_byte-append, trim_right_byte-none, trim_right_byte-All,
}
use tonpayment.Golib.Strconv.{
  format_int, format_uint, padded, parse_uint, scan, parse_uint-format_uint, format_uint-IsNumeral,
  IsNumeral, IsDigit,
}
use tonpayment.Golib.Strconv.Padded.{scan-padded, padded-IsDigit, length-padded, scan_trimmed}
use tonpayment.Money.{nano, unsigned_text, nano_to_ton_string, negate}

-- Whole TON and a fraction of at most nine digits, in nanoTON.
joined : Option ℕ → Option ℕ → ℕ → Option ℕ
joined (some w) (some f) len = if leb len 9 then some (w * nano + f * 10 ^ (9 - len)) else none
joined _ _ _ = none

whole_only : Option ℕ → Option ℕ
whole_only none = none
whole_only (some w) = some (w * nano)

read_parts : Text → Option (Text × Text) → Option ℕ
unfolding joined whole_only
read_parts s none = whole_only (parse_uint s)
read_parts s (some (w, f)) = joined (parse_uint w) (parse_uint f) (length f)

read_unsigned : Text → Option ℕ
unfolding read_parts
read_unsigned s = read_parts s (cut_at b'.' s)

negated : Option ℕ → Option ℤ
negated none = none
negated (some n) = some (sub_ℕ 0 n)

not_negated : Option ℕ → Option ℤ
not_negated none = none
not_negated (some n) = some (pos n)

-- A decimal number of TON, with at most nine places.
pub read_ton : Text → Option ℤ
unfolding read_unsigned negated not_negated
read_ton [] = none
read_ton (c ∷ s) =
    if c == b'-' then negated (read_unsigned s) else not_negated (read_unsigned (c ∷ s))

digits_no_dot : (s : Text) → All IsDigit s → All (λ d. d ≢ b'.') s
digits_no_dot [] h = tt
digits_no_dot (c ∷ s) (h, hs) = (omega (arith, h), digits_no_dot s hs)

numeral_no_dot : (s : Text) → IsNumeral s → contains_byte b'.' s ≡ false
numeral_no_dot [] h = absurd h
numeral_no_dot (c ∷ s) h = contains_byte-none b'.' (c ∷ s) (digits_no_dot (c ∷ s) h)

-- The digits of a fraction that is not zero, without the zeros at the end.
abbrev digits_of : ℕ → Text
digits_of f = trim_right_byte b'0' (padded 9 f)

parse_uint-scan : (s : Text) → s ≢ [] → parse_uint s ≡ scan 0 s
unfolding parse_uint
parse_uint-scan [] n = absurd (n refl)
parse_uint-scan (c ∷ s) n = refl

scan_nil : (s : Text) (g f : ℕ) → scan 0 s ≡ some g → g * 10 ^ (9 - length s) ≡ f → 0 < f → s ≢ []
unfolding scan
scan_nil [] g f e v k n = absurd (ground (arith, e, v))
scan_nil (c ∷ s) g f e v k n = cc

record IsFraction (f : ℕ) : Type 0 where
  some_left : digits_of f ≢ []
  value :
      (g : ℕ) × (parse_uint (digits_of f) ≡ some g)
      × (length (digits_of f) ≤ 9)
      × (g * 10 ^ (9 - length (digits_of f)) ≡ f)
  no_dot : All (λ d. d ≢ b'.') (digits_of f)

digits_of-IsFraction : (f : ℕ) → 0 < f → f < nano → IsFraction f
digits_of-IsFraction f k h =
    let (g, e, short, v) = scan_trimmed f (padded 9 f) (scan-padded f h) in
    let v' : g * 10 ^ (9 - length (digits_of f)) ≡ f =
      ap (λ l. g * 10 ^ (l - length (digits_of f))) (sym (length-padded 9 f)) ∙ v in
    let left = scan_nil (digits_of f) g f e v' k in
    record {
      some_left = left;
      value =
          (g, parse_uint-scan (digits_of f) left ∙ e, omega (arith, short, length-padded 9 f), v');
      no_dot =
          digits_no_dot (digits_of f)
            (trim_right_byte-All IsDigit b'0' (padded 9 f) (padded-IsDigit 9 f));
    }

-- The printed text, before the two trims and after them.
trims :
    (w : Text) (f : ℕ)
    → IsFraction f
    → trim_right_byte b'.' (trim_right_byte b'0' (w ++ b'.' ∷ padded 9 f)) ≡ w ++ b'.' ∷ digits_of f
trims w f p =
    ap (λ s. trim_right_byte b'.' (trim_right_byte b'0' s))
      (sym (append_assoc w (b'.' ∷ []) (padded 9 f)))
    ∙ ap (trim_right_byte b'.')
        (trim_right_byte-append b'0' (w ++ b'.' ∷ []) (padded 9 f) p.some_left)
    ∙ trim_right_byte-append b'.' (w ++ b'.' ∷ []) (digits_of f)
        (λ e. p.some_left (sym no_dots ∙ e))
    ∙ ap (λ s. (w ++ b'.' ∷ []) ++ s) no_dots
    ∙ append_assoc w (b'.' ∷ []) (digits_of f)
  where
    no_dots : trim_right_byte b'.' (digits_of f) ≡ digits_of f
    no_dots = trim_right_byte-none b'.' (digits_of f) p.no_dot

read_fraction :
    (q f : ℕ)
    → IsFraction f
    → read_unsigned (format_uint q ++ b'.' ∷ digits_of f) ≡ some (q * nano + f)
unfolding read_unsigned joined
read_fraction q f p =
    let (g, e, short, v) = p.value in
    rw
      (
        cut_at-append b'.' (format_uint q) (digits_of f)
            (numeral_no_dot _ (format_uint-IsNumeral q)),
        parse_uint-format_uint q,
        e,
        fits,
      )
      (ap (λ k. some (q * nano + k)) v)
  where
    fits : leb (length (digits_of f)) 9 ≡ true
    fits = ground (arith, p.value.2)

read_whole : (q : ℕ) → read_unsigned (format_uint q) ≡ some (q * nano)
unfolding read_unsigned whole_only
read_whole q =
    rw
      (
        cut_at-none b'.' (format_uint q) (numeral_no_dot _ (format_uint-IsNumeral q)),
        parse_uint-format_uint q,
      )
      refl

read_unsigned-unsigned_text : (n : ℕ) → read_unsigned (unsigned_text (pos n)) ≡ some n
unfolding unsigned_text format_int
read_unsigned-unsigned_text n = elim (Bool-cases (n % nano == 0)) [
  | inl e ↦ rw e (read_whole (n / nano) ∙ ap some (ground (arith, e)))
  | inr e ↦ rw e (
      let p = digits_of-IsFraction (n % nano) (ground (arith, e)) (omega arith) in
      ap read_unsigned (trims (format_uint (n / nano)) (n % nano) p)
      ∙ read_fraction (n / nano) (n % nano) p
      ∙ ap some (omega arith))
]

abbrev StartsUnsigned : Text → Type 0
StartsUnsigned [] = ⊥
StartsUnsigned (c ∷ s) = c ≢ b'-'

numeral_starts : (w t : Text) → IsNumeral w → StartsUnsigned (w ++ t)
numeral_starts [] t h = absurd h
numeral_starts (c ∷ w) t h = omega (arith, h.0)

unsigned_text_starts : (n : ℕ) → StartsUnsigned (unsigned_text (pos n))
unfolding unsigned_text format_int
unsigned_text_starts n = elim (Bool-cases (n % nano == 0)) [
  | inl e ↦ rw e (
      subst StartsUnsigned (append-nil (format_uint (n / nano)))
        (numeral_starts (format_uint (n / nano)) [] (format_uint-IsNumeral (n / nano))))
  | inr e ↦ rw e (
      subst StartsUnsigned
        (sym (
          trims (format_uint (n / nano)) (n % nano)
            (digits_of-IsFraction (n % nano) (ground (arith, e)) (omega arith))))
        (numeral_starts (format_uint (n / nano)) _ (format_uint-IsNumeral (n / nano))))
]

read_ton_unsigned : (s : Text) → StartsUnsigned s → read_ton s ≡ not_negated (read_unsigned s)
unfolding read_ton
read_ton_unsigned [] h = absurd h
read_ton_unsigned (c ∷ s) h = ground (arith, h)

read_ton_minus : (s : Text) → read_ton (b'-' ∷ s) ≡ negated (read_unsigned s)
unfolding read_ton
read_ton_minus s = refl

least : (n : ℕ) → negsuc n ≢ negsuc (2 ^ 63 - 1) → (suc n == 2 ^ 63) ≡ false
least n h = ground (arith, h)

negate_negative : (n : ℕ) → negsuc n ≢ negsuc (2 ^ 63 - 1) → negate (negsuc n) ≡ pos (suc n)
unfolding negate
negate_negative n h = rw (least n h) refl

-- Every amount but the least int64 is printed as a decimal number of TON that is read back exactly:
-- zero, whole amounts, fractions without their trailing zeros, and negative amounts.
pub read_ton-nano_to_ton_string :
    (n : ℤ) → n ≢ negsuc (2 ^ 63 - 1) → read_ton (nano_to_ton_string n) ≡ some n
unfolding nano_to_ton_string
read_ton-nano_to_ton_string (pos n) h =
    read_ton_unsigned (unsigned_text (pos n)) (unsigned_text_starts n)
    ∙ ap not_negated (read_unsigned-unsigned_text n)
    ∙ unfold not_negated in refl
read_ton-nano_to_ton_string (negsuc n) h =
    read_ton_minus (unsigned_text (negate (negsuc n)))
    ∙ ap (λ x. negated (read_unsigned (unsigned_text x))) (negate_negative n h)
    ∙ ap negated (read_unsigned-unsigned_text (suc n))
    ∙ unfold negated in ground arith

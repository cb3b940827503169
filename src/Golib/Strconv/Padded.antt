-- ===== src/Golib/Strconv/Padded.antt =====
-- Reading the padded decimals, with and without their trailing zeros.
use native.Mathlib.Numerals.{unary_clauses}
use native.Mathlib.Nat.{div-div-eq-div-mul}
use mathlib.Core.List.{reverse, reverse-reverse, reverse-append}
use tonpayment.Base.{
  ℕ, zero, suc, ◌+◌, ◌-◌, ◌*◌, ◌/◌, ◌%◌, ◌^◌, ◌<◌, ◌≤◌, ◌==◌, Bool, ==_iff, subst, some, true,
  false, [], ◌∷◌, ◌++◌, ◌≡◌, refl, sym, ap, ◌∙◌, arith, All, length, length-reverse,
}
use tonpayment.Base.Text.{Text}
use tonpayment.Golib.Strconv.{scan, padded, IsDigit}
use tonpayment.Golib.Strings.{strip_leading, trim_right_byte}

scan_digit : (n d : ℕ) (s : Text) → d < 10 → scan n ((b'0' + d) ∷ s) ≡ scan (n * 10 + d) s
unfolding scan
scan_digit n d s h = ground arith

pow_suc : (w : ℕ) → 10 ^ w * 10 ≡ 10 ^ suc w
pow_suc w = simp unary_clauses (omega arith)

div_pow : (n w : ℕ) → n / 10 ^ suc w ≡ n / 10 ^ w / 10
div_pow n w = sym (div-div-eq-div-mul n (10 ^ w) 10 ∙ ap (λ k. n / k) (pow_suc w))

-- The digits of a number behind its higher digits.
higher_digits : (w n : ℕ) → scan (n / 10 ^ w) (padded w n) ≡ some n
unfolding padded
higher_digits zero n = unfold scan in ground arith
higher_digits (suc w) n =
    scan_digit (n / 10 ^ suc w) (n / 10 ^ w % 10) (padded w n) (omega arith)
    ∙ ap (λ k. scan k (padded w n)) (omega (arith, div_pow n w))
    ∙ higher_digits w n

pub scan-padded : (n : ℕ) → n < 1_000_000_000 → scan 0 (padded 9 n) ≡ some n
scan-padded n h = ap (λ k. scan k (padded 9 n)) (omega (arith, h)) ∙ higher_digits 9 n

pub padded-IsDigit : (w n : ℕ) → All IsDigit (padded w n)
unfolding padded
padded-IsDigit zero n = tt
padded-IsDigit (suc w) n = (omega arith, padded-IsDigit w n)

pub length-padded : (w n : ℕ) → length (padded w n) ≡ w
unfolding padded
length-padded zero n = refl
length-padded (suc w) n = ap suc (length-padded w n)

scan_step : (n c : ℕ) (s : Text) → IsDigit c → scan n (c ∷ s) ≡ scan (n * 10 + (c - b'0')) s
unfolding scan
scan_step n c s h = ground arith

scan_cons :
    (n c : ℕ) (s : Text) (f : ℕ)
    → scan n (c ∷ s) ≡ some f
    → IsDigit c × (scan (n * 10 + (c - b'0')) s ≡ some f)
unfolding scan
scan_cons n c s f h = ground arith

scan-append_zero :
    (n : ℕ) (s : Text) (f : ℕ)
    → scan n (s ++ b'0' ∷ []) ≡ some f
    → (g : ℕ) × (scan n s ≡ some g) × (f ≡ g * 10)
scan-append_zero n [] f h = (n, unfold scan in refl, last_zero n f h)
  where
    last_zero : (n f : ℕ) → scan n (b'0' ∷ []) ≡ some f → f ≡ n * 10
    last_zero n f h = unfold scan in ground arith
scan-append_zero n (c ∷ s) f h =
    let (digit, rest) = scan_cons n c (s ++ b'0' ∷ []) f h in
    let (g, e, q) = scan-append_zero (n * 10 + (c - b'0')) s f rest in
    (g, scan_step n c s digit ∙ e, q)

-- What is left of digits, written backwards, without the zeros at the front, is short by a power of ten.
abbrev ShortBy : ℕ → ℕ → Text → Text → Type 0
ShortBy n f s t =
    (g : ℕ) × (scan n (reverse t) ≡ some g)
    × (length t ≤ length s)
    × (g * 10 ^ (length s - length t) ≡ f)

one_more : (g k l f : ℕ) → l ≤ k → g * 10 ^ (k - l) ≡ f → g * 10 ^ (suc k - l) ≡ f * 10
one_more g k l f h e = rw (suc_sub) (rw (sym (pow_suc (k - l))) (grind (arith, e)))
  where
    suc_sub : suc k - l ≡ suc (k - l)
    suc_sub = omega arith

nothing_off : (f k : ℕ) → f * 10 ^ (suc k - suc k) ≡ f
nothing_off f k = rw (same) (omega arith)
  where
    same : suc k - suc k ≡ 0
    same = omega arith

stripped_digits :
    (n f : ℕ) (s : Text) → scan n (reverse s) ≡ some f → ShortBy n f s (strip_leading b'0' s)
unfolding strip_leading
stripped_digits n f [] h = (f, h, omega arith, omega arith)
stripped_digits n f (c ∷ s) h = split (λ g. stripped_digits n g s) (b'0' == c) refl
  where
    stripped :
        (g : ℕ)
        → f ≡ g * 10
        → ShortBy n g s (strip_leading b'0' s)
        → ShortBy n f (c ∷ s) (strip_leading b'0' s)
    stripped g q (m, e, short, value) =
        (m, e, omega (arith, short), one_more m (length s) _ g short value ∙ sym q)

    split :
        ((g : ℕ) → scan n (reverse s) ≡ some g → ShortBy n g s (strip_leading b'0' s))
        → (b : Bool) → (b'0' == c) ≡ b
        → ShortBy n f (c ∷ s) (elim b [ true ↦ strip_leading b'0' s | false ↦ c ∷ s ])
    split ih true e =
        let (g, k, q) = scan-append_zero n (reverse s) f (
          subst (λ d. scan n (reverse s ++ d ∷ []) ≡ some f) (sym ((==_iff b'0' c).0 e))
            (ap (scan n) (sym (reverse-append (c ∷ []) s)) ∙ h)) in
        stripped g q (ih g k)
    split ih false e = (f, h, omega arith, nothing_off f (length s))

-- The number in digits without their trailing zeros is short by a power of ten, one for each zero.
pub scan_trimmed :
    (f : ℕ) (s : Text)
    → scan 0 s ≡ some f
    → (g : ℕ) × (scan 0 (trim_right_byte b'0' s) ≡ some g)
      × (length (trim_right_byte b'0' s) ≤ length s)
      × (g * 10 ^ (length s - length (trim_right_byte b'0' s)) ≡ f)
unfolding trim_right_byte
scan_trimmed f s h =
    let (g, e, short, value) =
      stripped_digits 0 f (reverse s) (ap (scan 0) (reverse-reverse s) ∙ h) in
    (
      g,
      e,
      omega (arith, short, length-reverse s, length-reverse (strip_leading b'0' (reverse s))),
      ap (λ k. g * 10 ^ k)
            (omega (arith, length-reverse s, length-reverse (strip_leading b'0' (reverse s))))
          ∙ value,
    )

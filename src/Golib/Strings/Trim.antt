-- ===== src/Golib/Strings/Trim.antt =====
-- `strings.TrimRight` of one byte, at a text in two parts.
use mathlib.Core.List.{reverse, reverse-reverse, reverse-append}
use tonpayment.Base.{
  ℕ, ◌==◌, true, false, [], ◌∷◌, ◌++◌, ◌≡◌, ◌≢◌, refl, sym, ap, ◌∙◌, arith, All, All-reverse,
}
use tonpayment.Base.Text.{Text}
use tonpayment.Golib.Strings.{strip_leading, trim_right_byte}

strip_leading-append :
    (c : ℕ) (s t : Text)
    → strip_leading c s ≢ []
    → strip_leading c (s ++ t) ≡ strip_leading c s ++ t
unfolding strip_leading
strip_leading-append c [] t n = absurd (n refl)
strip_leading-append c (d ∷ s) t n = ground (arith, strip_leading-append c s t)

reverse_nil : (s : Text) → reverse s ≡ [] → s ≡ []
reverse_nil s e = sym (reverse-reverse s) ∙ ap reverse e

-- Where something is left of the second part, the first stays.
pub trim_right_byte-append :
    (c : ℕ) (s t : Text)
    → trim_right_byte c t ≢ []
    → trim_right_byte c (s ++ t) ≡ s ++ trim_right_byte c t
unfolding trim_right_byte
trim_right_byte-append c s t n =
    ap (λ r. reverse (strip_leading c r)) (reverse-append s t)
    ∙ ap reverse (strip_leading-append c (reverse t) (reverse s) (λ e. n (ap reverse e)))
    ∙ reverse-append (strip_leading c (reverse t)) (reverse s)
    ∙ ap (λ r. r ++ reverse (strip_leading c (reverse t))) (reverse-reverse s)

strip_leading-none : (c : ℕ) (s : Text) → All (λ d. d ≢ c) s → strip_leading c s ≡ s
unfolding strip_leading
strip_leading-none c [] h = refl
strip_leading-none c (d ∷ s) h = ground (arith, h.0)

-- A text without the byte stays.
pub trim_right_byte-none : (c : ℕ) (s : Text) → All (λ d. d ≢ c) s → trim_right_byte c s ≡ s
unfolding trim_right_byte
trim_right_byte-none c s h =
    ap reverse (strip_leading-none c (reverse s) (All-reverse (λ d. d ≢ c) s h)) ∙ reverse-reverse s

strip_leading-All : (P : ℕ → Type 0) (c : ℕ) (s : Text) → All P s → All P (strip_leading c s)
unfolding strip_leading
strip_leading-All P c [] h = tt
strip_leading-All P c (d ∷ s) h =
    elim (c == d) as (λ b. All P (elim b [ true ↦ strip_leading c s | false ↦ d ∷ s ])) [
      | true ↦ strip_leading-All P c s h.1
      | false ↦ h
    ]

pub trim_right_byte-All :
    (P : ℕ → Type 0) (c : ℕ) (s : Text) → All P s → All P (trim_right_byte c s)
unfolding trim_right_byte
trim_right_byte-All P c s h =
    All-reverse P (strip_leading c (reverse s))
      (strip_leading-All P c (reverse s) (All-reverse P s h))

-- ===== src/Golib/Strings.antt =====
-- `strings.TrimSpace`, `TrimRight`, `TrimPrefix` and the search for a byte.
pub mod Trim
use mathlib.Core.List.{reverse, reverse-reverse}
use tonpayment.Base.{
  ℕ, zero, suc, ◌≤◌, ◌<◌, Bool, true, false, ◌||◌, Option, none, some, List, [], ◌∷◌, ◌++◌, ◌==◌,
  if◌then◌else◌, length, ◌≡◌, ◌≢◌, refl, arith, map, All, All-reverse, ap, ◌∙◌,
}
use tonpayment.Base.Text.{Text}

-- What stands behind a prefix.
unfoldable pub cut_prefix : Text → Text → Option Text
cut_prefix [] s = some s
cut_prefix (c ∷ p) [] = none
cut_prefix (c ∷ p) (d ∷ s) = elim (c == d) [ true ↦ cut_prefix p s | false ↦ none ]

unfoldable pub trim_prefix : Text → Text → Text
unfolding cut_prefix
trim_prefix p s = elim (cut_prefix p s) [ none ↦ s | some rest ↦ rest ]

-- The white space of `unicode.IsSpace`, in UTF-8.
abbrev spaces : List Text
spaces =
    (9 ∷ [])
    ∷ (10 ∷ [])
    ∷ (11 ∷ [])
    ∷ (12 ∷ [])
    ∷ (13 ∷ [])
    ∷ (32 ∷ [])
    ∷ (0xc2 ∷ 0x85 ∷ [])
    ∷ (0xc2 ∷ 0xa0 ∷ [])
    ∷ (0xe1 ∷ 0x9a ∷ 0x80 ∷ [])
    ∷ (0xe2 ∷ 0x80 ∷ 0x80 ∷ [])
    ∷ (0xe2 ∷ 0x80 ∷ 0x81 ∷ [])
    ∷ (0xe2 ∷ 0x80 ∷ 0x82 ∷ [])
    ∷ (0xe2 ∷ 0x80 ∷ 0x83 ∷ [])
    ∷ (0xe2 ∷ 0x80 ∷ 0x84 ∷ [])
    ∷ (0xe2 ∷ 0x80 ∷ 0x85 ∷ [])
    ∷ (0xe2 ∷ 0x80 ∷ 0x86 ∷ [])
    ∷ (0xe2 ∷ 0x80 ∷ 0x87 ∷ [])
    ∷ (0xe2 ∷ 0x80 ∷ 0x88 ∷ [])
    ∷ (0xe2 ∷ 0x80 ∷ 0x89 ∷ [])
    ∷ (0xe2 ∷ 0x80 ∷ 0x8a ∷ [])
    ∷ (0xe2 ∷ 0x80 ∷ 0xa8 ∷ [])
    ∷ (0xe2 ∷ 0x80 ∷ 0xa9 ∷ [])
    ∷ (0xe2 ∷ 0x80 ∷ 0xaf ∷ [])
    ∷ (0xe2 ∷ 0x81 ∷ 0x9f ∷ [])
    ∷ (0xe3 ∷ 0x80 ∷ 0x80 ∷ [])
    ∷ []

cut_any : List Text → Text → Option Text
unfolding cut_prefix
cut_any [] s = none
cut_any (p ∷ ps) s = elim (cut_prefix p s) [ none ↦ cut_any ps s | some rest ↦ some rest ]

-- Each round takes one space off; a text has no more spaces than bytes.
trim_rounds : ℕ → List Text → Text → Text
unfolding cut_any
trim_rounds zero ps s = s
trim_rounds (suc n) ps s = elim (cut_any ps s) [ none ↦ s | some rest ↦ trim_rounds n ps rest ]

trim_left : List Text → Text → Text
unfolding trim_rounds
trim_left ps s = trim_rounds (length s) ps s

trim_right : List Text → Text → Text
unfolding trim_left
trim_right ps s = reverse (trim_left (map reverse ps) (reverse s))

unfoldable pub trim_space : Text → Text
unfolding trim_right
trim_space s = trim_right spaces (trim_left spaces s)

-- `strings.TrimRight(s, cutset)` for a cutset of one byte.
unfoldable pub strip_leading : ℕ → Text → Text
strip_leading c [] = []
strip_leading c (d ∷ s) = elim (c == d) [ true ↦ strip_leading c s | false ↦ d ∷ s ]

unfoldable pub trim_right_byte : ℕ → Text → Text
unfolding strip_leading
trim_right_byte c s = reverse (strip_leading c (reverse s))

-- `s[:i]` and `s[i+1:]` at the first `i` with `s[i] == c`, for `strings.IndexByte`.
unfoldable pub cut_at : ℕ → Text → Option (Text × Text)
cut_at c [] = none
cut_at c (d ∷ s) =
    let rest = cut_at c s in
    if c == d then some ([], s) else elim rest [ none ↦ none | some (a, b) ↦ some (d ∷ a, b) ]

unfoldable pub contains_byte : ℕ → Text → Bool
contains_byte c [] = false
contains_byte c (d ∷ s) = c == d || contains_byte c s

trim_space_both :
    trim_space (9 ∷ 0xe2 ∷ 0x80 ∷ 0x83 ∷ 65 ∷ 32 ∷ 66 ∷ 0xc2 ∷ 0xa0 ∷ 10 ∷ []) ≡ 65 ∷ 32 ∷ 66 ∷ []
unfolding trim_space
trim_space_both = refl

-- A byte of printable ASCII.
abbrev pub IsGraphic : ℕ → Type 0
IsGraphic c = (33 ≤ c) × (c < 127)

abbrev StartsElsewhere : ℕ → Text → Type 0
StartsElsewhere c [] = ⊥
StartsElsewhere c (d ∷ p) = d ≢ c

cut_any-none :
    (c : ℕ) (s : Text) (ps : List Text) → All (StartsElsewhere c) ps → cut_any ps (c ∷ s) ≡ none
unfolding cut_any
cut_any-none c s [] h = refl
cut_any-none c s ([] ∷ ps) h = absurd h.0
cut_any-none c s ((d ∷ p) ∷ ps) h = ground (arith, cut_any-none c s ps h.1)

abbrev AllElsewhere : List Text → Type 0
AllElsewhere ps = (c : ℕ) → IsGraphic c → All (StartsElsewhere c) ps

trim_left_graphic :
    (ps : List Text) (s : Text) → AllElsewhere ps → All IsGraphic s → trim_left ps s ≡ s
unfolding trim_left
trim_left_graphic ps [] e h = refl
trim_left_graphic ps (c ∷ s) e h = rw (cut_any-none c s ps (e c h.0), trim_rounds)

spaces_elsewhere : AllElsewhere spaces
spaces_elsewhere c g = omega arith

spaces_elsewhere_back : AllElsewhere (map reverse spaces)
spaces_elsewhere_back c g = omega arith

trim_right_graphic : (s : Text) → All IsGraphic s → trim_right spaces s ≡ s
unfolding trim_right
trim_right_graphic s h =
    ap reverse (
      trim_left_graphic (map reverse spaces) (reverse s) spaces_elsewhere_back
        (All-reverse IsGraphic s h))
    ∙ reverse-reverse s

-- A text of printable ASCII has nothing to trim at its ends.
pub trim_space_graphic : (s : Text) → All IsGraphic s → trim_space s ≡ s
unfolding trim_space
trim_space_graphic s h =
    ap (trim_right spaces) (trim_left_graphic spaces s spaces_elsewhere h) ∙ trim_right_graphic s h

pub cut_at-none : (c : ℕ) (s : Text) → contains_byte c s ≡ false → cut_at c s ≡ none
unfolding cut_at contains_byte
cut_at-none c [] h = refl
cut_at-none c (d ∷ s) h = ground (arith, cut_at-none c s)

pub cut_at-append :
    (c : ℕ) (a b : Text) → contains_byte c a ≡ false → cut_at c (a ++ c ∷ b) ≡ some (a, b)
unfolding cut_at contains_byte
cut_at-append c [] b h = ground arith
cut_at-append c (d ∷ a) b h = ground (arith, cut_at-append c a b)

pub contains_byte-none : (c : ℕ) (s : Text) → All (λ d. d ≢ c) s → contains_byte c s ≡ false
unfolding contains_byte
contains_byte-none c [] h = refl
contains_byte-none c (d ∷ s) h = ground (arith, contains_byte-none c s h.1)

pub contains_byte-append : (c : ℕ) (a b : Text) → contains_byte c (a ++ c ∷ b) ≡ true
unfolding contains_byte
contains_byte-append c [] b = ground arith
contains_byte-append c (d ∷ a) b = ground (arith, contains_byte-append c a b)

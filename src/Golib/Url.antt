-- ===== src/Golib/Url.antt =====
-- `url.QueryEscape`, and `url.QueryUnescape`, which reads it back.
use tonpayment.Base.{
  ℕ, ◌+◌, ◌-◌, ◌*◌, ◌/◌, ◌%◌, ◌<◌, Bool, true, Option, none, some, ◌&&◌, ◌||◌, [], ◌∷◌, ltb, leb,
  ◌==◌, if◌then◌else◌, ◌≡◌, ◌≢◌, refl, arith, All, ◌∙◌, Bool-cases, inl, inr,
}
use tonpayment.Golib.Hex.{hex_value, IsByte}
use tonpayment.Base.Text.{Text, codes}

is_unreserved : ℕ → Bool
is_unreserved c =
    leb b'a' c && leb c b'z'
    || leb b'A' c && leb c b'Z'
    || leb b'0' c && leb c b'9'
    || c == b'-'
    || c == b'_'
    || c == b'.'
    || c == b'~'

upper_hex : ℕ → ℕ
upper_hex n = if ltb n 10 then n + b'0' else n - 10 + b'A'

unfoldable pub query_escape : Text → Text
unfolding is_unreserved upper_hex
query_escape [] = []
query_escape (c ∷ s) =
    let rest = query_escape s in
    if is_unreserved c
    then c ∷ rest
    else if c == b' '
    then b'+' ∷ rest
    else b'%' ∷ upper_hex (c / 16) ∷ upper_hex (c % 16) ∷ rest

escaped : query_escape (codes "EQ+a/b c=") ≡ codes "EQ%2Ba%2Fb+c%3D"
unfolding query_escape
escaped = refl

-- What a byte stands for outside a percent escape.
unplus : ℕ → ℕ
unplus c = if c == b'+' then b' ' else c

prepend : ℕ → Option Text → Option Text
prepend c none = none
prepend c (some s) = some (c ∷ s)

prepend_byte : Option ℕ → Option ℕ → Option Text → Option Text
prepend_byte (some hi) (some lo) (some s) = some ((hi * 16 + lo) ∷ s)
prepend_byte _ _ _ = none

-- `url.QueryUnescape`
pub query_unescape : Text → Option Text
unfolding unplus prepend prepend_byte
query_unescape [] = some []
query_unescape (c ∷ []) = if c == b'%' then none else some (unplus c ∷ [])
query_unescape (c ∷ d ∷ []) =
    if c == b'%' then none else prepend (unplus c) (query_unescape (d ∷ []))
query_unescape (c ∷ d ∷ e ∷ s) =
    let rest = query_unescape s in
    let next = query_unescape (d ∷ e ∷ s) in
    if c == b'%' then prepend_byte (hex_value d) (hex_value e) rest else prepend (unplus c) next

query_unescape_plain :
    (c : ℕ) (s : Text) → c ≢ b'%' → query_unescape (c ∷ s) ≡ prepend (unplus c) (query_unescape s)
unfolding query_unescape
query_unescape_plain c [] n = ground arith
query_unescape_plain c (d ∷ []) n = ground arith
query_unescape_plain c (d ∷ e ∷ s) n = ground arith

query_unescape_percent :
    (d e : ℕ) (s : Text)
    → query_unescape (b'%' ∷ d ∷ e ∷ s)
      ≡ prepend_byte (hex_value d) (hex_value e) (query_unescape s)
unfolding query_unescape
query_unescape_percent d e s = refl

hex_value-upper_hex : (n : ℕ) → n < 16 → hex_value (upper_hex n) ≡ some n
unfolding hex_value upper_hex
hex_value-upper_hex n h = ground arith

unreserved_plain : (c : ℕ) → is_unreserved c ≡ true → (c ≢ b'%') × (unplus c ≡ c) × (c ≢ b'&')
unfolding is_unreserved unplus
unreserved_plain c e = (λ p. ground arith, ground arith, λ p. ground arith)

plus_space : unplus b'+' ≡ b' '
unfolding unplus
plus_space = refl

-- What was escaped is read back.
pub query_unescape-query_escape :
    (s : Text) → All IsByte s → query_unescape (query_escape s) ≡ some s
unfolding query_escape
query_unescape-query_escape [] h = unfold query_unescape in refl
query_unescape-query_escape (c ∷ s) (h, hs) = elim (Bool-cases (is_unreserved c)) [
  | inl e ↦ rw e (
      query_unescape_plain c (query_escape s) (unreserved_plain c e).0
      ∙ rw (query_unescape-query_escape s hs, (unreserved_plain c e).1) (unfold prepend in refl))
  | inr e ↦ rw e (elim (Bool-cases (c == b' ')) [
    | inl k ↦ rw k (
        query_unescape_plain b'+' (query_escape s) (omega arith)
        ∙ rw (query_unescape-query_escape s hs, plus_space) (unfold prepend in ground (arith, k)))
    | inr k ↦ rw k (
        query_unescape_percent (upper_hex (c / 16)) (upper_hex (c % 16)) (query_escape s)
        ∙ rw
            (
              query_unescape-query_escape s hs,
              hex_value-upper_hex (c / 16) (omega (arith, h)),
              hex_value-upper_hex (c % 16) (omega arith),
            )
            (unfold prepend_byte in ground arith))
  ])
]

-- The separator of a query's pairs does not stand in an escaped text.
pub query_escape-All : (s : Text) → All IsByte s → All (λ d. d ≢ b'&') (query_escape s)
unfolding query_escape
query_escape-All [] h = tt
query_escape-All (c ∷ s) (h, hs) = elim (Bool-cases (is_unreserved c)) [
  | inl e ↦ rw e ((unreserved_plain c e).2, query_escape-All s hs)
  | inr e ↦ rw e (elim (Bool-cases (c == b' ')) [
    | inl k ↦ rw k (omega arith, query_escape-All s hs)
    | inr k ↦ rw k (
      omega arith,
      (
        upper_hex-ne (c / 16) (omega (arith, h)),
        (upper_hex-ne (c % 16) (omega arith), query_escape-All s hs),
      ),
    )
  ])
]
  where
    upper_hex-ne : (n : ℕ) → n < 16 → upper_hex n ≢ b'&'
    upper_hex-ne n k = ground arith

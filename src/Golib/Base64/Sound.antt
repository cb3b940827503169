-- ===== src/Golib/Base64/Sound.antt =====
-- Whatever is decoded is a list of bytes.
use tonpayment.Base.{
  ℕ, ◌<◌, Bool, true, false, ◌&&◌, Option, none, some, List, [], ◌∷◌, ◌==◌, if◌then◌else◌, ◌≡◌,
  subst, arith, All,
}
use tonpayment.Base.Text.{Text}
use tonpayment.Golib.Hex.{IsByte}
use tonpayment.Golib.Base64.{
  Alphabet, value, skip_breaks, full_group, two_bytes, one_byte, last_group, groups, decode,
}

abbrev Below64 : Option ℕ → Type 0
Below64 none = Unit
Below64 (some n) = n < 64

abbrev AllBytes : Option (List ℕ) → Type 0
AllBytes none = Unit
AllBytes (some bs) = All IsByte bs

value-Below64 : (e : Alphabet) (c : ℕ) → Below64 (value e c)
unfolding value
value-Below64 e c = ground arith

full_group-AllBytes :
    (w x y z : Option ℕ) (r : Option (List ℕ))
    → Below64 w
    → Below64 x
    → Below64 y
    → Below64 z
    → AllBytes r
    → AllBytes (full_group w x y z r)
unfolding full_group
full_group-AllBytes (some w) (some x) (some y) (some z) (some bs) hw hx hy hz hr =
    (omega arith, (omega arith, (omega arith, hr)))
full_group-AllBytes (some w) (some x) (some y) (some z) none hw hx hy hz hr = tt
full_group-AllBytes (some w) (some x) (some y) none r hw hx hy hz hr = tt
full_group-AllBytes (some w) (some x) none z r hw hx hy hz hr = tt
full_group-AllBytes (some w) none y z r hw hx hy hz hr = tt
full_group-AllBytes none x y z r hw hx hy hz hr = tt

two_bytes-AllBytes :
    (w x y : Option ℕ) → Below64 w → Below64 x → Below64 y → AllBytes (two_bytes w x y)
unfolding two_bytes
two_bytes-AllBytes (some w) (some x) (some y) hw hx hy = omega arith
two_bytes-AllBytes (some w) (some x) none hw hx hy = tt
two_bytes-AllBytes (some w) none y hw hx hy = tt
two_bytes-AllBytes none x y hw hx hy = tt

one_byte-AllBytes : (w x : Option ℕ) → Below64 w → Below64 x → AllBytes (one_byte w x)
unfolding one_byte
one_byte-AllBytes (some w) (some x) hw hx = omega arith
one_byte-AllBytes (some w) none hw hx = tt
one_byte-AllBytes none x hw hx = tt

AllBytes-if :
    (b : Bool) (r r' : Option (List ℕ)) → AllBytes r → AllBytes r' → AllBytes (if b then r else r')
AllBytes-if true r r' h h' = h
AllBytes-if false r r' h h' = h'

module _ (e : Alphabet) where
  last_group-AllBytes : (c d f g : ℕ) → AllBytes (last_group e c d f g)
  unfolding last_group
  last_group-AllBytes c d f g =
      AllBytes-if (f == b'=' && g == b'=') _ _
        (one_byte-AllBytes (value e c) (value e d) (value-Below64 e c) (value-Below64 e d))
        (AllBytes-if (g == b'=') _ _
          (two_bytes-AllBytes (value e c) (value e d) (value e f) (value-Below64 e c)
            (value-Below64 e d) (value-Below64 e f))
          (full_group-AllBytes (value e c) (value e d) (value e f) (value e g) (some [])
            (value-Below64 e c) (value-Below64 e d) (value-Below64 e f) (value-Below64 e g) tt))

  groups-AllBytes : (s : Text) → AllBytes (groups e s)
  unfolding groups
  groups-AllBytes [] = tt
  groups-AllBytes (c ∷ []) = tt
  groups-AllBytes (c ∷ d ∷ []) = tt
  groups-AllBytes (c ∷ d ∷ f ∷ []) = tt
  groups-AllBytes (c ∷ d ∷ f ∷ g ∷ []) = last_group-AllBytes c d f g
  groups-AllBytes (c ∷ d ∷ f ∷ g ∷ h ∷ s) =
      full_group-AllBytes (value e c) (value e d) (value e f) (value e g) (groups e (h ∷ s))
        (value-Below64 e c) (value-Below64 e d) (value-Below64 e f) (value-Below64 e g)
        (groups-AllBytes (h ∷ s))

  -- What is decoded is a list of bytes.
  pub decode_bytes : (s : Text) (bs : List ℕ) → decode e s ≡ some bs → All IsByte bs
  unfolding decode
  decode_bytes s bs h = subst AllBytes h (groups-AllBytes (skip_breaks s))

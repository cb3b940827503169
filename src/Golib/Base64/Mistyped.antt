-- ===== src/Golib/Base64/Mistyped.antt =====
-- What is decoded of an encoding of which one character is another one.
use tonpayment.Base.{
  ℕ, zero, suc, ◌+◌, ◌*◌, ◌/◌, ◌%◌, ◌<◌, some, List, [], ◌∷◌, ◌≡◌, ◌≢◌, refl, ap, ◌∙◌, arith, All,
  length, set, get_elem?,
}
use tonpayment.Base.Text.{Text}
use tonpayment.Golib.Hex.{IsByte}
use tonpayment.Golib.Base64.{url_encoding, symbol, value, encode, full_group, groups}
use tonpayment.Golib.Base64.RoundTrip.{
  value-symbol, symbol-IsGraphic, groups_full, groups-encode, IsSymbol,
}

-- Lists of bytes that differ in two neighbours at most, and in one of them.
pub data Burst : List ℕ → List ℕ → Type 0 where
  differs : {l : List ℕ} (x y u v : ℕ) → (x ≡ u → y ≢ v) → Burst (x ∷ y ∷ l) (u ∷ v ∷ l)
  later : {l m : List ℕ} (b : ℕ) → Burst l m → Burst (b ∷ l) (b ∷ m)

pub Burst-length : {l m : List ℕ} → Burst l m → length m ≡ length l
Burst-length (differs x y u v n) = refl
Burst-length (later b h) = ap suc (Burst-length h)

-- Groups of three bytes.
abbrev pub Whole : List ℕ → Type 0
Whole [] = Unit
Whole (a ∷ []) = ⊥
Whole (a ∷ b ∷ []) = ⊥
Whole (a ∷ b ∷ c ∷ s) = Whole s

pub Whole-length : (k : ℕ) (l : List ℕ) → length l ≡ k * 3 → Whole l
Whole-length zero [] h = tt
Whole-length zero (a ∷ l) h = absurd (omega (arith, h))
Whole-length (suc k) [] h = tt
Whole-length (suc k) (a ∷ []) h = absurd (omega (arith, h))
Whole-length (suc k) (a ∷ b ∷ []) h = absurd (omega (arith, h))
Whole-length (suc k) (a ∷ b ∷ c ∷ s) h = Whole-length k s (omega (arith, h))

-- A character of the alphabet, and what it stands for.
pub value-lt : (c n : ℕ) → value url_encoding c ≡ some n → n < 64
unfolding value
value-lt c n h = ground (arith, h)

symbol-value : (c n : ℕ) → value url_encoding c ≡ some n → symbol url_encoding n ≡ c
unfolding value symbol
symbol-value c n h = ground (arith, h)

pub value-IsSymbol : (c n : ℕ) → value url_encoding c ≡ some n → IsSymbol c × (c ≢ b'=')
unfolding value
value-IsSymbol c n h = ground (arith, h)

other_value :
    (c n m : ℕ) → value url_encoding c ≡ some n → some (symbol url_encoding m) ≢ some c → m ≢ n
other_value c n m h other e = other (ap some (ap (symbol url_encoding) e ∙ symbol-value c n h))

read_group :
    (c d f g : ℕ) (s : Text) (w x y z : ℕ) (r : List ℕ) (p q t : ℕ)
    → value url_encoding c ≡ some w
    → value url_encoding d ≡ some x
    → value url_encoding f ≡ some y
    → value url_encoding g ≡ some z
    → g ≢ b'='
    → groups url_encoding s ≡ some r
    → w * 4 + x / 16 ≡ p
    → x % 16 * 16 + y / 4 ≡ q
    → y % 4 * 64 + z ≡ t
    → groups url_encoding (c ∷ d ∷ f ∷ g ∷ s) ≡ some (p ∷ q ∷ t ∷ r)
unfolding full_group
read_group c d f g s w x y z r p q t hw hx hy hz n hr hp hq ht =
    groups_full url_encoding c d f g s n ∙ rw (hw, hx, hy, hz, hr, hp, hq, ht) refl

-- The text decodes to bytes in which a change shows.
abbrev pub Changed : List ℕ → Text → Type 0
Changed bs s = (new : List ℕ) × (groups url_encoding s ≡ some new) × Burst bs new

module _ (k n : ℕ) (is : value url_encoding k ≡ some n) where
  pub set-groups :
      (bs : List ℕ) (i : ℕ)
      → All IsByte bs
      → Whole bs
      → i < length (encode url_encoding bs)
      → get_elem? (encode url_encoding bs) i ≢ some k
      → Changed bs (set (encode url_encoding bs) i k)
  unfolding encode
  set-groups [] i h wh l other = absurd (omega arith)
  set-groups (a ∷ []) i h wh l other = absurd wh
  set-groups (a ∷ b ∷ []) i h wh l other = absurd wh
  set-groups (a ∷ b ∷ c ∷ s) zero (ha, (hb, (hc, hs))) wh l other =
      let m = other_value k n (a / 4) is other in
      (
        (n * 4 + b / 16 / 16 + a % 4) ∷ b ∷ c ∷ s,
        read_group _ _ _ _ _ n (a % 4 * 16 + b / 16) (b % 16 * 4 + c / 64) (c % 64) s _ b c is
            (value-symbol _ (omega arith)) (value-symbol _ (omega arith))
            (value-symbol _ (omega arith)) (symbol-IsGraphic (c % 64)).1 (groups-encode s hs)
            (omega arith) (omega arith) (omega arith),
        differs a b _ b (λ e. absurd (omega (arith, m, e))),
      )
  set-groups (a ∷ b ∷ c ∷ s) (suc zero) (ha, (hb, (hc, hs))) wh l other =
      let m = other_value k n (a % 4 * 16 + b / 16) is other in
      let small = value-lt k n is in
      (
        (a / 4 * 4 + n / 16) ∷ (n % 16 * 16 + b % 16) ∷ c ∷ s,
        read_group _ _ _ _ _ (a / 4) n (b % 16 * 4 + c / 64) (c % 64) s _ _ c
            (value-symbol _ (omega arith)) is (value-symbol _ (omega arith))
            (value-symbol _ (omega arith)) (symbol-IsGraphic (c % 64)).1 (groups-encode s hs)
            (omega arith) (omega arith) (omega arith),
        differs a b _ _ (λ e e'. absurd (omega (arith, m, e, e', small))),
      )
  set-groups (a ∷ b ∷ c ∷ s) (suc (suc zero)) (ha, (hb, (hc, hs))) wh l other =
      let m = other_value k n (b % 16 * 4 + c / 64) is other in
      let small = value-lt k n is in
      (
        a ∷ (b / 16 * 16 + n / 4) ∷ (n % 4 * 64 + c % 64) ∷ s,
        read_group _ _ _ _ _ (a / 4) (a % 4 * 16 + b / 16) n (c % 64) s a _ _
            (value-symbol _ (omega arith)) (value-symbol _ (omega arith)) is
            (value-symbol _ (omega arith)) (symbol-IsGraphic (c % 64)).1 (groups-encode s hs)
            (omega arith) (omega arith) (omega arith),
        later a (differs b c _ _ (λ e e'. absurd (omega (arith, m, e, e', small)))),
      )
  set-groups (a ∷ b ∷ c ∷ s) (suc (suc (suc zero))) (ha, (hb, (hc, hs))) wh l other =
      let m = other_value k n (c % 64) is other in
      let small = value-lt k n is in
      (
        a ∷ b ∷ (c / 64 * 64 + n) ∷ s,
        read_group _ _ _ _ _ (a / 4) (a % 4 * 16 + b / 16) (b % 16 * 4 + c / 64) n s a b _
            (value-symbol _ (omega arith)) (value-symbol _ (omega arith))
            (value-symbol _ (omega arith)) is (value-IsSymbol k n is).1 (groups-encode s hs)
            (omega arith) (omega arith) (omega arith),
        later a (differs b c b _ (λ e e'. absurd (omega (arith, m, e', small)))),
      )
  set-groups (a ∷ b ∷ c ∷ s) (suc (suc (suc (suc i)))) (ha, (hb, (hc, hs))) wh l other =
      let (new, e, burst) = set-groups s i hs wh (omega arith) other in
      (
        a ∷ b ∷ c ∷ new,
        read_group _ _ _ _ _ (a / 4) (a % 4 * 16 + b / 16) (b % 16 * 4 + c / 64) (c % 64) new a b c
            (value-symbol _ (omega arith)) (value-symbol _ (omega arith))
            (value-symbol _ (omega arith)) (value-symbol _ (omega arith))
            (symbol-IsGraphic (c % 64)).1 e (omega arith) (omega arith) (omega arith),
        later a (later b (later c burst)),
      )

-- ===== src/Golib/Bits.antt =====
-- `|`, `^` and `<<` on unsigned words, as arithmetic.
pub mod Xor
use Prim.Native.Nat.{
  max, min, bit_and, bit_or, bit_xor, digits, bitwise, differ, bit_and-bitwise, bit_or-bitwise,
  bit_xor-bitwise,
}
use native.Mathlib.Nat.{le_refl, pow-suc}
use tonpayment.Base.{
  ℕ, zero, suc, ◌+◌, ◌*◌, ◌/◌, ◌%◌, ◌^◌, ◌≤◌, ◌<◌, ◌≡◌, refl, ap, sym, ◌∙◌, ◌-◌, arith,
}

one_more : (m n : ℕ) → suc m + n ≡ suc (m + n)
one_more m n = omega arith

-- The native operations recur on fuel: what is left over at the end changes nothing.
module _ (end_of : ℕ → ℕ) (op : ℕ → ℕ → ℕ) where
  no_digits : (fuel y : ℕ) → digits end_of op fuel 0 y ≡ end_of y
  no_digits zero y = refl
  no_digits (suc fuel) y = refl

  spare_fuel :
      (x fuel spare y : ℕ)
      → x ≤ fuel
      → digits end_of op (fuel + spare) x y ≡ digits end_of op fuel x y
  spare_fuel zero fuel spare y h = no_digits (fuel + spare) y ∙ sym (no_digits fuel y)
  spare_fuel (suc x) zero spare y h = absurd (omega arith)
  spare_fuel (suc x) (suc fuel) spare y h =
      ap (λ n. digits end_of op n (suc x) y) (one_more fuel spare)
      ∙ ap (λ high. high * 2 + op (suc x % 2) (y % 2))
          (spare_fuel (suc x / 2) fuel spare (y / 2) (omega arith))

  enough_fuel : (fuel x y : ℕ) → x ≤ fuel → digits end_of op fuel x y ≡ bitwise end_of op x y
  enough_fuel fuel x y h =
      ap (λ n. digits end_of op n x y) (omega (arith, h)) ∙ spare_fuel x x (fuel - x) y (le_refl x)

  -- The lowest digit of the result, and those above it.
  last_digit :
      (x y : ℕ)
      → op (suc x % 2) (y % 2) + 2 * bitwise end_of op (suc x / 2) (y / 2)
        ≡ bitwise end_of op (suc x) y
  last_digit x y = omega (arith, enough_fuel x (suc x / 2) (y / 2) (omega arith))

bit_or_step : (x y : ℕ) → max (x % 2) (y % 2) + 2 * bit_or (x / 2) (y / 2) ≡ bit_or x y
bit_or_step zero y = simp bit_or-bitwise (omega arith)
bit_or_step (suc x) y = simp bit_or-bitwise (last_digit (λ n. n) max x y)

pub bit_xor_step : (x y : ℕ) → differ (x % 2) (y % 2) + 2 * bit_xor (x / 2) (y / 2) ≡ bit_xor x y
bit_xor_step zero y = simp bit_xor-bitwise (omega arith)
bit_xor_step (suc x) y = simp bit_xor-bitwise (last_digit (λ n. n) differ x y)

pub bit_and_step : (x y : ℕ) → min (x % 2) (y % 2) + 2 * bit_and (x / 2) (y / 2) ≡ bit_and x y
bit_and_step zero y = simp bit_and-bitwise (omega arith)
bit_and_step (suc x) y = simp bit_and-bitwise (last_digit (λ n. zero) min x y)

bit_or-zero : (n a : ℕ) → a ≤ n → bit_or a 0 ≡ a
bit_or-zero n zero h = refl
bit_or-zero zero (suc a) h = absurd (omega arith)
bit_or-zero (suc n) (suc a) h =
    omega (arith, bit_or_step (suc a) 0, bit_or-zero n (suc a / 2) (omega arith))

pub two-pow-suc : (t k : ℕ) → t * 2 ^ suc k ≡ t * 2 ^ k * 2
two-pow-suc t k = omega (arith, ap (λ (n : ℕ). t * n) (pow-suc 2 k))

half-double : (n : ℕ) → n * 2 / 2 ≡ n
half-double n = omega arith

-- The high part of a word and `k` low bits, put together by `|`.
pub bit_or_join : (k hi lo : ℕ) → lo < 2 ^ k → bit_or (hi * 2 ^ k) lo ≡ hi * 2 ^ k + lo
bit_or_join zero hi lo h = ground (arith, bit_or-zero hi hi (le_refl _))
bit_or_join (suc k) hi lo h = ground (
  arith,
  two-pow-suc hi k,
  two-pow-suc 1 k,
  half-double (hi * 2 ^ k),
  bit_or_step (hi * 2 ^ suc k) lo,
  bit_or_join k hi (lo / 2),
)

pub differ-lt : (x y : ℕ) → x < 2 → y < 2 → differ x y < 2
differ-lt zero y p q = q
differ-lt (suc x) zero p q = p
differ-lt (suc x) (suc y) p q = differ-lt x y (omega arith) (omega arith)

-- `^` of two words of `k` bits has `k` bits.
pub bit_xor-lt : (k a b : ℕ) → a < 2 ^ k → b < 2 ^ k → bit_xor a b < 2 ^ k
bit_xor-lt zero zero zero p q = omega arith
bit_xor-lt zero zero (suc b) p q = absurd (omega arith)
bit_xor-lt zero (suc a) b p q = absurd (omega arith)
bit_xor-lt (suc k) a b p q = omega (
  arith,
  two-pow-suc 1 k,
  bit_xor_step a b,
  differ-lt (a % 2) (b % 2) (omega arith) (omega arith),
  bit_xor-lt k (a / 2) (b / 2) (omega (arith, two-pow-suc 1 k)) (omega (arith, two-pow-suc 1 k)),
)

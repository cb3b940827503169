-- ===== src/Golib/Bits/Xor.antt =====
-- The laws of `^` on words, digit by digit.
use Prim.Native.Nat.{min, bit_and, bit_xor, differ, bit_xor-bitwise}
use native.Mathlib.Nat.{le_refl, one-le-pow}
use tonpayment.Base.{ℕ, zero, suc, ◌+◌, ◌*◌, ◌/◌, ◌%◌, ◌^◌, ◌≤◌, ◌<◌, ◌≡◌, refl, sym, ◌∙◌, arith}
use tonpayment.Golib.Bits.{bit_and_step, bit_xor_step, differ-lt, two-pow-suc}

differ_comm : (x y : ℕ) → differ x y ≡ differ y x
differ_comm zero zero = refl
differ_comm zero (suc y) = refl
differ_comm (suc x) zero = refl
differ_comm (suc x) (suc y) = differ_comm x y

differ_self : (x : ℕ) → differ x x ≡ 0
differ_self zero = refl
differ_self (suc x) = differ_self x

differ_assoc : (x y z : ℕ) → x < 2 → y < 2 → z < 2 → differ (differ x y) z ≡ differ x (differ y z)
differ_assoc zero y z p q r = refl
differ_assoc (suc zero) zero z p q r = refl
differ_assoc (suc zero) (suc zero) zero p q r = refl
differ_assoc (suc zero) (suc zero) (suc zero) p q r = refl
differ_assoc (suc zero) (suc zero) (suc (suc z)) p q r = absurd (omega arith)
differ_assoc (suc zero) (suc (suc y)) z p q r = absurd (omega arith)
differ_assoc (suc (suc x)) y z p q r = absurd (omega arith)

ap2 : {x x' y y' : ℕ} (f : ℕ → ℕ → ℕ) → x ≡ x' → y ≡ y' → f x y ≡ f x' y'
ap2 f p q = λ i. f (p i) (q i)

-- The lowest digit of a result, and the others.
pub bit_xor_digits :
    (a b : ℕ)
    → (bit_xor a b % 2 ≡ differ (a % 2) (b % 2)) × (bit_xor a b / 2 ≡ bit_xor (a / 2) (b / 2))
bit_xor_digits a b = (
  omega (arith, bit_xor_step a b, differ-lt (a % 2) (b % 2) (omega arith) (omega arith)),
  omega (arith, bit_xor_step a b, differ-lt (a % 2) (b % 2) (omega arith) (omega arith)),
)

comm_to : (n a b : ℕ) → a ≤ n → b ≤ n → bit_xor a b ≡ bit_xor b a
comm_to zero a b h k = ground (arith, zero_of a h, zero_of b k)
  where
    zero_of : (a : ℕ) → a ≤ 0 → a ≡ 0
    zero_of a h = omega arith
comm_to (suc n) a b h k = omega (
  arith,
  bit_xor_step a b,
  bit_xor_step b a,
  differ_comm (a % 2) (b % 2),
  comm_to n (a / 2) (b / 2) (omega arith) (omega arith),
)

pub bit_xor_comm : (a b : ℕ) → bit_xor a b ≡ bit_xor b a
bit_xor_comm a b = comm_to (a + b) a b (omega arith) (omega arith)

self_to : (n a : ℕ) → a ≤ n → bit_xor a a ≡ 0
self_to zero zero h = refl
self_to zero (suc a) h = absurd (omega arith)
self_to (suc n) a h =
    omega (arith, bit_xor_step a a, differ_self (a % 2), self_to n (a / 2) (omega arith))

pub bit_xor_self : (a : ℕ) → bit_xor a a ≡ 0
bit_xor_self a = self_to a a (le_refl a)

pub zero-bit_xor : (a : ℕ) → bit_xor 0 a ≡ a
zero-bit_xor a = simp bit_xor-bitwise

pub bit_xor-zero : (a : ℕ) → bit_xor a 0 ≡ a
bit_xor-zero a = bit_xor_comm a 0 ∙ zero-bit_xor a

assoc_to : (n a b c : ℕ) → a ≤ n → b ≤ n → c ≤ n → bit_xor (bit_xor a b) c ≡ bit_xor a (bit_xor b c)
assoc_to zero zero b c h k l = simp zero-bit_xor
assoc_to zero (suc a) b c h k l = absurd (omega arith)
assoc_to (suc n) a b c h k l =
    sym (bit_xor_step (bit_xor a b) c)
    ∙ ap2 (λ x y. differ x (c % 2) + 2 * bit_xor y (c / 2)) (bit_xor_digits a b).0
        (bit_xor_digits a b).1
    ∙ ap2 (λ x y. x + 2 * y)
        (differ_assoc (a % 2) (b % 2) (c % 2) (omega arith) (omega arith) (omega arith))
        (assoc_to n (a / 2) (b / 2) (c / 2) (omega arith) (omega arith) (omega arith))
    ∙ ap2 (λ x y. differ (a % 2) x + 2 * bit_xor (a / 2) y) (sym (bit_xor_digits b c).0)
        (sym (bit_xor_digits b c).1)
    ∙ bit_xor_step a (bit_xor b c)

pub bit_xor_assoc : (a b c : ℕ) → bit_xor (bit_xor a b) c ≡ bit_xor a (bit_xor b c)
bit_xor_assoc a b c = assoc_to (a + b + c) a b c (omega arith) (omega arith) (omega arith)

low : (k p q : ℕ) → (p * 2 ^ suc k + q) % 2 ≡ q % 2
low k p q = omega (arith, two-pow-suc p k)

high : (k p q : ℕ) → (p * 2 ^ suc k + q) / 2 ≡ p * 2 ^ k + q / 2
high k p q = omega (arith, two-pow-suc p k)

half-lt : (k q : ℕ) → q < 2 ^ suc k → q / 2 < 2 ^ k
half-lt k q h = omega (arith, two-pow-suc 1 k)

nothing : (q : ℕ) → q < 2 ^ 0 → q ≡ 0
nothing q h = omega arith

only : (p q : ℕ) → q < 2 ^ 0 → p * 2 ^ 0 + q ≡ p
only p q h = omega arith

-- Two words of a high and a low part.
pub bit_xor_join :
    (k p q r s : ℕ)
    → q < 2 ^ k
    → s < 2 ^ k
    → bit_xor (p * 2 ^ k + q) (r * 2 ^ k + s) ≡ bit_xor p r * 2 ^ k + bit_xor q s
bit_xor_join zero p q r s h l =
    ap2 bit_xor (only p q h) (only r s l)
    ∙ omega (arith, ap2 bit_xor (nothing q h) (nothing s l), zero-bit_xor 0)
bit_xor_join (suc k) p q r s h l =
    sym (bit_xor_step (p * 2 ^ suc k + q) (r * 2 ^ suc k + s))
    ∙ ap2 (λ x y. x + 2 * y) (ap2 differ (low k p q) (low k r s))
        (ap2 bit_xor (high k p q) (high k r s)
          ∙ bit_xor_join k p (q / 2) r (s / 2) (half-lt k q h) (half-lt k s l))
    ∙ omega (arith, bit_xor_step q s, two-pow-suc (bit_xor p r) k)

pub bit_xor_shift : (k a b : ℕ) → bit_xor (a * 2 ^ k) (b * 2 ^ k) ≡ bit_xor a b * 2 ^ k
bit_xor_shift k a b =
    ap2 bit_xor (padded (a * 2 ^ k)) (padded (b * 2 ^ k))
    ∙ bit_xor_join k a 0 b 0 (one-le-pow k 2 (omega arith)) (one-le-pow k 2 (omega arith))
    ∙ omega (arith, zero-bit_xor 0)
  where
    padded : (n : ℕ) → n ≡ n + 0
    padded n = omega arith

-- The bits of the high part.
pub bit_and_high :
    (k m r q : ℕ) → q < 2 ^ k → bit_and (m * 2 ^ k + q) (r * 2 ^ k + 0) ≡ bit_and m r * 2 ^ k
bit_and_high zero m r q h = ap2 bit_and (only m q h) (only r 0 (omega arith)) ∙ omega arith
bit_and_high (suc k) m r q h =
    sym (bit_and_step (m * 2 ^ suc k + q) (r * 2 ^ suc k + 0))
    ∙ ap2 (λ x y. x + 2 * y) (ap2 min (low k m q) (low k r 0) ∙ none_of (q % 2))
        (ap2 bit_and (high k m q) (high k r 0) ∙ bit_and_high k m r (q / 2) (half-lt k q h))
    ∙ omega (arith, two-pow-suc (bit_and m r) k)
  where
    none_of : (n : ℕ) → min n 0 ≡ 0
    none_of n = omega arith

-- ===== src/Tonaddr/Crc/Linear.antt =====
-- The checksum is linear for `^`, and one byte of it can be undone.
use Prim.Native.Nat.{bit_and, bit_xor}
use tonpayment.Base.{
  ℕ, zero, suc, ◌+◌, ◌*◌, ◌/◌, ◌%◌, ◌^◌, ◌<◌, ◌==◌, ◌≡◌, refl, ap, sym, ◌∙◌, arith, if◌then◌else◌,
}
use tonpayment.Golib.Bits.{bit_xor-lt}
use tonpayment.Golib.Bits.Xor.{
  bit_xor_comm, bit_xor_assoc, bit_xor_self, bit_xor-zero, zero-bit_xor, bit_xor_join, bit_and_high,
  bit_xor_shift,
}
use tonpayment.Tonaddr.Crc.{crc_bit, crc_bits, crc_bit-lt}

-- Sums of four words in another order.
pub interchange :
    (a b c d : ℕ) → bit_xor (bit_xor a b) (bit_xor c d) ≡ bit_xor (bit_xor a c) (bit_xor b d)
interchange a b c d =
    bit_xor_assoc a b (bit_xor c d)
    ∙ ap (bit_xor a)
        (sym (bit_xor_assoc b c d) ∙ ap (λ x. bit_xor x d) (bit_xor_comm b c) ∙ bit_xor_assoc c b d)
    ∙ sym (bit_xor_assoc a c (bit_xor b d))

-- What makes nothing with a word is that word.
pub eq_of_bit_xor : (a b : ℕ) → bit_xor a b ≡ 0 → a ≡ b
eq_of_bit_xor a b h =
    sym (bit_xor-zero a)
    ∙ ap (bit_xor a) (sym (bit_xor_self b))
    ∙ sym (bit_xor_assoc a b b)
    ∙ ap (λ x. bit_xor x b) h
    ∙ zero-bit_xor b

pub bit_xor-cancel : (a b c : ℕ) → bit_xor a b ≡ bit_xor a c → b ≡ c
bit_xor-cancel a b c h = eq_of_bit_xor b c (
    sym (zero-bit_xor (bit_xor b c))
    ∙ ap (λ x. bit_xor x (bit_xor b c)) (sym (bit_xor_self a))
    ∙ interchange a a b c
    ∙ ap (λ x. bit_xor x (bit_xor a c)) h
    ∙ bit_xor_self (bit_xor a c))

-- Two words that make the same of two others differ as these do.
pub bit_xor_swap : (a b c d : ℕ) → bit_xor a b ≡ bit_xor c d → bit_xor a c ≡ bit_xor b d
bit_xor_swap a b c d h =
    eq_of_bit_xor (bit_xor a c) (bit_xor b d)
      (interchange a c b d ∙ ap (λ x. bit_xor x (bit_xor c d)) h ∙ bit_xor_self (bit_xor c d))

-- One step, in arithmetic: the top bit decides whether the polynomial is added.
top_bit : (c : ℕ) → c < 2 ^ 16 → bit_and c 0x8000 ≡ bit_and (c / 2 ^ 15) 1 * 2 ^ 15
top_bit c h =
    ap (λ n. bit_and n 0x8000) (parts c) ∙ bit_and_high 15 (c / 2 ^ 15) 1 (c % 2 ^ 15) (omega arith)
  where
    parts : (c : ℕ) → c ≡ c / 2 ^ 15 * 2 ^ 15 + c % 2 ^ 15
    parts c = omega arith

crc_bit_lem : (c : ℕ) → c < 2 ^ 16 → crc_bit c ≡ bit_xor (c % 2 ^ 15 * 2) (c / 2 ^ 15 * 0x1021)
unfolding crc_bit
crc_bit_lem c h = split (c / 2 ^ 15) refl
  where
    doubled : (c : ℕ) → c * 2 % 2 ^ 16 ≡ c % 2 ^ 15 * 2
    doubled c = omega arith

    split :
        (m : ℕ)
        → c / 2 ^ 15 ≡ m
        → (if bit_and c 0x8000 == 0 then c * 2 % 2 ^ 16 else bit_xor (c * 2 % 2 ^ 16) 0x1021)
          ≡ bit_xor (c % 2 ^ 15 * 2) (m * 0x1021)
    split zero e =
        rw (top_bit c h ∙ ap (λ m. bit_and m 1 * 2 ^ 15) e, doubled c) (sym (bit_xor-zero _))
    split (suc zero) e = rw (top_bit c h ∙ ap (λ m. bit_and m 1 * 2 ^ 15) e, doubled c) refl
    split (suc (suc m)) e = absurd (omega (arith, e))

-- The lower 15 bits of a sum, and its top bit.
halves :
    (a b : ℕ)
    → (bit_xor a b % 2 ^ 15 ≡ bit_xor (a % 2 ^ 15) (b % 2 ^ 15))
      × (bit_xor a b / 2 ^ 15 ≡ bit_xor (a / 2 ^ 15) (b / 2 ^ 15))
halves a b = (omega (arith, joined, small), omega (arith, joined, small))
  where
    parts : (c : ℕ) → c ≡ c / 2 ^ 15 * 2 ^ 15 + c % 2 ^ 15
    parts c = omega arith

    joined :
        bit_xor a b ≡ bit_xor (a / 2 ^ 15) (b / 2 ^ 15) * 2 ^ 15 + bit_xor (a % 2 ^ 15) (b % 2 ^ 15)
    joined =
        (λ i. bit_xor (parts a i) (parts b i))
        ∙ bit_xor_join 15 (a / 2 ^ 15) (a % 2 ^ 15) (b / 2 ^ 15) (b % 2 ^ 15) (omega arith)
            (omega arith)

    small : bit_xor (a % 2 ^ 15) (b % 2 ^ 15) < 2 ^ 15
    small = bit_xor-lt 15 (a % 2 ^ 15) (b % 2 ^ 15) (omega arith) (omega arith)

-- The polynomial, as often as the top bits say.
times_poly : (m n : ℕ) → m < 2 → n < 2 → bit_xor m n * 0x1021 ≡ bit_xor (m * 0x1021) (n * 0x1021)
times_poly zero zero h k = refl
times_poly zero (suc zero) h k = refl
times_poly (suc zero) zero h k = refl
times_poly (suc zero) (suc zero) h k = refl
times_poly (suc (suc m)) n h k = absurd (omega arith)
times_poly m (suc (suc n)) h k = absurd (omega arith)

pub crc_bit-linear :
    (a b : ℕ) → a < 2 ^ 16 → b < 2 ^ 16 → crc_bit (bit_xor a b) ≡ bit_xor (crc_bit a) (crc_bit b)
crc_bit-linear a b h k =
    crc_bit_lem (bit_xor a b) (bit_xor-lt 16 a b h k)
    ∙ (λ i. bit_xor ((halves a b).0 i * 2) ((halves a b).1 i * 0x1021))
    ∙ (λ i.
        bit_xor (sym (bit_xor_shift 1 (a % 2 ^ 15) (b % 2 ^ 15)) i)
          (times_poly (a / 2 ^ 15) (b / 2 ^ 15) (omega arith) (omega arith) i))
    ∙ interchange (a % 2 ^ 15 * 2) (b % 2 ^ 15 * 2) (a / 2 ^ 15 * 0x1021) (b / 2 ^ 15 * 0x1021)
    ∙ (λ i. bit_xor (sym (crc_bit_lem a h) i) (sym (crc_bit_lem b k) i))

pub crc_bits-linear :
    (n a b : ℕ)
    → a < 2 ^ 16
    → b < 2 ^ 16
    → crc_bits n (bit_xor a b) ≡ bit_xor (crc_bits n a) (crc_bits n b)
unfolding crc_bits
crc_bits-linear zero a b h k = refl
crc_bits-linear (suc n) a b h k =
    ap (crc_bits n) (crc_bit-linear a b h k)
    ∙ crc_bits-linear n (crc_bit a) (crc_bit b) (crc_bit-lt a) (crc_bit-lt b)

-- The polynomial is odd: a step makes nothing of nothing only.
crc_bit-kernel : (c : ℕ) → c < 2 ^ 16 → crc_bit c ≡ 0 → c ≡ 0
crc_bit-kernel c h e = split (c / 2 ^ 15) refl (sym (crc_bit_lem c h) ∙ e)
  where
    split : (m : ℕ) → c / 2 ^ 15 ≡ m → bit_xor (c % 2 ^ 15 * 2) (c / 2 ^ 15 * 0x1021) ≡ 0 → c ≡ 0
    split m k z =
        let twice = eq_of_bit_xor (c % 2 ^ 15 * 2) (c / 2 ^ 15 * 0x1021) z in
        omega (arith, twice, h)

pub crc_bits-kernel : (n c : ℕ) → c < 2 ^ 16 → crc_bits n c ≡ 0 → c ≡ 0
unfolding crc_bits
crc_bits-kernel zero c h e = e
crc_bits-kernel (suc n) c h e = crc_bit-kernel c h (crc_bits-kernel n (crc_bit c) (crc_bit-lt c) e)

-- The steps can be undone.
pub crc_bits-injective : (n a b : ℕ) → a < 2 ^ 16 → b < 2 ^ 16 → crc_bits n a ≡ crc_bits n b → a ≡ b
crc_bits-injective n a b h k e = eq_of_bit_xor a b (
    crc_bits-kernel n (bit_xor a b) (bit_xor-lt 16 a b h k) (
      crc_bits-linear n a b h k
      ∙ ap (λ x. bit_xor x (crc_bits n b)) e
      ∙ bit_xor_self (crc_bits n b)))

-- ===== src/Tonaddr/Crc/Detects.antt =====
-- The checksum detects every change within two bytes that stand side by side.
use Prim.Native.Nat.{bit_xor, bit_or}
use tonpayment.Base.{
  ℕ, zero, suc, ◌+◌, ◌*◌, ◌%◌, ◌^◌, ◌<◌, ◌==◌, Bool, true, ◌&&◌, ◌||◌, not, List, [], ◌∷◌, ◌++◌,
  ◌≡◌, ◌≢◌, refl, ap, sym, ◌∙◌, arith, All,
}
use tonpayment.Golib.Hex.{IsByte}
use tonpayment.Golib.Base64.Mistyped.{Burst, differs, later}
use tonpayment.Golib.Bits.{bit_xor-lt, bit_or_join}
use tonpayment.Golib.Bits.Xor.{
  bit_xor_comm, bit_xor_self, bit_xor-zero, zero-bit_xor, bit_xor_join, bit_xor_shift,
}
use tonpayment.Tonaddr.Crc.{crc_bits, crc_byte, crc_from, crc16, crc_byte-lt}
use tonpayment.Tonaddr.Crc.Linear.{
  interchange, bit_xor_swap, eq_of_bit_xor, bit_xor-cancel, crc_bits-linear, crc_bits-injective,
}

-- A test of the bytes from `first` on, `count` of them.
passes : (ℕ → Bool) → ℕ → ℕ → Bool
passes test first zero = true
passes test first (suc count) = test first && passes test (suc first) count

passed :
    (test : ℕ → Bool) (k first count : ℕ)
    → k < count
    → passes test first count ≡ true
    → test (k + first) ≡ true
unfolding passes
passed test k first zero within h = absurd (omega (arith, within))
passed test zero first (suc count) within h = ground (arith, h)
passed test (suc k) first (suc count) within h =
    ap test (later_one k first) ∙ passed test k (suc first) count (omega (arith, within)) rest
  where
    later_one : (k first : ℕ) → suc k + first ≡ k + suc first
    later_one k first = omega arith

    rest : passes test (suc first) count ≡ true
    rest = ground (arith, h)

every_byte : (test : ℕ → Bool) (d : ℕ) → d < 256 → passes test 0 256 ≡ true → test d ≡ true
every_byte test d within h = ap test (omega arith) ∙ passed test d 0 256 within h

-- Eight steps from a word with an empty lower half: the lower half of what comes out is not empty
-- unless the word is nothing.
low_half_table : passes (λ d. not (crc_bits 8 (d * 2 ^ 8) % 2 ^ 8 == 0) || d == 0) 0 256 ≡ true
unfolding passes crc_bits
low_half_table = refl

-- Eight steps move a byte from the lower half to the upper.
shift_table : passes (λ d. crc_bits 8 d == d * 2 ^ 8) 0 256 ≡ true
unfolding passes crc_bits
shift_table = refl

low_half : (d : ℕ) → d < 256 → crc_bits 8 (d * 2 ^ 8) % 2 ^ 8 ≡ 0 → d ≡ 0
low_half d h e = ground (
  arith,
  e,
  every_byte (λ d. not (crc_bits 8 (d * 2 ^ 8) % 2 ^ 8 == 0) || d == 0) d h low_half_table,
)

shifted : (d : ℕ) → d < 256 → crc_bits 8 d ≡ d * 2 ^ 8
shifted d h = ground (arith, every_byte (λ d. crc_bits 8 d == d * 2 ^ 8) d h shift_table)

fits : (b : ℕ) → IsByte b → b * 2 ^ 8 % 2 ^ 16 ≡ b * 2 ^ 8
fits b h = omega arith

-- A byte meets the state in its upper half.
crc_byte_lem : (s b : ℕ) → IsByte b → crc_byte s b ≡ crc_bits 8 (bit_xor s (b * 2 ^ 8))
unfolding crc_byte
crc_byte_lem s b h = ap (λ n. crc_bits 8 (bit_xor s n)) (fits b h)

mixed-lt : (s b : ℕ) → s < 2 ^ 16 → IsByte b → bit_xor s (b * 2 ^ 8) < 2 ^ 16
mixed-lt s b h k = bit_xor-lt 16 s (b * 2 ^ 8) h (omega arith)

mixed :
    (s t b c : ℕ)
    → s < 2 ^ 16
    → t < 2 ^ 16
    → IsByte b
    → IsByte c
    → crc_byte s b ≡ crc_byte t c
    → bit_xor s (b * 2 ^ 8) ≡ bit_xor t (c * 2 ^ 8)
mixed s t b c hs ht hb hc e =
    crc_bits-injective 8 (bit_xor s (b * 2 ^ 8)) (bit_xor t (c * 2 ^ 8)) (mixed-lt s b hs hb)
      (mixed-lt t c ht hc) (sym (crc_byte_lem s b hb) ∙ e ∙ crc_byte_lem t c hc)

same_state : (s t b : ℕ) → s < 2 ^ 16 → t < 2 ^ 16 → IsByte b → crc_byte s b ≡ crc_byte t b → s ≡ t
same_state s t b hs ht hb e =
    bit_xor-cancel (b * 2 ^ 8) s t
      (bit_xor_comm (b * 2 ^ 8) s ∙ mixed s t b b hs ht hb hb e ∙ bit_xor_comm t (b * 2 ^ 8))

same_byte : (s b c : ℕ) → s < 2 ^ 16 → IsByte b → IsByte c → crc_byte s b ≡ crc_byte s c → b ≡ c
same_byte s b c hs hb hc e =
    omega (arith, bit_xor-cancel s (b * 2 ^ 8) (c * 2 ^ 8) (mixed s s b c hs hs hb hc e))

-- Two bytes are told apart by the lower half of the state behind the first, or else by the second.
first_byte :
    (s x y u v : ℕ)
    → s < 2 ^ 16
    → IsByte x
    → IsByte y
    → IsByte u
    → IsByte v
    → crc_byte (crc_byte s x) y ≡ crc_byte (crc_byte s u) v
    → x ≡ u
first_byte s x y u v hs hx hy hu hv e =
    eq_of_bit_xor x u
      (low_half (bit_xor x u) (bit_xor-lt 8 x u hx hu) (omega (arith, difference, made)))
  where
    -- The two states differ in their upper halves only.
    difference : bit_xor (crc_byte s x) (crc_byte s u) ≡ bit_xor y v * 2 ^ 8
    difference =
        bit_xor_swap (crc_byte s x) (y * 2 ^ 8) (crc_byte s u) (v * 2 ^ 8) (
          mixed (crc_byte s x) (crc_byte s u) y v (crc_byte-lt s x hs) (crc_byte-lt s u hs) hy hv e)
        ∙ bit_xor_shift 8 y v

    made : bit_xor (crc_byte s x) (crc_byte s u) ≡ crc_bits 8 (bit_xor x u * 2 ^ 8)
    made =
        (λ i. bit_xor (crc_byte_lem s x hx i) (crc_byte_lem s u hu i))
        ∙ sym (
            crc_bits-linear 8 (bit_xor s (x * 2 ^ 8)) (bit_xor s (u * 2 ^ 8)) (mixed-lt s x hs hx)
              (mixed-lt s u hs hu))
        ∙ ap (crc_bits 8) (
            interchange s (x * 2 ^ 8) s (u * 2 ^ 8)
            ∙ ap (λ n. bit_xor n (bit_xor (x * 2 ^ 8) (u * 2 ^ 8))) (bit_xor_self s)
            ∙ zero-bit_xor _
            ∙ bit_xor_shift 8 x u)

crc_from-state :
    (s t : ℕ) (l : List ℕ)
    → s < 2 ^ 16
    → t < 2 ^ 16
    → All IsByte l
    → crc_from s l ≡ crc_from t l
    → s ≡ t
unfolding crc_from
crc_from-state s t [] hs ht hl e = e
crc_from-state s t (b ∷ l) hs ht (hb, hl) e =
    same_state s t b hs ht hb (
      crc_from-state (crc_byte s b) (crc_byte t b) l (crc_byte-lt s b hs) (crc_byte-lt t b ht) hl e)

-- From the same state, two such lists never come to the same state.
pub Burst-detected :
    {l m : List ℕ} (s : ℕ)
    → s < 2 ^ 16
    → Burst l m
    → All IsByte l
    → All IsByte m
    → crc_from s l ≢ crc_from s m
unfolding crc_from
Burst-detected s hs (differs {l = l} x y u v n) (hx, (hy, hl)) (hu, (hv, _)) e = n same (
    same_byte (crc_byte s x) y v (crc_byte-lt s x hs) hy hv
      (pairs ∙ ap (λ b. crc_byte (crc_byte s b) v) (sym same)))
  where
    pairs : crc_byte (crc_byte s x) y ≡ crc_byte (crc_byte s u) v
    pairs =
        crc_from-state _ _ l (crc_byte-lt (crc_byte s x) y (crc_byte-lt s x hs))
          (crc_byte-lt (crc_byte s u) v (crc_byte-lt s u hs)) hl e

    same : x ≡ u
    same = first_byte s x y u v hs hx hy hu hv pairs
Burst-detected s hs (later b burst) (hb, hl) (_, hm) e =
    Burst-detected (crc_byte s b) (crc_byte-lt s b hs) burst hl hm e

crc_from-append : (s : ℕ) (l m : List ℕ) → crc_from s (l ++ m) ≡ crc_from (crc_from s l) m
unfolding crc_from
crc_from-append s [] m = refl
crc_from-append s (b ∷ l) m = crc_from-append (crc_byte s b) l m

-- A list whose last two bytes are the checksum of the others comes to nothing.
pub crc_from-checked :
    (body : List ℕ) (hi lo : ℕ)
    → IsByte hi
    → IsByte lo
    → crc16 body ≡ bit_or (hi * 2 ^ 8 % 2 ^ 16) lo
    → crc_from 0 (body ++ hi ∷ lo ∷ []) ≡ 0
unfolding crc16 crc_from
crc_from-checked body hi lo hh hl e =
    crc_from-append 0 body (hi ∷ lo ∷ [])
    ∙ ap (λ s. crc_byte (crc_byte s hi) lo)
        (e ∙ ap (λ n. bit_or n lo) (fits hi hh) ∙ bit_or_join 8 hi lo hl)
    ∙ ap (λ s. crc_byte s lo) (crc_byte_lem _ hi hh ∙ ap (crc_bits 8) low_left ∙ shifted lo hl)
    ∙ crc_byte_lem _ lo hl
    ∙ ap (crc_bits 8) (bit_xor_self (lo * 2 ^ 8))
    ∙ shifted 0 (omega arith)
  where
    padded : (n : ℕ) → n ≡ n + 0
    padded n = omega arith

    low_left : bit_xor (hi * 2 ^ 8 + lo) (hi * 2 ^ 8) ≡ lo
    low_left =
        ap (bit_xor (hi * 2 ^ 8 + lo)) (padded (hi * 2 ^ 8))
        ∙ bit_xor_join 8 hi lo hi 0 hl (omega arith)
        ∙ omega (arith, bit_xor_self hi, bit_xor-zero lo)

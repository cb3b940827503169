-- ===== src/Tonaddr/Crc.antt =====
-- `crc16` of internal/tonaddr/tonaddr.go: CRC-16/XMODEM over 16-bit words.
pub mod Linear
pub mod Detects
use Prim.Native.Nat.{bit_and, bit_xor}
use tonpayment.Base.{
  ℕ, zero, suc, ◌*◌, ◌%◌, ◌^◌, ◌<◌, List, [], ◌∷◌, ◌==◌, if◌then◌else◌, arith, Bool-cases, inl, inr,
  ◌≡◌, refl,
}
use tonpayment.Golib.Bits.{bit_xor-lt}

pub crc_bit : ℕ → ℕ
crc_bit crc =
    if bit_and crc 0x8000 == 0 then crc * 2 % 2 ^ 16 else bit_xor (crc * 2 % 2 ^ 16) 0x1021

pub crc_bits : ℕ → ℕ → ℕ
unfolding crc_bit
crc_bits zero crc = crc
crc_bits (suc n) crc = crc_bits n (crc_bit crc)

pub crc_byte : ℕ → ℕ → ℕ
unfolding crc_bits
crc_byte crc b = crc_bits 8 (bit_xor crc (b * 2 ^ 8 % 2 ^ 16))

pub crc_from : ℕ → List ℕ → ℕ
unfolding crc_byte
crc_from crc [] = crc
crc_from crc (b ∷ bytes) = crc_from (crc_byte crc b) bytes

unfoldable pub crc16 : List ℕ → ℕ
unfolding crc_from
crc16 bytes = crc_from 0 bytes

-- The check value of CRC-16/XMODEM: that of the digits 1 to 9.
check_value : crc16 (49 ∷ 50 ∷ 51 ∷ 52 ∷ 53 ∷ 54 ∷ 55 ∷ 56 ∷ 57 ∷ []) ≡ 0x31c3
unfolding crc16
check_value = refl

pub crc_bit-lt : (crc : ℕ) → crc_bit crc < 2 ^ 16
unfolding crc_bit
crc_bit-lt crc = elim (Bool-cases (bit_and crc 0x8000 == 0)) [
  | inl e ↦ rw e (omega arith)
  | inr e ↦ rw e (bit_xor-lt 16 (crc * 2 % 2 ^ 16) 0x1021 (omega arith) (omega arith))
]

pub crc_bits-lt : (n crc : ℕ) → crc < 2 ^ 16 → crc_bits n crc < 2 ^ 16
unfolding crc_bits
crc_bits-lt zero crc h = h
crc_bits-lt (suc n) crc h = crc_bits-lt n (crc_bit crc) (crc_bit-lt crc)

pub crc_byte-lt : (crc b : ℕ) → crc < 2 ^ 16 → crc_byte crc b < 2 ^ 16
unfolding crc_byte
crc_byte-lt crc b h =
    crc_bits-lt 8 (bit_xor crc (b * 2 ^ 8 % 2 ^ 16))
      (bit_xor-lt 16 crc (b * 2 ^ 8 % 2 ^ 16) h (omega arith))

pub crc_from-lt : (crc : ℕ) (bytes : List ℕ) → crc < 2 ^ 16 → crc_from crc bytes < 2 ^ 16
unfolding crc_from
crc_from-lt crc [] h = h
crc_from-lt crc (b ∷ bytes) h = crc_from-lt (crc_byte crc b) bytes (crc_byte-lt crc b h)

-- The checksum fits 16 bits.
pub crc16-lt : (bytes : List ℕ) → crc16 bytes < 2 ^ 16
unfolding crc16
crc16-lt bytes = crc_from-lt 0 bytes (omega arith)

-- ===== src/Tonaddr/RoundTrip.antt =====
-- An address is read back from each of its textual forms.
use Prim.Native.Nat.{bit_or}
use tonpayment.Base.{
  ℕ, ◌*◌, ◌/◌, ◌%◌, ◌^◌, ◌<◌, Bool, true, false, List, [], ◌∷◌, ◌++◌, length, take, drop, ◌≡◌, refl,
  sym, ap, ◌∙◌, arith, ◌⊎◌, inl, inr, All, All-append, ◌≢◌, length-append,
}
use tonpayment.Base.Int.{ℤ, pos, negsuc}
use tonpayment.Base.Text.{Text, is_empty}
use tonpayment.Golib.Bits.{bit_or_join}
use tonpayment.Golib.Strings.{
  trim_space_graphic, cut_at-none, contains_byte, contains_byte-none, IsGraphic,
}
use tonpayment.Golib.Hex.{IsByte}
use tonpayment.Golib.Base64
use tonpayment.Golib.Base64.{url_encoding}
use tonpayment.Golib.Base64.RoundTrip.{decode-encode, encode-IsSymbol, IsSymbol}
use tonpayment.Tonaddr.Crc.{crc16, crc16-lt}
use tonpayment.Tonaddr.{
  Address, Checked, valid, tag_byte, workchain_byte, payload, friendly_bytes, friendly, parse,
  parse_trimmed, parse_friendly, parse_bytes, parse_fields, stated_checksum, read_bounceable,
  read_workchain, is_testnet_tag,
}

-- What an `Address` value stands for: a supported workchain and 32 bytes.
pub record IsAddress (a : Address) : Type 0 where
  pub supported : (a.workchain ≡ pos 0) ⊎ (a.workchain ≡ negsuc 0)
  pub size : length a.hash ≡ 32
  pub all_bytes : All IsByte a.hash

module _ {ℓ} {A : Type ℓ} where
  take-append : (xs ys : List A) → take (length xs) (xs ++ ys) ≡ xs
  take-append [] ys = refl
  take-append (x ∷ xs) ys = ap (◌∷◌ x) (take-append xs ys)

  drop-append : (xs ys : List A) → drop (length xs) (xs ++ ys) ≡ ys
  drop-append [] ys = refl
  drop-append (x ∷ xs) ys = drop-append xs ys

pub stated_checksum-split :
    (crc : ℕ) → crc < 2 ^ 16 → stated_checksum (crc / 2 ^ 8 ∷ crc % 2 ^ 8 ∷ []) ≡ crc
unfolding stated_checksum
stated_checksum-split crc h = omega (
  arith,
  bit_or_join 8 (crc / 2 ^ 8) (crc % 2 ^ 8) (omega arith),
  ap (λ n. bit_or n (crc % 2 ^ 8)) (fits crc h),
)
  where
    fits : (crc : ℕ) → crc < 2 ^ 16 → crc / 2 ^ 8 * 2 ^ 8 % 2 ^ 16 ≡ crc / 2 ^ 8 * 2 ^ 8
    fits crc h = omega arith

read_bounceable-tag_byte : (b t : Bool) → read_bounceable (tag_byte b t) ≡ valid b
unfolding read_bounceable tag_byte
read_bounceable-tag_byte true true = refl
read_bounceable-tag_byte true false = refl
read_bounceable-tag_byte false true = refl
read_bounceable-tag_byte false false = refl

is_testnet_tag-tag_byte : (b t : Bool) → is_testnet_tag (tag_byte b t) ≡ t
unfolding is_testnet_tag tag_byte
is_testnet_tag-tag_byte true true = refl
is_testnet_tag-tag_byte true false = refl
is_testnet_tag-tag_byte false true = refl
is_testnet_tag-tag_byte false false = refl

tag_byte-IsByte : (b t : Bool) → IsByte (tag_byte b t)
unfolding tag_byte
tag_byte-IsByte true true = omega arith
tag_byte-IsByte true false = omega arith
tag_byte-IsByte false true = omega arith
tag_byte-IsByte false false = omega arith

read_workchain-workchain_byte :
    (w : ℤ) → (w ≡ pos 0) ⊎ (w ≡ negsuc 0) → read_workchain (workchain_byte w) ≡ valid w
unfolding read_workchain workchain_byte
read_workchain-workchain_byte w (inl e) = rw e
read_workchain-workchain_byte w (inr e) = rw e

workchain_byte-IsByte : (w : ℤ) → IsByte (workchain_byte w)
unfolding workchain_byte
workchain_byte-IsByte w = ground arith

module _ (a : Address) (b : Bool) (v : IsAddress a) where
  tail : List ℕ
  tail = crc16 (payload a b) / 2 ^ 8 ∷ crc16 (payload a b) % 2 ^ 8 ∷ []

  length-hash_tail : length (a.hash ++ tail) ≡ 34
  unfolding tail
  length-hash_tail = omega (arith, length-append a.hash tail, v.size)

  take-hash : take 32 (a.hash ++ tail) ≡ a.hash
  take-hash = ap (λ n. take n (a.hash ++ tail)) (sym v.size) ∙ take-append a.hash tail

  drop-hash : drop 32 (a.hash ++ tail) ≡ tail
  drop-hash = ap (λ n. drop n (a.hash ++ tail)) (sym v.size) ∙ drop-append a.hash tail

  checksum-tail :
      crc16 (tag_byte b a.testnet ∷ workchain_byte a.workchain ∷ a.hash) ≡ stated_checksum tail
  unfolding payload tail
  checksum-tail = sym (stated_checksum-split (crc16 (payload a b)) (crc16-lt (payload a b)))

  parse_fields-friendly :
      parse_fields (tag_byte b a.testnet) (workchain_byte a.workchain) (a.hash ++ tail)
      ≡ valid (record a { bounceable = b })
  unfolding parse_fields
  parse_fields-friendly =
      rw
        (
          read_bounceable-tag_byte b a.testnet,
          read_workchain-workchain_byte a.workchain v.supported,
          take-hash,
          drop-hash,
          is_testnet_tag-tag_byte b a.testnet,
        )
        (ground (arith, checksum-tail))

  parse_bytes-friendly_bytes :
      parse_bytes (friendly_bytes a b) ≡ valid (record a { bounceable = b })
  unfolding parse_bytes friendly_bytes tail
  parse_bytes-friendly_bytes = ground (arith, length-hash_tail, parse_fields-friendly)

  pub friendly_bytes-IsByte : All IsByte (friendly_bytes a b)
  unfolding friendly_bytes
  friendly_bytes-IsByte =
      All-append IsByte (payload a b)
        (crc16 (payload a b) / 2 ^ 8 ∷ crc16 (payload a b) % 2 ^ 8 ∷ [])
        (tag_byte-IsByte b a.testnet, (workchain_byte-IsByte a.workchain, v.all_bytes))
        (omega (arith, crc16-lt (payload a b)))

  parse_friendly-friendly : parse_friendly (friendly a b) ≡ valid (record a { bounceable = b })
  unfolding parse_friendly friendly
  parse_friendly-friendly =
      rw (decode-encode (friendly_bytes a b) friendly_bytes-IsByte) parse_bytes-friendly_bytes

pub All-IsGraphic : (s : Text) → All IsSymbol s → All IsGraphic s
All-IsGraphic [] h = tt
All-IsGraphic (c ∷ s) h = (h.0.0, All-IsGraphic s h.1)

pub no_colon : (s : Text) → All IsSymbol s → contains_byte b':' s ≡ false
no_colon s h = contains_byte-none b':' s (all_others s h)
  where
    all_others : (s : Text) → All IsSymbol s → All (λ c. c ≢ b':') s
    all_others [] h = tt
    all_others (c ∷ s) h = (h.0.1, all_others s h.1)

pub friendly-IsSymbol : (a : Address) (b : Bool) → All IsSymbol (friendly a b)
unfolding friendly
friendly-IsSymbol a b = encode-IsSymbol (friendly_bytes a b)

-- The friendly form holds no colon.
pub contains_byte-friendly : (a : Address) (b : Bool) → contains_byte b':' (friendly a b) ≡ false
contains_byte-friendly a b = no_colon (friendly a b) (friendly-IsSymbol a b)

encode-nonempty : (x : ℕ) (bs : List ℕ) → is_empty (Base64.encode url_encoding (x ∷ bs)) ≡ false
encode-nonempty x [] = unfold Base64.encode in refl
encode-nonempty x (y ∷ []) = unfold Base64.encode in refl
encode-nonempty x (y ∷ z ∷ bs) = unfold Base64.encode in refl

pub friendly-nonempty : (a : Address) (b : Bool) → is_empty (friendly a b) ≡ false
unfolding friendly
friendly-nonempty a b = encode-nonempty _ _

pub parse_trimmed-friendly :
    (s : Text) (r : Checked Address)
    → is_empty s ≡ false
    → contains_byte b':' s ≡ false
    → parse_friendly s ≡ r
    → parse_trimmed s ≡ r
unfolding parse_trimmed
parse_trimmed-friendly s r h k e = rw (h, cut_at-none b':' s k) e

-- The user-friendly form of an address, of a supported workchain and 32 bytes, with either bounce flag, is parsed back to that address with
-- that flag.
pub parse-friendly :
    (a : Address) (b : Bool)
    → IsAddress a
    → parse (friendly a b) ≡ valid (record a { bounceable = b })
unfolding parse
parse-friendly a b v =
    ap parse_trimmed
      (trim_space_graphic (friendly a b) (All-IsGraphic (friendly a b) (friendly-IsSymbol a b)))
    ∙ parse_trimmed-friendly (friendly a b) _ (friendly-nonempty a b) (contains_byte-friendly a b)
        (parse_friendly-friendly a b v)

-- ===== src/Tonaddr/Typos.antt =====
-- What the checksum is for: a mistyped address is refused.
use tonpayment.Base.{
  ℕ, zero, suc, ◌+◌, ◌/◌, ◌%◌, ◌^◌, ◌<◌, Bool, false, some, List, [], ◌∷◌, ◌++◌, length, take, drop,
  set, get_elem?, ◌==◌, ◌≡◌, ◌≢◌, refl, sym, ap, ◌∙◌, arith, inl, inr, All, length-append,
  Bool-cases,
}
use tonpayment.Base.Text.{Text, is_empty}
use tonpayment.Golib.Strings.{trim_space_graphic}
use tonpayment.Golib.Hex.{IsByte}
use tonpayment.Golib.Base64.{url_encoding, value, groups, decode}
use tonpayment.Golib.Base64.RoundTrip.{IsSymbol, skip_breaks-graphic}
use tonpayment.Golib.Base64.Sound.{decode_bytes}
use tonpayment.Golib.Base64.Mistyped.{Burst, Burst-length, Whole-length, value-IsSymbol, set-groups}
use tonpayment.Tonaddr.Crc.{crc16, crc16-lt, crc_from}
use tonpayment.Tonaddr.Crc.Detects.{Burst-detected, crc_from-checked}
use tonpayment.Tonaddr.{
  Address, AddressError, checksum_mismatch, Checked, valid, invalid, payload, friendly_bytes,
  friendly, parse, parse_friendly, parse_bytes, parse_fields, stated_checksum, read_bounceable,
  read_workchain, ◌>>=◌, parse_trimmed,
}
use tonpayment.Tonaddr.RoundTrip.{
  IsAddress, stated_checksum-split, friendly_bytes-IsByte, All-IsGraphic, no_colon,
  friendly-IsSymbol, friendly-nonempty, parse_trimmed-friendly,
}

abbrev IsRefused : Checked Address → Type 0
IsRefused r = (e : AddressError) × (r ≡ invalid e)

module _ (P : ℕ → Type 0) where
  All-set : (l : List ℕ) (i k : ℕ) → All P l → P k → All P (set l i k)
  All-set [] i k h p = tt
  All-set (c ∷ l) zero k h p = (p, h.1)
  All-set (c ∷ l) (suc i) k h p = (h.0, All-set l i k h.1 p)

  All-take : (n : ℕ) (l : List ℕ) → All P l → All P (take n l)
  All-take zero l h = tt
  All-take (suc n) [] h = tt
  All-take (suc n) (c ∷ l) h = (h.0, All-take n l h.1)

is_empty-set : (s : Text) (i k : ℕ) → is_empty s ≡ false → is_empty (set s i k) ≡ false
is_empty-set [] i k h = h
is_empty-set (c ∷ s) zero k h = refl
is_empty-set (c ∷ s) (suc i) k h = refl

-- 32 bytes and two more.
two_left :
    (n : ℕ) (l : List ℕ)
    → length l ≡ n + 2
    → All IsByte l
    → (hi : ℕ) × (lo : ℕ) × (drop n l ≡ hi ∷ lo ∷ [])
      × (l ≡ take n l ++ hi ∷ lo ∷ [])
      × IsByte hi
      × IsByte lo
two_left zero (hi ∷ lo ∷ []) h b = (hi, lo, refl, refl, b.0, b.1.0)
two_left zero [] h b = absurd (omega (arith, h))
two_left zero (hi ∷ []) h b = absurd (omega (arith, h))
two_left zero (hi ∷ lo ∷ c ∷ l) h b = absurd (omega (arith, h))
two_left (suc n) [] h b = absurd (omega (arith, h))
two_left (suc n) (c ∷ l) h b =
    let (hi, lo, d, e, bh, bl) = two_left n l (omega (arith, h)) b.1 in
    (hi, lo, d, ap (◌∷◌ c) e, bh, bl)

-- Bytes whose checksum does not come to nothing are refused.
unchecked_refused :
    (tag wc : ℕ) (rest : List ℕ)
    → All IsByte (tag ∷ wc ∷ rest)
    → length rest ≡ 34
    → crc_from 0 (tag ∷ wc ∷ rest) ≢ 0
    → (crc16 (tag ∷ wc ∷ take 32 rest) == stated_checksum (drop 32 rest)) ≡ false
unfolding stated_checksum
unchecked_refused tag wc rest (ht, (hw, hr)) len n =
    let (hi, lo, d, e, bh, bl) = two_left 32 rest len hr in
    elim (Bool-cases (crc16 (tag ∷ wc ∷ take 32 rest) == stated_checksum (drop 32 rest))) [
      | inr differ ↦ differ
      | inl same ↦ absurd (
          n (
            ap (λ r. crc_from 0 (tag ∷ wc ∷ r)) e
            ∙ crc_from-checked (tag ∷ wc ∷ take 32 rest) hi lo bh bl
                (ground (arith, same) ∙ ap stated_checksum d)))
    ]

bind-IsRefused :
    {A : Type 0} (m : Checked A) (f : A → Checked Address)
    → ((x : A) → IsRefused (f x))
    → IsRefused (m >>= f)
bind-IsRefused (valid x) f h = h x
bind-IsRefused (invalid e) f h = (e, refl)

fields-IsRefused :
    (tag wc : ℕ) (rest : List ℕ)
    → (crc16 (tag ∷ wc ∷ take 32 rest) == stated_checksum (drop 32 rest)) ≡ false
    → IsRefused (parse_fields tag wc rest)
unfolding parse_fields
fields-IsRefused tag wc rest h =
    bind-IsRefused (read_bounceable tag) _
      (λ b. bind-IsRefused (read_workchain wc) _ (λ w. (checksum_mismatch, rw h refl)))

bytes-IsRefused :
    (l : List ℕ) → All IsByte l → length l ≡ 36 → crc_from 0 l ≢ 0 → IsRefused (parse_bytes l)
unfolding parse_bytes
bytes-IsRefused [] h len n = absurd (omega (arith, len))
bytes-IsRefused (tag ∷ []) h len n = absurd (omega (arith, len))
bytes-IsRefused (tag ∷ wc ∷ rest) h len n =
    let (e, r) =
      fields-IsRefused tag wc rest (unchecked_refused tag wc rest h (omega (arith, len)) n) in
    (e, ground (arith, len, r))

module _ (a : Address) (b : Bool) (v : IsAddress a) where
  -- The bytes of the friendly form, checksum included, come to nothing.
  friendly_bytes-checked : crc_from 0 (friendly_bytes a b) ≡ 0
  unfolding friendly_bytes stated_checksum
  friendly_bytes-checked =
      crc_from-checked (payload a b) (crc16 (payload a b) / 2 ^ 8) (crc16 (payload a b) % 2 ^ 8)
        (omega (arith, crc16-lt (payload a b))) (omega arith)
        (sym (stated_checksum-split (crc16 (payload a b)) (crc16-lt (payload a b))))

  length-friendly_bytes : length (friendly_bytes a b) ≡ 36
  unfolding friendly_bytes payload
  length-friendly_bytes = omega (
    arith,
    v.size,
    length-append a.hash (crc16 (payload a b) / 2 ^ 8 ∷ crc16 (payload a b) % 2 ^ 8 ∷ []),
  )

  Burst-IsRefused :
      (new : List ℕ) → Burst (friendly_bytes a b) new → All IsByte new → IsRefused (parse_bytes new)
  Burst-IsRefused new burst h =
      bytes-IsRefused new h (Burst-length burst ∙ length-friendly_bytes) (λ e.
        Burst-detected 0 (omega arith) burst (friendly_bytes-IsByte a b v) h
          (friendly_bytes-checked ∙ sym e))

  module _ (i k n : ℕ) (is : value url_encoding k ≡ some n) (within : i < length (friendly a b))
      (other : get_elem? (friendly a b) i ≢ some k) where
    abbrev mistyped : Text
    mistyped = set (friendly a b) i k

    mistyped-IsSymbol : All IsSymbol mistyped
    mistyped-IsSymbol =
        All-set IsSymbol (friendly a b) i k (friendly-IsSymbol a b) (value-IsSymbol k n is).0

    mistyped-decoded :
        (new : List ℕ) × (decode url_encoding mistyped ≡ some new) × Burst (friendly_bytes a b) new
    unfolding decode friendly
    mistyped-decoded =
        let (new, e, burst) =
          set-groups k n is (friendly_bytes a b) i (friendly_bytes-IsByte a b v)
            (Whole-length 12 (friendly_bytes a b) length-friendly_bytes) within other in
        (
          new,
          ap (groups url_encoding)
                (skip_breaks-graphic mistyped (All-IsGraphic mistyped mistyped-IsSymbol))
              ∙ e,
          burst,
        )

    -- The user-friendly form of an address with one character replaced by another one of the url-safe
    -- alphabet, wherever it stands, is refused: it is never taken for an address.
    pub mistyped_refused : (e : AddressError) × (parse (set (friendly a b) i k) ≡ invalid e)
    unfolding parse parse_friendly
    mistyped_refused =
        let (new, d, burst) = mistyped-decoded in
        let (e, r) = Burst-IsRefused new burst (decode_bytes url_encoding mistyped new d) in
        (
          e,
          ap parse_trimmed (trim_space_graphic mistyped (All-IsGraphic mistyped mistyped-IsSymbol))
              ∙ parse_trimmed-friendly mistyped (invalid e)
                  (is_empty-set (friendly a b) i k (friendly-nonempty a b))
                  (no_colon mistyped mistyped-IsSymbol) (rw d r),
        )

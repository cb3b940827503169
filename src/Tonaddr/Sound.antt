-- ===== src/Tonaddr/Sound.antt =====
-- What is accepted is an address, and the canonical form is stable.
use tonpayment.Base.{
  ℕ, zero, suc, ◌+◌, ◌*◌, Bool, true, false, Option, none, some, List, [], ◌∷◌, ◌==◌, if◌then◌else◌,
  length, take, drop, ◌≡◌, refl, sym, ◌∙◌, arith, ◌⊎◌, inl, inr, All, subst, Bool-cases, ==_iff,
}
use tonpayment.Base.Int.{ℤ, pos, negsuc}
use tonpayment.Base.Text.{Text}
use tonpayment.Golib.Strings.{trim_space, cut_at}
use tonpayment.Golib.Hex
use tonpayment.Golib.Hex.{IsByte}
use tonpayment.Golib.Base64
use tonpayment.Golib.Base64.Sound.{decode_bytes}
use tonpayment.Golib.Base64.{url_encoding, std_encoding}
use tonpayment.Golib.Strconv.{parse_int}
use tonpayment.Tonaddr.Crc.{crc16}
use tonpayment.Tonaddr.RoundTrip.{IsAddress, parse-friendly}
use tonpayment.Tonaddr.{
  Address, Checked, valid, invalid, checksum_mismatch, bad_hex, to_text, parse, parse_trimmed,
  parse_friendly, parse_bytes, parse_fields, decoded_bytes, or_else, stated_checksum,
  read_bounceable, read_workchain, is_testnet_tag, parse_raw, workchain_then, raw_address,
  normalize, ◌>>=◌,
}

-- Whatever is accepted is an address.
abbrev Accepts : Checked Address → Type 0
Accepts (valid a) = IsAddress a
Accepts (invalid e) = Unit

Accepts-if :
    (b : Bool) (r r' : Checked Address)
    → (b ≡ true → Accepts r)
    → Accepts r'
    → Accepts (if b then r else r')
Accepts-if true r r' h k = h refl
Accepts-if false r r' h k = k

length-take : (n : ℕ) (xs : List ℕ) → length xs ≡ n + 2 → length (take n xs) ≡ n
length-take zero xs h = refl
length-take (suc n) [] h = absurd (omega arith)
length-take (suc n) (x ∷ xs) h = omega (arith, length-take n xs (omega arith))

take_bytes : (n : ℕ) (xs : List ℕ) → All IsByte xs → All IsByte (take n xs)
take_bytes zero xs h = tt
take_bytes (suc n) [] h = tt
take_bytes (suc n) (x ∷ xs) h = (h.0, take_bytes n xs h.1)

abbrev IsSupported : Checked ℤ → Type 0
IsSupported (valid w) = (w ≡ pos 0) ⊎ (w ≡ negsuc 0)
IsSupported (invalid e) = Unit

read_workchain-IsSupported : (b : ℕ) → IsSupported (read_workchain b)
unfolding read_workchain
read_workchain-IsSupported b = elim (Bool-cases (b == 0x00)) [
  | inl e ↦ rw e (inl refl)
  | inr e ↦ elim (Bool-cases (b == 0xff)) [ inl f ↦ rw (e, f) (inr refl) | inr f ↦ rw (e, f) tt ]
]

-- The rest of `parse_fields` once the tag and the workchain are read.
parse_fields-Accepts :
    (tag wc : ℕ) (rest : List ℕ)
    → length rest ≡ 34
    → All IsByte rest
    → Accepts (parse_fields tag wc rest)
unfolding parse_fields
parse_fields-Accepts tag wc rest len bs =
    go (read_bounceable tag) (read_workchain wc) (read_workchain-IsSupported wc)
  where
    go :
        (b : Checked Bool) (w : Checked ℤ)
        → IsSupported w
        → Accepts (
            b >>= λ bounceable. w >>= λ workchain.
            if crc16 (tag ∷ wc ∷ take 32 rest) == stated_checksum (drop 32 rest)
            then valid (record {
              workchain = workchain;
              hash = take 32 rest;
              bounceable = bounceable;
              testnet = is_testnet_tag tag;
            })
            else invalid checksum_mismatch)
    go (invalid e) w h = tt
    go (valid b) (invalid e) h = tt
    go (valid b) (valid w) h =
        Accepts-if (crc16 (tag ∷ wc ∷ take 32 rest) == stated_checksum (drop 32 rest)) _ _
          (λ _. record {
            supported = h;
            size = length-take 32 rest (omega arith);
            all_bytes = take_bytes 32 rest bs;
          })
          tt

parse_bytes-Accepts : (raw : List ℕ) → All IsByte raw → Accepts (parse_bytes raw)
unfolding parse_bytes
parse_bytes-Accepts [] h = tt
parse_bytes-Accepts (tag ∷ []) h = tt
parse_bytes-Accepts (tag ∷ wc ∷ rest) h =
    Accepts-if (length (tag ∷ wc ∷ rest) == 36) _ _
      (λ e. parse_fields-Accepts tag wc rest (ground arith) h.1.1) tt

decoded_bytes-Accepts :
    (r : Option (List ℕ))
    → ((raw : List ℕ) → r ≡ some raw → All IsByte raw)
    → Accepts (decoded_bytes r)
unfolding decoded_bytes
decoded_bytes-Accepts none h = tt
decoded_bytes-Accepts (some raw) h = parse_bytes-Accepts raw (h raw refl)

or_else-IsByte :
    (r r' : Option (List ℕ))
    → ((raw : List ℕ) → r ≡ some raw → All IsByte raw)
    → ((raw : List ℕ) → r' ≡ some raw → All IsByte raw)
    → (raw : List ℕ) → or_else r r' ≡ some raw
    → All IsByte raw
unfolding or_else
or_else-IsByte none r' h k = k
or_else-IsByte (some x) r' h k = h

parse_friendly-Accepts : (s : Text) → Accepts (parse_friendly s)
unfolding parse_friendly
parse_friendly-Accepts s =
    decoded_bytes-Accepts (or_else (Base64.decode url_encoding s) (Base64.decode std_encoding s)) (
      or_else-IsByte (Base64.decode url_encoding s) (Base64.decode std_encoding s)
        (decode_bytes url_encoding s) (decode_bytes std_encoding s))

raw_address-Accepts :
    (w : ℤ) (hex_str : Text) → (w ≡ pos 0) ⊎ (w ≡ negsuc 0) → Accepts (raw_address w hex_str)
unfolding raw_address
raw_address-Accepts w hex_str h =
    Accepts-if (length hex_str == 64) _ _
      (λ e. go (Hex.decode hex_str) (λ bs k. Hex.decode_bytes hex_str bs k) ((==_iff _ _).0 e)) tt
  where
    go :
        (r : Option (List ℕ))
        → ((bs : List ℕ) → r ≡ some bs → All IsByte bs × (length hex_str ≡ 2 * length bs))
        → length hex_str ≡ 64
        → Accepts (elim r [
          | none ↦ invalid bad_hex
          | some h ↦ valid (record { workchain = w; hash = h; bounceable = true; testnet = false })
        ])
    go none k e = tt
    go (some bs) k e = record {
      supported = h;
      size = omega (arith, (k bs refl).1);
      all_bytes = (k bs refl).0;
    }

workchain_then-Accepts : (w : Option ℤ) (hex_str : Text) → Accepts (workchain_then w hex_str)
unfolding workchain_then
workchain_then-Accepts none hex_str = tt
workchain_then-Accepts (some (pos zero)) hex_str = raw_address-Accepts (pos 0) hex_str (inl refl)
workchain_then-Accepts (some (pos (suc n))) hex_str = tt
workchain_then-Accepts (some (negsuc zero)) hex_str =
    raw_address-Accepts (negsuc 0) hex_str (inr refl)
workchain_then-Accepts (some (negsuc (suc n))) hex_str = tt

parse_trimmed-Accepts : (s : Text) → Accepts (parse_trimmed s)
unfolding parse_trimmed
parse_trimmed-Accepts [] = tt
parse_trimmed-Accepts (c ∷ s) = go (cut_at b':' (c ∷ s))
  where
    go :
        (r : Option (Text × Text))
        → Accepts (elim r [
          | some (wc_str, hex_str) ↦ parse_raw wc_str hex_str
          | none ↦ parse_friendly (c ∷ s)
        ])
    go none = parse_friendly-Accepts (c ∷ s)
    go (some (wc_str, hex_str)) =
        unfold parse_raw in workchain_then-Accepts (parse_int 32 wc_str) hex_str

-- Every text that `Parse` accepts yields a supported workchain and a hash of 32 bytes.
pub parse-IsAddress : (s : Text) (a : Address) → parse s ≡ valid a → IsAddress a
unfolding parse
parse-IsAddress s a h = subst Accepts h (parse_trimmed-Accepts (trim_space s))

pub valid-injective : {A : Type 0} {a b : A} → valid a ≡ valid b → a ≡ b
valid-injective h = cc

pub >>=-eq-valid :
    {A B : Type 0} (m : Checked A) (f : A → Checked B) {b : B}
    → (m >>= f) ≡ valid b
    → (a : A) × (m ≡ valid a) × (f a ≡ valid b)
>>=-eq-valid (valid a) f h = (a, refl, h)
>>=-eq-valid (invalid e) f h = cc

-- The canonical form of an address parses to it.
pub parse-to_text : (a : Address) → IsAddress a → parse (to_text a) ≡ valid a
unfolding to_text
parse-to_text a v = parse-friendly a a.bounceable v

-- `Normalize` is stable: the form that it gives for any text normalizes to itself, and names the same
-- address as the text did.
pub normalize_stable :
    (s t : Text) → normalize s ≡ valid t → (normalize t ≡ valid t) × (parse t ≡ parse s)
unfolding normalize
normalize_stable s t h =
    let (a, e, f) = >>=-eq-valid (parse s) (λ a. valid (to_text a)) h in
    let back = parse-to_text a (parse-IsAddress s a e) in
    subst (λ t. ((parse t >>= λ a. valid (to_text a)) ≡ valid t) × (parse t ≡ parse s))
      (valid-injective f) (rw back refl, back ∙ sym e)

-- ===== src/Tonaddr/Network.antt =====
-- The network check of `NormalizeOnNetwork`, and raw addresses, which carry no network tag.
use tonpayment.Base.{
  ℕ, ◌/◌, ◌%◌, Bool, true, false, not, ◌&&◌, List, [], ◌∷◌, ◌++◌, if◌then◌else◌, length, ◌≡◌, refl,
  sym, ap, ◌∙◌, arith, ◌⊎◌, inl, inr, All, All-append, subst, Bool-cases,
}
use tonpayment.Base.Int.{ℤ, pos, negsuc}
use tonpayment.Base.Text.{Text, codes, is_empty}
use tonpayment.Golib.Strings.{
  trim_space_graphic, cut_at-append, contains_byte, contains_byte-append, IsGraphic,
}
use tonpayment.Golib.Hex
use tonpayment.Golib.Hex.{IsByte}
use tonpayment.Golib.Strconv.{parse_int, format_int}
use tonpayment.Tonaddr.RoundTrip.{IsAddress, parse-friendly, contains_byte-friendly}
use tonpayment.Tonaddr.Sound.{parse-IsAddress, parse-to_text, >>=-eq-valid, valid-injective}
use tonpayment.Tonaddr.{
  Address, valid, invalid, AddressError, wrong_network, to_text, raw, parse, parse_trimmed,
  parse_raw, raw_address, normalize_on_network, same_bool,
}

abbrev flagless : Address → Address
flagless a = record a { bounceable = true; testnet = false }

parse_trimmed-raw :
    (w h : Text)
    → contains_byte b':' w ≡ false
    → is_empty (w ++ b':' ∷ h) ≡ false
    → parse_trimmed (w ++ b':' ∷ h) ≡ parse_raw w h
unfolding parse_trimmed
parse_trimmed-raw w h k e = rw (e, cut_at-append b':' w h k)

raw_address-encode :
    (w : ℤ) (h : List ℕ)
    → length h ≡ 32
    → All IsByte h
    → raw_address w (Hex.encode h)
      ≡ valid (record { workchain = w; hash = h; bounceable = true; testnet = false })
unfolding raw_address
raw_address-encode w h len bs = ground (arith, Hex.length-encode h, Hex.decode-encode h bs)

encode-IsGraphic : (h : List ℕ) → All IsByte h → All IsGraphic (Hex.encode h)
unfolding Hex.encode
encode-IsGraphic [] k = tt
encode-IsGraphic (b ∷ h) k = (
  omega (arith, Hex.hex_digit_bounds (b / 16) (omega arith)),
  (omega (arith, Hex.hex_digit_bounds (b % 16) (omega arith)), encode-IsGraphic h k.1),
)

invalid-ne-valid : {A : Type 0} {a : A} (e : AddressError) → invalid e ≡ valid a → ⊥
invalid-ne-valid e h = cc

abbrev plain_address : ℤ → List ℕ → Address
plain_address w h = record { workchain = w; hash = h; bounceable = true; testnet = false }

module _ (w : ℤ) (p : Text) (h : List ℕ) (graphic : All IsGraphic p)
    (plain : contains_byte b':' p ≡ false) (nonempty : is_empty (p ++ b':' ∷ Hex.encode h) ≡ false)
    (number : parse_raw p (Hex.encode h) ≡ raw_address w (Hex.encode h)) (size : length h ≡ 32)
    (all_bytes : All IsByte h) where
  parse-prefixed : parse (p ++ b':' ∷ Hex.encode h) ≡ valid (plain_address w h)
  unfolding parse
  parse-prefixed =
      ap parse_trimmed (
        trim_space_graphic (p ++ b':' ∷ Hex.encode h) (
          All-append IsGraphic p (b':' ∷ Hex.encode h) graphic
            (omega arith, encode-IsGraphic h all_bytes)))
      ∙ parse_trimmed-raw p (Hex.encode h) plain nonempty
      ∙ number
      ∙ raw_address-encode w h size all_bytes

parse-raw_form :
    (w : ℤ) (h : List ℕ)
    → (w ≡ pos 0) ⊎ (w ≡ negsuc 0)
    → length h ≡ 32
    → All IsByte h
    → parse (format_int w ++ b':' ∷ Hex.encode h) ≡ valid (plain_address w h)
unfolding format_int
parse-raw_form w h (inl e) size all_bytes = rw e (
    parse-prefixed (pos 0) (codes "0") h (omega arith) (unfold contains_byte in refl) refl
      (unfold parse_raw parse_int in refl) size all_bytes)
parse-raw_form w h (inr e) size all_bytes = rw e (
    parse-prefixed (negsuc 0) (codes "-1") h (omega arith) (unfold contains_byte in refl) refl
      (unfold parse_raw parse_int in refl) size all_bytes)

-- The raw form of an address, of a supported workchain and 32 bytes, is parsed back to its workchain and hash, bounceable and on mainnet.
pub parse-raw : (a : Address) → IsAddress a → parse (raw a) ≡ valid (flagless a)
unfolding raw
parse-raw a v = parse-raw_form a.workchain a.hash v.supported v.size v.all_bytes

contains_byte-raw : (a : Address) → contains_byte b':' (raw a) ≡ true
unfolding raw
contains_byte-raw a = contains_byte-append b':' (format_int a.workchain) (Hex.encode a.hash)

same_bool-eq : (a b : Bool) → not (same_bool a b) ≡ false → a ≡ b
unfolding same_bool
same_bool-eq true true h = refl
same_bool-eq true false h = cc
same_bool-eq false true h = cc
same_bool-eq false false h = refl

-- A text without a colon is accepted for a network only if its tag is of that network, and the
-- canonical form names the same address.
pub network_enforced :
    (s t : Text) (want : Bool)
    → contains_byte b':' s ≡ false
    → normalize_on_network s want ≡ valid t
    → (a : Address) × (parse s ≡ valid a) × (a.testnet ≡ want) × (parse t ≡ valid a)
unfolding normalize_on_network
network_enforced s t want plain h =
    let (a, e, f) = >>=-eq-valid (parse s) _ h in
    let (same, canonical) = passes a f in
    (a, e, same, subst (λ u. parse u ≡ valid a) canonical (parse-to_text a (parse-IsAddress s a e)))
  where
    passes :
        (a : Address)
        → (if not (contains_byte b':' s) && not (same_bool a.testnet want)
            then invalid wrong_network
            else valid (to_text a))
          ≡ valid t
        → (a.testnet ≡ want) × (to_text a ≡ t)
    passes a f = elim (Bool-cases (not (same_bool a.testnet want))) [
      | inl k ↦ absurd (invalid-ne-valid wrong_network (rw (plain, k) at f))
      | inr k ↦ (same_bool-eq a.testnet want k, valid-injective (rw (plain, k) at f))
    ]

-- On a testnet service the raw form of an address is accepted, but the canonical form that is stored
-- for it carries the mainnet tag: the same check refuses it.
pub raw_on_testnet :
    (a : Address)
    → IsAddress a
    → (normalize_on_network (raw a) true ≡ valid (to_text (flagless a)))
      × (normalize_on_network (to_text (flagless a)) true ≡ invalid wrong_network)
unfolding normalize_on_network same_bool to_text
raw_on_testnet a v = (
  rw (parse-raw a v, contains_byte-raw a),
  rw (
    parse-friendly (flagless a) true
        (record { supported = v.supported; size = v.size; all_bytes = v.all_bytes }),
    contains_byte-friendly (flagless a) true,
  ),
)

-- Two addresses of one account: what the bounce flag and the network tag do not change.
abbrev pub SameAccount : Address → Address → Type 0
SameAccount a b = (a.workchain ≡ b.workchain) × (a.hash ≡ b.hash)

-- Two addresses, each of a supported workchain and 32 bytes, that share their raw form are of one
-- account.
pub raw-SameAccount : (a b : Address) → IsAddress a → IsAddress b → raw a ≡ raw b → SameAccount a b
raw-SameAccount a b v w e =
    let same = valid-injective (sym (parse-raw a v) ∙ ap parse e ∙ parse-raw b w) in
    (ap (λ (x : Address). x.workchain) same, ap (λ (x : Address). x.hash) same)

pub SameAccount-raw : (a b : Address) → SameAccount a b → raw a ≡ raw b
unfolding raw
SameAccount-raw a b (e, f) = rw (e, f)

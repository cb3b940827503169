-- ===== src/Tonaddr/Tests.antt =====
-- Addresses of internal/tonaddr/tonaddr_test.go and what the theorems say of them.
use tonpayment.Base.{
  ℕ, true, false, List, [], ◌∷◌, some, ◌<◌, length, set, get_elem?, ◌≡◌, ◌≢◌, subst, refl, inr,
  arith,
}
use tonpayment.Base.Int.{negsuc}
use tonpayment.Base.Text.{Text, codes}
use tonpayment.Golib.Strings.{contains_byte, trim_space, cut_at}
use tonpayment.Golib.Base64
use tonpayment.Golib.Base64.{url_encoding, value}
use tonpayment.Golib.Strconv.{parse_int, format_int}
use tonpayment.Golib.Hex
use tonpayment.Tonaddr.Crc.{crc16}
use tonpayment.Tonaddr.{
  Address, AddressError, valid, invalid, wrong_network, parse, friendly, to_text, raw, normalize,
  normalize_on_network, is_valid,
}
use tonpayment.Tonaddr.RoundTrip.{IsAddress, parse-friendly}
use tonpayment.Tonaddr.Sound.{parse-IsAddress, normalize_stable}
use tonpayment.Tonaddr.Typos.{mistyped_refused}
use tonpayment.Tonaddr.Network.{parse-raw, network_enforced, raw_on_testnet}

abbrev threes : List ℕ
threes =
    0x33 ∷ 0x33 ∷ 0x33 ∷ 0x33 ∷ 0x33 ∷ 0x33 ∷ 0x33 ∷ 0x33 ∷ 0x33 ∷ 0x33 ∷ 0x33 ∷ 0x33 ∷ 0x33 ∷ 0x33
    ∷ 0x33 ∷ 0x33 ∷ 0x33 ∷ 0x33 ∷ 0x33 ∷ 0x33 ∷ 0x33 ∷ 0x33 ∷ 0x33 ∷ 0x33 ∷ 0x33 ∷ 0x33 ∷ 0x33
    ∷ 0x33 ∷ 0x33 ∷ 0x33 ∷ 0x33 ∷ 0x33 ∷ []

-- The masterchain address whose hash is 32 bytes of 0x33.
abbrev pub masterchain : Address
masterchain = record { workchain = negsuc 0; hash = threes; bounceable = true; testnet = false }

masterchain-IsAddress : IsAddress masterchain
masterchain-IsAddress = record { supported = inr refl; size = refl; all_bytes = omega arith }

abbrev pub masterchain_text : Text
masterchain_text = codes "Ef8zMzMzMzMzMzMzMzMzMzMzMzMzMzMzMzMzMzMzMzMzM0vF"

masterchain_form : to_text masterchain ≡ masterchain_text
unfolding to_text Base64.encode crc16
masterchain_form = refl

pub parse_text : parse masterchain_text ≡ valid masterchain
unfolding parse trim_space cut_at Base64.decode crc16
parse_text = refl

-- White space around an address is dropped; a wrong checksum and a malformed raw form are refused.
standard_text :
    parse (codes "  Ef8zMzMzMzMzMzMzMzMzMzMzMzMzMzMzMzMzMzMzMzMzM0vF\n") ≡ valid masterchain
unfolding parse trim_space cut_at Base64.decode crc16
standard_text = refl

corrupted : is_valid (codes "Ef8zMzMzMzMzMzMzMzMzMzMzMzMzMzMzMzMzMzMzMzMzM0vG") ≡ false
unfolding is_valid parse trim_space cut_at Base64.decode crc16
corrupted = refl

-- The last character of the text, `F`, is mistyped as `G`.
typo_value : value url_encoding b'G' ≡ some 6
unfolding value
typo_value = refl

typo_place : 47 < length (friendly masterchain true)
unfolding friendly Base64.encode crc16
typo_place = omega arith

typo_other : get_elem? (friendly masterchain true) 47 ≢ some b'G'
unfolding friendly Base64.encode crc16
typo_other = ground arith

mistyped_refused_example :
    (e : AddressError) × (parse (set (friendly masterchain true) 47 b'G') ≡ invalid e)
mistyped_refused_example =
    mistyped_refused masterchain true masterchain-IsAddress 47 b'G' 6 typo_value typo_place
      typo_other

short_hash : is_valid (codes "0:xyz") ≡ false
unfolding is_valid parse trim_space cut_at parse_int
short_hash = refl

parse-friendly_example :
    parse (friendly masterchain false) ≡ valid (record masterchain { bounceable = false })
parse-friendly_example = parse-friendly masterchain false masterchain-IsAddress

parse-IsAddress_example : IsAddress masterchain
parse-IsAddress_example = parse-IsAddress masterchain_text masterchain parse_text

normalize_text : normalize masterchain_text ≡ valid masterchain_text
unfolding normalize
normalize_text = rw (parse_text, masterchain_form) refl

normalize_stable_example :
    (normalize masterchain_text ≡ valid masterchain_text)
    × (parse masterchain_text ≡ parse masterchain_text)
normalize_stable_example = normalize_stable masterchain_text masterchain_text normalize_text

parse-raw_example :
    parse (raw masterchain) ≡ valid (record masterchain { bounceable = true; testnet = false })
parse-raw_example = parse-raw masterchain masterchain-IsAddress

no_colon : contains_byte b':' masterchain_text ≡ false
unfolding contains_byte
no_colon = refl

pub on_mainnet : normalize_on_network masterchain_text false ≡ valid masterchain_text
unfolding normalize_on_network contains_byte
on_mainnet = rw (parse_text, masterchain_form) refl

network_enforced_example :
    (a : Address) × (parse masterchain_text ≡ valid a)
    × (a.testnet ≡ false)
    × (parse masterchain_text ≡ valid a)
network_enforced_example =
    network_enforced masterchain_text masterchain_text false no_colon on_mainnet

raw_on_testnet_example :
    (normalize_on_network (raw masterchain) true ≡ valid (to_text masterchain))
    × (normalize_on_network (to_text masterchain) true ≡ invalid wrong_network)
raw_on_testnet_example = raw_on_testnet masterchain masterchain-IsAddress

abbrev pub masterchain_raw : Text
masterchain_raw = codes "-1:3333333333333333333333333333333333333333333333333333333333333333"

raw_form : raw masterchain ≡ masterchain_raw
unfolding raw format_int Hex.encode
raw_form = refl

pub parse_raw_text : parse masterchain_raw ≡ valid masterchain
parse_raw_text = subst (λ s. parse s ≡ valid masterchain) raw_form parse-raw_example

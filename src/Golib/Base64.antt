-- ===== src/Golib/Base64.antt =====
-- Padded base64, `base64.URLEncoding` and `base64.StdEncoding`.
pub mod RoundTrip
pub mod Sound
pub mod Mistyped
use tonpayment.Base.{
  ℕ, ◌+◌, ◌-◌, ◌*◌, ◌/◌, ◌%◌, ◌<◌, Bool, true, false, ◌&&◌, ◌||◌, Option, none, some, List, [], ◌∷◌,
  ltb, leb, ◌==◌, if◌then◌else◌, ◌≡◌, ◌≢◌, refl, subst, arith, All,
}
use tonpayment.Base.Text.{Text}
use tonpayment.Golib.Hex.{IsByte}
use tonpayment.Golib.Strings.{IsGraphic}

-- The last two characters of the alphabet.
pub record Alphabet : Type 0 where
  pub at62 : ℕ
  pub at63 : ℕ

abbrev pub url_encoding : Alphabet
url_encoding = record { at62 = b'-'; at63 = b'_' }

abbrev pub std_encoding : Alphabet
std_encoding = record { at62 = b'+'; at63 = b'/' }

unfoldable pub symbol : Alphabet → ℕ → ℕ
symbol e n =
    if ltb n 26
    then n + b'A'
    else if ltb n 52
    then n - 26 + b'a'
    else if ltb n 62
    then n - 52 + b'0'
    else if n == 62
    then e.at62
    else e.at63

unfoldable pub value : Alphabet → ℕ → Option ℕ
value e c =
    if leb b'A' c && leb c b'Z'
    then some (c - b'A')
    else if leb b'a' c && leb c b'z'
    then some (c - b'a' + 26)
    else if leb b'0' c && leb c b'9'
    then some (c - b'0' + 52)
    else if c == e.at62
    then some 62
    else if c == e.at63
    then some 63
    else none

-- Three bytes are four symbols of six bits; one or two bytes at the end are filled up with `=`.
unfoldable pub encode : Alphabet → List ℕ → Text
unfolding symbol
encode e [] = []
encode e (a ∷ []) = symbol e (a / 4) ∷ symbol e (a % 4 * 16) ∷ b'=' ∷ b'=' ∷ []
encode e (a ∷ b ∷ []) =
    symbol e (a / 4) ∷ symbol e (a % 4 * 16 + b / 16) ∷ symbol e (b % 16 * 4) ∷ b'=' ∷ []
encode e (a ∷ b ∷ c ∷ s) =
    symbol e (a / 4)
    ∷ symbol e (a % 4 * 16 + b / 16)
    ∷ symbol e (b % 16 * 4 + c / 64)
    ∷ symbol e (c % 64)
    ∷ encode e s

-- Line breaks are skipped wherever they stand.
pub skip_breaks : Text → Text
skip_breaks [] = []
skip_breaks (c ∷ s) = let rest = skip_breaks s in if c == 10 || c == 13 then rest else c ∷ rest

pub full_group : Option ℕ → Option ℕ → Option ℕ → Option ℕ → Option (List ℕ) → Option (List ℕ)
full_group (some w) (some x) (some y) (some z) (some bs) =
    some ((w * 4 + x / 16) ∷ (x % 16 * 16 + y / 4) ∷ (y % 4 * 64 + z) ∷ bs)
full_group _ _ _ _ _ = none

two_bytes : Option ℕ → Option ℕ → Option ℕ → Option (List ℕ)
two_bytes (some w) (some x) (some y) = some ((w * 4 + x / 16) ∷ (x % 16 * 16 + y / 4) ∷ [])
two_bytes _ _ _ = none

one_byte : Option ℕ → Option ℕ → Option (List ℕ)
one_byte (some w) (some x) = some ((w * 4 + x / 16) ∷ [])
one_byte _ _ = none

-- The last four characters may end in `=` or `==`; no character may follow. The unused low bits of a
-- filled-up group are not looked at.
last_group : Alphabet → ℕ → ℕ → ℕ → ℕ → Option (List ℕ)
unfolding full_group two_bytes one_byte value
last_group e c d f g =
    if f == b'=' && g == b'='
    then one_byte (value e c) (value e d)
    else if g == b'='
    then two_bytes (value e c) (value e d) (value e f)
    else full_group (value e c) (value e d) (value e f) (value e g) (some [])

pub groups : Alphabet → Text → Option (List ℕ)
unfolding last_group
groups e [] = some []
groups e (c ∷ []) = none
groups e (c ∷ d ∷ []) = none
groups e (c ∷ d ∷ f ∷ []) = none
groups e (c ∷ d ∷ f ∷ g ∷ []) = last_group e c d f g
groups e (c ∷ d ∷ f ∷ g ∷ h ∷ s) =
    full_group (value e c) (value e d) (value e f) (value e g) (groups e (h ∷ s))

unfoldable pub decode : Alphabet → Text → Option (List ℕ)
unfolding groups skip_breaks
decode e s = groups e (skip_breaks s)

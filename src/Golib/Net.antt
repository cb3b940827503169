-- ===== src/Golib/Net.antt =====
-- `net.SplitHostPort`, and the value that `strconv.Atoi` returns beside its error.
use tonpayment.Base.{
  ℕ, ◌+◌, ◌-◌, ◌*◌, ◌^◌, Bool, true, false, not, ◌&&◌, ◌||◌, Option, none, some, [], ◌∷◌, ltb, leb,
  ◌==◌, if◌then◌else◌, ◌≡◌, ◌≢◌, refl, ◌++◌, All, arith,
}
use tonpayment.Base.Int.{ℤ, pos, negsuc, sub_ℕ}
use tonpayment.Base.Text.{Text, codes}
use tonpayment.Golib.Strings.{cut_at, cut_at-append, contains_byte}

has_bracket : Text → Bool
has_bracket s = contains_byte b'[' s || contains_byte b']' s

-- Behind the host in brackets stand a colon and the port.
behind_bracket : Option (Text × Text) → Option Text
unfolding has_bracket
behind_bracket none = none
behind_bracket (some (host, [])) = none
behind_bracket (some (host, c ∷ port)) =
    if c == b':'
      && not (contains_byte b':' port)
      && not (has_bracket port)
      && not (contains_byte b'[' host)
    then some host
    else none

-- A host without brackets, the only colon, and the port.
before_colon : Option (Text × Text) → Option Text
unfolding has_bracket
before_colon none = none
before_colon (some (host, port)) =
    if not (contains_byte b':' port) && not (has_bracket host) && not (has_bracket port)
    then some host
    else none

-- The host of `net.SplitHostPort`; none is an error.
unfoldable pub split_host : Text → Option Text
unfolding behind_bracket before_colon
split_host [] = none
split_host (c ∷ s) =
    if c == b'[' then behind_bracket (cut_at b']' s) else before_colon (cut_at b':' (c ∷ s))

-- `ParseUint`: the digits read behind `n`, up to the first place where they pass 64 bits.
scan_capped : ℕ → Text → Option ℕ
scan_capped n [] = some n
scan_capped n (c ∷ s) =
    let next = n * 10 + (c - b'0') in
    let rest = scan_capped next s in
    if leb b'0' c && leb c b'9' then if ltb next (2 ^ 64) then rest else some (2 ^ 64 - 1) else none

digits_capped : Text → Option ℕ
unfolding scan_capped
digits_capped [] = none
digits_capped (c ∷ s) = scan_capped 0 (c ∷ s)

signed_capped : Bool → Option ℕ → ℤ
signed_capped neg none = pos 0
signed_capped true (some n) = sub_ℕ 0 (if ltb (2 ^ 63) n then 2 ^ 63 else n)
signed_capped false (some n) = pos (if ltb n (2 ^ 63) then n else 2 ^ 63 - 1)

-- `n, _ := strconv.Atoi(s)`: 0 at a syntax error, and the nearest number at one of range.
unfoldable pub atoi_value : Text → ℤ
unfolding digits_capped signed_capped
atoi_value [] = pos 0
atoi_value (c ∷ s) =
    if c == b'-'
    then signed_capped true (digits_capped s)
    else if c == b'+'
    then signed_capped false (digits_capped s)
    else signed_capped false (digits_capped (c ∷ s))

runs :
    (split_host (codes "10.0.0.7:5555") ≡ some (codes "10.0.0.7"))
    × (split_host (codes "[::1]:80") ≡ some (codes "::1"))
    × (split_host (codes "::1:80") ≡ none)
    × (split_host (codes "[::1]") ≡ none)
    × (atoi_value (codes "512") ≡ pos 512)
    × (atoi_value (codes "-3") ≡ negsuc 2)
    × (atoi_value (codes "12x") ≡ pos 0)
    × (atoi_value (codes "99999999999999999999x") ≡ pos 9_223_372_036_854_775_807)
unfolding split_host atoi_value cut_at contains_byte
runs = (refl, refl, refl, refl, refl, refl, refl, refl)

-- A byte of a host or a port that is written without brackets.
abbrev pub IsPlain : ℕ → Type 0
IsPlain c = (c ≢ b':') × (c ≢ b'[') × (c ≢ b']')

plain_parts :
    (s : Text)
    → All IsPlain s
    → (contains_byte b':' s ≡ false)
      × (contains_byte b'[' s ≡ false)
      × (contains_byte b']' s ≡ false)
unfolding contains_byte
plain_parts [] h = (refl, refl, refl)
plain_parts (c ∷ s) h = ground (arith, plain_parts s h.1, h.0)

before_colon_plain :
    (host port : Text)
    → All IsPlain host
    → All IsPlain port
    → before_colon (some (host, port)) ≡ some host
unfolding before_colon
before_colon_plain host port hh hp = ground (arith, plain_parts host hh, plain_parts port hp)

pub split_host_plain :
    (host port : Text)
    → All IsPlain host
    → All IsPlain port
    → split_host (host ++ b':' ∷ port) ≡ some host
unfolding split_host contains_byte
split_host_plain [] port hh hp =
    rw (cut_at-append b':' [] port refl) (before_colon_plain [] port tt hp)
split_host_plain (c ∷ host) port hh hp =
    rw (unbracketed c hh.0, cut_at-append b':' (c ∷ host) port (plain_parts (c ∷ host) hh).0)
      (before_colon_plain (c ∷ host) port hh hp)
  where
    unbracketed : (c : ℕ) → IsPlain c → (c == b'[') ≡ false
    unbracketed c h = ground (arith, h.1)

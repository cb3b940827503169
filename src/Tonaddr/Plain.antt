-- ===== src/Tonaddr/Plain.antt =====
-- The characters of a canonical address need no escape in the path of a link.
use tonpayment.Base.{ℕ, Bool, true, false, not, ◌&&◌, ◌≡◌, ◌≢◌, subst, arith, All, if◌then◌else◌}
use tonpayment.Base.Text.{Text}
use tonpayment.Golib.Strings.{contains_byte}
use tonpayment.Golib.Base64.{url_encoding, symbol}
use tonpayment.Golib.Base64.RoundTrip.{encode-All}
use tonpayment.Tonaddr.{
  Address, valid, invalid, friendly, friendly_bytes, to_text, parse, normalize_on_network,
  same_bool, wrong_network,
}
use tonpayment.Tonaddr.Sound.{valid-injective, >>=-eq-valid}

-- A text that does not end the path of a link.
abbrev pub IsPath : Text → Type 0
IsPath = All (λ d. d ≢ b'?')

pub friendly-IsPath : (a : Address) (b : Bool) → IsPath (friendly a b)
unfolding friendly symbol
friendly-IsPath a b = encode-All (λ d. d ≢ b'?') no_mark (omega arith) (friendly_bytes a b)
  where
    no_mark : (n : ℕ) → symbol url_encoding n ≢ b'?'
    no_mark n = ground arith

pub canonical-IsPath :
    (text t : Text) (testnet : Bool) → normalize_on_network text testnet ≡ valid t → IsPath t
unfolding normalize_on_network to_text
canonical-IsPath text t testnet h =
    let (a, e, f) = >>=-eq-valid (parse text) _ h in
    canonical a (not (contains_byte b':' text) && not (same_bool a.testnet testnet)) f
  where
    canonical :
        (a : Address) (b : Bool)
        → (if b then invalid wrong_network else valid (to_text a)) ≡ valid t
        → IsPath t
    canonical a true f = cc
    canonical a false f = subst IsPath (valid-injective f) (friendly-IsPath a a.bounceable)

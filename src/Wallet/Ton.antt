-- ===== src/Wallet/Ton.antt =====
-- `TonVerifier` of internal/wallet/ton.go: a payment is looked up among the transactions that
-- toncenter lists for the receiving address.
pub mod Match
pub mod Confirm
pub mod Tests
use tonpayment.Base.{
  ℕ, Bool, true, false, not, ◌&&◌, ◌||◌, Option, none, some, List, [], ◌∷◌, ◌++◌, ◌==◌,
  if◌then◌else◌,
}
use tonpayment.Base.Int.{ℤ, pos, ltb_ℤ, leb_ℤ, ◌-ℤ◌}
use tonpayment.Base.Text.{Text, codes, is_empty, text_eq}
use tonpayment.Golib.Strings.{trim_right_byte}
use tonpayment.Golib.Strconv.{parse_int}
use tonpayment.Golib.Url.{query_escape}
use tonpayment.Tonaddr
use tonpayment.Tonaddr.{Address}
use tonpayment.Store.Invoices.{Invoice, Time, is_zero, hour, unix}
use tonpayment.Service.Program.{Verdict}

-- One element of `tcResponse.Result`, of which the code reads these fields.
pub record Transaction : Type 0 where
  pub utime : ℤ
  pub hash : Text
  pub destination : Text
  pub value : Text
  pub message : Text

-- The HTTP client and the JSON decoder, which are not the program's: the answer to a GET request, or
-- none if the request cannot be made or fails, and the list of transactions in a body.
pub record Toncenter : Type 0 where
  pub get : Text → Option (ℕ × Text)
  pub decode : Text → Option (List Transaction)

-- `tx.Utime > 0 && !inv.CreatedAt.IsZero() && tx.Utime < inv.CreatedAt.Add(-time.Hour).Unix()`
unfoldable pub predates : Invoice → Transaction → Bool
predates inv tx =
    ltb_ℤ (pos 0) tx.utime
    && not (is_zero inv.created_at)
    && ltb_ℤ tx.utime (unix (inv.created_at -ℤ pos hour))

-- The destination names the account of `want`, in whatever form.
unfoldable pub names_account : Address → Tonaddr.Checked Address → Bool
names_account want (Tonaddr.invalid e) = false
names_account want (Tonaddr.valid got) = text_eq (Tonaddr.raw got) (Tonaddr.raw want)

-- `wantErr == nil && destination != ""` lets a transaction pass only if its destination matches.
unfoldable pub right_account : Tonaddr.Checked Address → Text → Bool
unfolding names_account
right_account (Tonaddr.invalid e) destination = true
right_account (Tonaddr.valid want) [] = true
right_account (Tonaddr.valid want) (c ∷ destination) =
    names_account want (Tonaddr.parse (c ∷ destination))

unfoldable pub covers : ℤ → Option ℤ → Bool
covers amount none = false
covers amount (some val) = leb_ℤ amount val

-- No `continue` is taken, and the value is enough.
unfoldable pub pays : Invoice → Tonaddr.Checked Address → Transaction → Bool
pays inv want tx =
    text_eq tx.message inv.memo
    && not (predates inv tx)
    && right_account want tx.destination
    && covers inv.amount_nano (parse_int 64 tx.value)

unfoldable pub find_payment : Invoice → Tonaddr.Checked Address → List Transaction → Option Text
find_payment inv want [] = none
find_payment inv want (tx ∷ rest) =
    let later = find_payment inv want rest in if pays inv want tx then some tx.hash else later

abbrev pub error_verdict : Verdict
error_verdict = record { is_paid = false; tx_hash = []; has_failed = true }

unfoldable pub found_verdict : Option Text → Verdict
found_verdict none = record { is_paid = false; tx_hash = []; has_failed = false }
found_verdict (some hash) = record { is_paid = true; tx_hash = hash; has_failed = false }

unfoldable pub read_body : Invoice → Option (List Transaction) → Verdict
unfolding found_verdict
read_body inv none = error_verdict
read_body inv (some txs) = found_verdict (find_payment inv (Tonaddr.parse inv.pay_to) txs)

pub record TonVerifier : Type 0 where
  pub api_base : Text
  pub api_key : Text

unfoldable pub request_url : TonVerifier → Invoice → Text
request_url v inv =
    let u =
      trim_right_byte b'/' v.api_base
      ++ codes "/getTransactions?address="
      ++ query_escape inv.pay_to
      ++ codes "&limit=30&archival=true" in
    if is_empty v.api_key then u else u ++ codes "&api_key=" ++ query_escape v.api_key

module _ (net : Toncenter) where
  unfoldable pub read_response : Invoice → Option (ℕ × Text) → Verdict
  unfolding read_body
  read_response inv none = error_verdict
  read_response inv (some (status, body)) =
      if status == 200 then read_body inv (net.decode body) else error_verdict

  unfoldable pub verify : TonVerifier → Invoice → Verdict
  unfolding read_response request_url
  verify v inv =
      if is_empty inv.pay_to || is_empty inv.memo
      then error_verdict
      else read_response inv (net.get (request_url v inv))

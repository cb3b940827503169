-- ===== src/Deeplink/Confirmed.antt =====
-- From the payment link of an invoice to its confirmation: what the API shows, what a wallet sends, and
-- what the verifier finds.
use tonpayment.Base.{◌≡◌, ◌≢◌, true, false, some, List, ◌∷◌, ◌++◌, subst, All}
use tonpayment.Base.Int.{ℤ, pos, ◌-ℤ◌, ◌≤ℤ◌}
use tonpayment.Base.Text.{Text, is_empty}
use tonpayment.Golib.Hex.{IsByte}
use tonpayment.Golib.Strconv.{parse_int, Fits}
use tonpayment.Tonaddr.{Address, valid, parse}
use tonpayment.Tonaddr.Network.{SameAccount}
use tonpayment.Store.Invoices.{Invoice, hour, unix}
use tonpayment.Wallet.Ton.{Transaction, Toncenter, TonVerifier, request_url, verify}
use tonpayment.Wallet.Ton.Match.{Pays}
use tonpayment.Wallet.Ton.Confirm.{verify_complete}
use tonpayment.Deeplink.Query.{Payment, read_link, read_link-build}
use tonpayment.Http.Handlers.{invoice_view}

-- A transaction that does what a link asks for: its memo, at least its amount, and its account, in
-- whatever form toncenter names it.
pub record Follows (p : Payment) (tx : Transaction) : Type 0 where
  pub memo : tx.message ≡ p.memo
  pub enough : (v : ℤ) × (parse_int 64 tx.value ≡ some v) × (p.amount_nano ≤ℤ v)
  pub to_account :
      (want : Address)
      → parse p.pay_to ≡ valid want
      → (got : Address) × (parse tx.destination ≡ valid got) × SameAccount got want

abbrev pub asked_of : Invoice → Payment
asked_of inv = record { pay_to = inv.pay_to; amount_nano = inv.amount_nano; memo = inv.memo }

pub Follows-Pays :
    (inv : Invoice) (tx : Transaction)
    → Follows (asked_of inv) tx
    → unix (inv.created_at -ℤ pos hour) ≤ℤ tx.utime
    → Pays inv tx
Follows-Pays inv tx f late = record {
  memo = f.memo;
  timely = λ h z. late;
  to_account = λ want e n. f.to_account want e;
  enough = f.enough;
}

pub shown_link :
    (inv : Invoice) (p : Payment)
    → All (λ d. d ≢ b'?') inv.pay_to
    → Fits 64 inv.amount_nano
    → All IsByte inv.memo
    → read_link (invoice_view inv).deeplink ≡ some p
    → p ≡ asked_of inv
unfolding invoice_view
shown_link inv p plain fits bytes e =
    cc (e, read_link-build inv.pay_to inv.amount_nano inv.memo plain fits bytes)

-- Who pays what the link of an invoice says is confirmed: where the API shows an invoice with an
-- address without a question mark, an amount of 64 bits and a memo, and toncenter lists a transaction,
-- not an hour older than the invoice, that does what a wallet reads off the link, the verifier
-- confirms the invoice.
pub verify-deeplink :
    (net : Toncenter) (v : TonVerifier) (inv : Invoice) (p : Payment) (body : Text)
    (before after : List Transaction) (tx : Transaction)
    → All (λ d. d ≢ b'?') inv.pay_to
    → Fits 64 inv.amount_nano
    → All IsByte inv.memo
    → is_empty inv.pay_to ≡ false
    → is_empty inv.memo ≡ false
    → read_link (invoice_view inv).deeplink ≡ some p
    → Follows p tx
    → unix (inv.created_at -ℤ pos hour) ≤ℤ tx.utime
    → net.get (request_url v inv) ≡ some (200, body)
    → net.decode body ≡ some (before ++ tx ∷ after)
    → ((verify net v inv).is_paid ≡ true) × ((verify net v inv).has_failed ≡ false)
verify-deeplink net v inv p body before after tx plain fits bytes addr memo link follows late get
      dec =
    verify_complete net v inv body before after tx addr memo get dec (
      Follows-Pays inv tx
        (subst (λ q. Follows q tx) (shown_link inv p plain fits bytes link) follows) late)

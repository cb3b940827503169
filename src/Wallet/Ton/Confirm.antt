-- ===== src/Wallet/Ton/Confirm.antt =====
-- When the verifier confirms a payment.
use mathlib.Core.Bool.{false≢true}
use tonpayment.Base.{
  ℕ, true, false, ◌||◌, Option, none, some, List, [], ◌∷◌, ◌++◌, ◌==◌, ◌≡◌, inl, inr, refl, ap, ◌∙◌,
  Bool-cases, ==_iff,
}
use tonpayment.Base.Text.{Text, is_empty}
use tonpayment.Tonaddr.{parse}
use tonpayment.Store.Invoices.{Invoice}
use tonpayment.Service.Program.{Verdict}
use tonpayment.Wallet.Ton.{
  Transaction, Toncenter, TonVerifier, verify, read_response, read_body, found_verdict,
  find_payment, request_url,
}
use tonpayment.Wallet.Ton.Match.{Pays, FirstPayment, find_payment-FirstPayment}

-- What a confirmation rests on: a good answer that lists a paying transaction, the first of which
-- names the hash.
abbrev pub Confirms : Toncenter → TonVerifier → Invoice → Verdict → Type 0
Confirms net v inv r =
    (body : Text) × (txs : List Transaction) × (net.get (request_url v inv) ≡ some (200, body))
    × (net.decode body ≡ some txs)
    × (r.has_failed ≡ false)
    × FirstPayment inv txs (some r.tx_hash)

found_sound :
    (inv : Invoice) (txs : List Transaction) (r : Option Text)
    → FirstPayment inv txs r
    → (found_verdict r).is_paid ≡ true
    → ((found_verdict r).has_failed ≡ false) × FirstPayment inv txs (some (found_verdict r).tx_hash)
unfolding found_verdict
found_sound inv txs none f h = absurd (false≢true h)
found_sound inv txs (some hash) f h = (refl, f)

read_body_sound :
    (inv : Invoice) (r : Option (List Transaction))
    → (read_body inv r).is_paid ≡ true
    → (txs : List Transaction) × (r ≡ some txs)
      × ((read_body inv r).has_failed ≡ false)
      × FirstPayment inv txs (some (read_body inv r).tx_hash)
unfolding read_body
read_body_sound inv none h = absurd (false≢true h)
read_body_sound inv (some txs) h =
    let (ok, f) =
      found_sound inv txs (find_payment inv (parse inv.pay_to) txs)
        (find_payment-FirstPayment inv txs) h in
    (txs, refl, ok, f)

module _ (net : Toncenter) (v : TonVerifier) (inv : Invoice) where
  read_response_sound :
      (r : Option (ℕ × Text))
      → net.get (request_url v inv) ≡ r
      → (read_response net inv r).is_paid ≡ true
      → Confirms net v inv (read_response net inv r)
  unfolding read_response
  read_response_sound none e h = absurd (false≢true h)
  read_response_sound (some (status, body)) e h = elim (Bool-cases (status == 200)) [
    | inl k ↦ rw k (
        let (txs, d, ok, f) = read_body_sound inv (net.decode body) (rw k at h) in
        (body, txs, e ∙ ap (λ n. some (n, body)) ((==_iff status 200).0 k), d, ok, f))
    | inr k ↦ absurd (false≢true (rw k at h))
  ]

  -- A payment is confirmed only on an answer of status 200 that lists a transaction which pays the
  -- invoice, with the hash of the first such one; a request or an answer that fails never confirms.
  pub verify_sound : (verify net v inv).is_paid ≡ true → Confirms net v inv (verify net v inv)
  unfolding verify
  verify_sound h = elim (Bool-cases (is_empty inv.pay_to || is_empty inv.memo)) [
    | inl k ↦ absurd (false≢true (rw k at h))
    | inr k ↦ rw k (read_response_sound (net.get (request_url v inv)) refl (rw k at h))
  ]

found_complete :
    (inv : Invoice) (before after : List Transaction) (tx : Transaction) (r : Option Text)
    → FirstPayment inv (before ++ tx ∷ after) r
    → Pays inv tx
    → ((found_verdict r).is_paid ≡ true) × ((found_verdict r).has_failed ≡ false)
unfolding found_verdict
found_complete inv [] after tx none f p = absurd (f.0 p)
found_complete inv (t ∷ before) after tx none f p = found_complete inv before after tx none f.1 p
found_complete inv before after tx (some hash) f p = (refl, refl)

-- If the invoice has an address and a memo and toncenter answers with a list that holds a paying
-- transaction anywhere, the payment is confirmed.
pub verify_complete :
    (net : Toncenter) (v : TonVerifier) (inv : Invoice) (body : Text)
    (before after : List Transaction) (tx : Transaction)
    → is_empty inv.pay_to ≡ false
    → is_empty inv.memo ≡ false
    → net.get (request_url v inv) ≡ some (200, body)
    → net.decode body ≡ some (before ++ tx ∷ after)
    → Pays inv tx
    → ((verify net v inv).is_paid ≡ true) × ((verify net v inv).has_failed ≡ false)
unfolding verify
verify_complete net v inv body before after tx a m g d p =
    rw (a, m, g, d)
      (found_complete inv before after tx
        (find_payment inv (parse inv.pay_to) (before ++ tx ∷ after))
        (find_payment-FirstPayment inv (before ++ tx ∷ after)) p)

-- ===== src/Deeplink/Paid.antt =====
-- From a request for an invoice to its settlement: service.go, deeplink.go and ton.go together.
use tonpayment.Base.{
  ℕ, suc, true, false, some, List, [], ◌∷◌, ◌++◌, ◌≡◌, ◌≢◌, refl, sym, ap, ◌∙◌, subst, arith, All,
  All-append, ◌/◌, ◌%◌, ◌<◌,
}
use tonpayment.Base.Int.{ℤ, pos, ◌-ℤ◌, ◌≤ℤ◌}
use tonpayment.Base.Text.{Text, codes, is_empty}
use tonpayment.Base.Dict.{Dict}
use tonpayment.Golib.Hex
use tonpayment.Golib.Hex.{IsByte}
use tonpayment.Tonaddr.Plain.{IsPath, canonical-IsPath}
use tonpayment.Golib.Strconv.{Fits}
use tonpayment.Tonaddr.{valid}
use tonpayment.Tonaddr.Sound.{valid-injective}
use tonpayment.Store.Invoices.{Invoice, hour, unix}
use tonpayment.Store.Contract.{Store, IsStore, Keeping, SameTerms, mark_paid}
use tonpayment.Service.Program.{Service, done, Verdict}
use tonpayment.Service.Run.{World, run}
use tonpayment.Service.Status.{ledger, checked, confirmed}
use tonpayment.Service.Status.Outcomes.{Becomes, notified, check_settles}
use tonpayment.Service.Create.{resolve, create}
use tonpayment.Service.Create.Allocate.{IsFresh}
use tonpayment.Service.Create.Asked.{IsAsked}
use tonpayment.Service.Create.Outcomes.{done-IsAsked}
use tonpayment.Wallet.Memo.{memo_of}
use tonpayment.Wallet.Ton.{Transaction, Toncenter, TonVerifier, request_url, verify}
use tonpayment.Wallet.Ton.Match.{Pays}
use tonpayment.Wallet.Ton.Confirm.{Confirms, verify_sound, verify_complete}
use tonpayment.Deeplink.Query.{Payment, read_link}
use tonpayment.Deeplink.Confirmed.{Follows, asked_of, shown_link, Follows-Pays}
use tonpayment.Http.Handlers.{invoice_view}

resolve-IsPath :
    (s : Service) (pay_to t : Text)
    → IsPath s.default_pay_to
    → resolve s pay_to ≡ valid t
    → IsPath t
unfolding resolve
resolve-IsPath s [] t plain h = subst IsPath (valid-injective h) plain
resolve-IsPath s (c ∷ pay_to) t plain h = canonical-IsPath (c ∷ pay_to) t s.testnet h

encode-IsByte : (bs : List ℕ) → All IsByte bs → All IsByte (Hex.encode bs)
unfolding Hex.encode Hex.hex_digit
encode-IsByte [] h = tt
encode-IsByte (b ∷ bs) (hb, h) =
    (digit (b / 16) (omega arith), (digit (b % 16) (omega arith), encode-IsByte bs h))
  where
    digit : (n : ℕ) → n < 16 → Hex.hex_digit n < 256
    digit n h = ground arith

memo_of-IsByte : (bs : List ℕ) → All IsByte bs → All IsByte (memo_of bs)
unfolding memo_of
memo_of-IsByte bs h =
    All-append IsByte (codes "TON-") (Hex.encode bs) (omega arith) (encode-IsByte bs h)

memo_of-nonempty : (bs : List ℕ) → is_empty (memo_of bs) ≡ false
unfolding memo_of
memo_of-nonempty bs = refl

nonempty : (t : Text) → t ≢ [] → is_empty t ≡ false
nonempty [] h = absurd (h refl)
nonempty (c ∷ t) h = refl

same_asked : (a b : Invoice) → SameTerms a b → asked_of a ≡ asked_of b
same_asked a b t = λ i. record { pay_to = t.pay_to i; amount_nano = t.amount i; memo = t.memo i }

module _ {S : Type 0} (store : Store S) (Inv : S → Type 0) (how : Keeping)
    (laws : IsStore store Inv how) (s : Service) (pay_to : Text) (amount ttl : ℤ)
    (metadata : Dict Text) (w : World S) (sound : Inv w.state) (fresh : IsFresh store w)
    (bytes : (n k : ℕ) → All IsByte (w.entropy n k)) (plain : IsPath s.default_pay_to)
    (fits : Fits 64 amount) (new : Invoice)
    (created : (run store (create s pay_to amount ttl metadata) w).0 ≡ done new) where
  abbrev behind : World S
  behind = (run store (create s pay_to amount ttl metadata) w).1

  -- What creation returned is as asked, and stands in the store.
  pub new-IsAsked :
      IsAsked s pay_to amount ttl metadata w.clock w.entropy new
      × (ledger store behind new.id ≡ some (how.keep new))
  new-IsAsked =
      done-IsAsked store Inv how laws s pay_to amount ttl metadata w sound fresh new created

  memo_bytes : All IsByte new.memo
  memo_bytes =
      subst (All IsByte) (sym new-IsAsked.0.drawn.2)
        (memo_of-IsByte _ (bytes (suc new-IsAsked.0.drawn.0) 16))

  -- The invoice as the store keeps it.
  abbrev bill : Invoice
  bill = how.keep new

  terms : SameTerms bill new
  terms = laws.keeps_terms new

  -- A wallet that does what the link of the new invoice says pays the invoice that is kept.
  wallet-Pays :
      (p : Payment) (tx : Transaction)
      → read_link (invoice_view new).deeplink ≡ some p
      → Follows p tx
      → unix (bill.created_at -ℤ pos hour) ≤ℤ tx.utime
      → Pays bill tx
  wallet-Pays p tx link follows late =
      Follows-Pays bill tx
        (subst (λ q. Follows q tx)
          (shown_link new p (resolve-IsPath s pay_to new.pay_to plain new-IsAsked.0.address)
              (subst (Fits 64) (sym new-IsAsked.0.amount) fits) memo_bytes link
            ∙ sym (same_asked bill new terms))
          follows)
        late

  has_address : is_empty bill.pay_to ≡ false
  has_address = ap is_empty terms.pay_to ∙ nonempty new.pay_to new-IsAsked.0.named

  has_memo : is_empty bill.memo ≡ false
  has_memo = ap is_empty (terms.memo ∙ new-IsAsked.0.drawn.2) ∙ memo_of-nonempty _

  -- An invoice is asked for and returned, over a store that meets its contract, with ids that are not in
  -- use and drawn bytes, with an amount of 64 bits, and a default address without a question mark. Later
  -- it still stands as creation left it, a status check of it runs alone, and toncenter lists, wherever
  -- in its answer, a transaction that does what a wallet reads off the link that the API shows for the
  -- invoice and is not an hour older than it. Then the check settles it with the hash of a listed
  -- transaction that pays it, the first one: it becomes paid at the time of the check, is returned so
  -- and handed to the webhook once, and no other invoice changes; or the store reports an error, and
  -- nothing changes.
  pub created_paid :
      (net : Toncenter) (v : TonVerifier) (w' : World S)
      → Inv w'.state
      → ledger store w' new.id ≡ ledger store behind new.id
      → w'.verdict bill ≡ verify net v bill
      → (p : Payment) (body : Text) (before after : List Transaction) (tx : Transaction)
      → read_link (invoice_view new).deeplink ≡ some p
      → Follows p tx
      → unix (bill.created_at -ℤ pos hour) ≤ℤ tx.utime
      → net.get (request_url v bill) ≡ some (200, body)
      → net.decode body ≡ some (before ++ tx ∷ after)
      → Confirms net v bill (w'.verdict bill)
        × Becomes store new.id
            (mark_paid (w'.verdict bill).tx_hash w'.clock bill)
            (mark_paid (w'.verdict bill).tx_hash (how.keep_time w'.clock) bill)
            (notified store s (mark_paid (w'.verdict bill).tx_hash w'.clock bill) w'.fired)
            w'
            (checked store s new.id w')
  created_paid net v w' later stands verdict p body before after tx link follows late get dec =
      let (paid, fine) =
        verify_complete net v bill body before after tx has_address has_memo get dec
          (wallet-Pays p tx link follows late) in
      (
        subst (Confirms net v bill) (sym verdict) (verify_sound net v bill paid),
        subst
            (λ (j : Text).
              Becomes store j (mark_paid (w'.verdict bill).tx_hash w'.clock bill)
                (mark_paid (w'.verdict bill).tx_hash (how.keep_time w'.clock) bill)
                (notified store s (mark_paid (w'.verdict bill).tx_hash w'.clock bill) w'.fired) w'
                (checked store s new.id w'))
            terms.id
            (check_settles store Inv how laws s new.id bill w' later (stands ∙ new-IsAsked.1)
              (terms.status ∙ new-IsAsked.0.awaited)
              (subst (λ (x : Verdict). confirmed store x ≡ true) (sym verdict)
                (rw (fine, paid) refl))),
      )

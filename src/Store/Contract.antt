-- ===== src/Store/Contract.antt =====
-- internal/store/store.go: the persistence contract `Store`.
pub mod Once
use tonpayment.Base.{ℕ, Bool, true, false, Option, none, some, List, ◌≡◌, ◌≢◌, refl, if◌then◌else◌}
use tonpayment.Base.Text.{Text, text_eq}
use tonpayment.Store.Invoices.{Invoice, Status, pending, paid, expired, Time}

-- ErrMemoExists, and every other error that a store passes on.
pub data StoreError : Type 0 where
  memo_exists store_failure : StoreError

pub data Answer (A : Type 0) : Type 0 where
  ok : A → Answer A
  err : StoreError → Answer A

-- The interface `Store`, over the state `S` of an implementation.
pub record Store (S : Type 0) : Type 0 where
  pub create_invoice : Invoice → S → Answer (Unit {0}) × S
  pub get_invoice : Text → S → Option Invoice
  pub list_invoices : S → List Invoice
  pub list_pending : S → List Invoice
  pub claim_invoice_for_settlement : Text → Text → Time → S → Answer Bool × S
  pub expire_invoice : Text → S → Answer Bool × S
  pub pending_counts : Text → S → Answer (ℕ × ℕ)

-- What the service sees of a store: the invoice behind each id.
abbrev pub Ledger : Type 0
Ledger = Text → Option Invoice

abbrev pub SameLedger : Ledger → Ledger → Type 0
SameLedger l l' = (j : Text) → l' j ≡ l j

-- `l'` is `l` with `inv` at `id`.
abbrev pub Updated : Text → Invoice → Ledger → Ledger → Type 0
Updated id inv l l' = (j : Text) → l' j ≡ (if text_eq id j then some inv else l j)

-- No pending invoice stands at the id.
abbrev pub NotPending : Option Invoice → Type 0
NotPending none = Unit
NotPending (some inv) = inv.status ≢ pending

abbrev pub mark_paid : Text → Time → Invoice → Invoice
mark_paid tx at inv = record inv { status = paid; tx_hash = tx; paid_at = at }

abbrev pub mark_expired : Invoice → Invoice
mark_expired inv = record inv { status = expired }

-- The contract of the two claim-once transitions: a win flips a pending invoice and nothing else, a
-- loss means that there was nothing to flip, and an error changes nothing.
abbrev pub Transition : (Invoice → Invoice) → Text → Ledger → Ledger → Answer Bool → Type 0
Transition change id l l' (ok true) =
    (inv : Invoice) × (l id ≡ some inv) × (inv.status ≡ pending) × Updated id (change inv) l l'
Transition change id l l' (ok false) = NotPending (l id) × SameLedger l l'
Transition change id l l' (err e) = SameLedger l l'

-- How a store keeps what it is handed: a new invoice, and the time of a settlement, as they are read
-- back. A table may keep a time in a coarser resolution.
pub record Keeping : Type 0 where
  pub keep : Invoice → Invoice
  pub keep_time : Time → Time

-- As they are.
abbrev pub exactly : Keeping
exactly = record { keep = λ inv. inv; keep_time = λ t. t }

-- What a payment and a notification depend on is the same.
pub record SameTerms (a b : Invoice) : Type 0 where
  pub id : a.id ≡ b.id
  pub pay_to : a.pay_to ≡ b.pay_to
  pub memo : a.memo ≡ b.memo
  pub amount : a.amount_nano ≡ b.amount_nano
  pub currency : a.currency ≡ b.currency
  pub status : a.status ≡ b.status
  pub tx_hash : a.tx_hash ≡ b.tx_hash

-- The contract of `CreateInvoice` at an id that is not in use: the invoice is added as it is kept, or
-- nothing is.
abbrev pub Creation : Keeping → Invoice → Ledger → Ledger → Answer (Unit {0}) → Type 0
Creation how inv l l' (ok _) = Updated inv.id (how.keep inv) l l'
Creation how inv l l' (err e) = SameLedger l l'

-- The contract that the service relies on, for states that meet an invariant of the implementation.
pub record IsStore {S : Type 0} (store : Store S) (Inv : S → Type 0) (how : Keeping) : Type 0 where
  pub keeps_terms : (inv : Invoice) → SameTerms (how.keep inv) inv
  pub id_of :
      (s : S) (j : Text) (inv : Invoice) → Inv s → store.get_invoice j s ≡ some inv → inv.id ≡ j
  pub create_keeps : (inv : Invoice) (s : S) → Inv s → Inv (store.create_invoice inv s).1
  pub claim_keeps :
      (id tx : Text) (at : Time) (s : S)
      → Inv s
      → Inv (store.claim_invoice_for_settlement id tx at s).1
  pub expire_keeps : (id : Text) (s : S) → Inv s → Inv (store.expire_invoice id s).1
  pub creates :
      (inv : Invoice) (s : S)
      → Inv s
      → store.get_invoice inv.id s ≡ none
      → Creation how inv
          (λ j. store.get_invoice j s)
          (λ j. store.get_invoice j (store.create_invoice inv s).1)
          (store.create_invoice inv s).0
  pub claims :
      (id tx : Text) (at : Time) (s : S)
      → Inv s
      → Transition
          (mark_paid tx (how.keep_time at))
          id
          (λ j. store.get_invoice j s)
          (λ j. store.get_invoice j (store.claim_invoice_for_settlement id tx at s).1)
          (store.claim_invoice_for_settlement id tx at s).0
  pub expires :
      (id : Text) (s : S)
      → Inv s
      → Transition mark_expired id
          (λ j. store.get_invoice j s)
          (λ j. store.get_invoice j (store.expire_invoice id s).1)
          (store.expire_invoice id s).0

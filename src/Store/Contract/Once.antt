-- ===== src/Store/Contract/Once.antt =====
-- The part of the contract of a store from which it follows that an invoice is claimed once.
use tonpayment.Base.{Bool, true, false, none, some, ◌≡◌, refl}
use tonpayment.Base.Text.{Text}
use tonpayment.Store.Invoices.{Invoice, Status, pending, paid, expired, Time}
use tonpayment.Store.Contract.{
  Store, IsStore, Keeping, SameTerms, Answer, ok, err, Ledger, SameLedger, Updated, Transition,
  Creation, mark_paid, mark_expired,
}

-- What claiming once needs of a store, whatever it does to the other fields of an invoice: a
-- transition to a status wins for a pending invoice only, and a creation stores an invoice of the
-- status of the one that it is given.
abbrev pub Flip : Status → Text → Ledger → Ledger → Answer Bool → Type 0
Flip st id l l' (ok true) =
    (inv new : Invoice) × (l id ≡ some inv)
    × (inv.status ≡ pending)
    × (new.status ≡ st)
    × Updated id new l l'
Flip st id l l' (ok false) = SameLedger l l'
Flip st id l l' (err e) = SameLedger l l'

abbrev pub Arrival : Invoice → Ledger → Ledger → Answer (Unit {0}) → Type 0
Arrival inv l l' (ok _) = (new : Invoice) × (new.status ≡ inv.status) × Updated inv.id new l l'
Arrival inv l l' (err e) = SameLedger l l'

pub record ClaimsOnce {S : Type 0} (store : Store S) (Inv : S → Type 0) : Type 0 where
  pub create_keeps : (inv : Invoice) (s : S) → Inv s → Inv (store.create_invoice inv s).1
  pub claim_keeps :
      (id tx : Text) (at : Time) (s : S)
      → Inv s
      → Inv (store.claim_invoice_for_settlement id tx at s).1
  pub expire_keeps : (id : Text) (s : S) → Inv s → Inv (store.expire_invoice id s).1
  pub creates :
      (inv : Invoice) (s : S)
      → Inv s
      → store.get_invoice inv.id s ≡ none
      → Arrival inv
          (λ j. store.get_invoice j s)
          (λ j. store.get_invoice j (store.create_invoice inv s).1)
          (store.create_invoice inv s).0
  pub claims :
      (id tx : Text) (at : Time) (s : S)
      → Inv s
      → Flip paid id
          (λ j. store.get_invoice j s)
          (λ j. store.get_invoice j (store.claim_invoice_for_settlement id tx at s).1)
          (store.claim_invoice_for_settlement id tx at s).0
  pub expires :
      (id : Text) (s : S)
      → Inv s
      → Flip expired id
          (λ j. store.get_invoice j s)
          (λ j. store.get_invoice j (store.expire_invoice id s).1)
          (store.expire_invoice id s).0

Transition-Flip :
    (change : Invoice → Invoice) (st : Status) (id : Text) (l l' : Ledger) (r : Answer Bool)
    → ((inv : Invoice) → (change inv).status ≡ st)
    → Transition change id l l' r
    → Flip st id l l' r
Transition-Flip change st id l l' (ok true) to (inv, h, p, u) = (inv, change inv, h, p, to inv, u)
Transition-Flip change st id l l' (ok false) to (n, same) = same
Transition-Flip change st id l l' (err e) to same = same

Creation-Arrival :
    (how : Keeping) (inv : Invoice) (l l' : Ledger) (r : Answer (Unit {0}))
    → SameTerms (how.keep inv) inv
    → Creation how inv l l' r
    → Arrival inv l l' r
Creation-Arrival how inv l l' (ok _) terms u = (how.keep inv, terms.status, u)
Creation-Arrival how inv l l' (err e) terms same = same

-- A store that meets the contract claims once.
pub IsStore-ClaimsOnce :
    {S : Type 0} (store : Store S) (Inv : S → Type 0) (how : Keeping)
    → IsStore store Inv how
    → ClaimsOnce store Inv
IsStore-ClaimsOnce store Inv how laws = record {
  create_keeps = laws.create_keeps;
  claim_keeps = laws.claim_keeps;
  expire_keeps = laws.expire_keeps;
  creates = λ inv s v unused.
      Creation-Arrival how inv _ _ _ (laws.keeps_terms inv) (laws.creates inv s v unused);
  claims = λ id tx at s v.
      Transition-Flip (mark_paid tx (how.keep_time at)) paid id _ _ _ (λ inv. refl)
        (laws.claims id tx at s v);
  expires =
      λ id s v. Transition-Flip mark_expired expired id _ _ _ (λ inv. refl) (laws.expires id s v);
}

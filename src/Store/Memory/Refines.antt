-- ===== src/Store/Memory/Refines.antt =====
-- The in-memory store meets the contract of internal/store/store.go.
use tonpayment.Base.{none, some, ◌≡◌, refl, arith}
use tonpayment.Base.Text.{Text, text_eq_iff}
use tonpayment.Base.Dict.{lookup, lookup-insert, lookup-delete}
use tonpayment.Store.Invoices.{Invoice}
use tonpayment.Store.Files.{Files}
use tonpayment.Store.Contract.{IsStore, exactly, Creation, Transition}
use tonpayment.Store.Memory.{
  Memory, create_invoice, transition, claim_invoice_for_settlement, expire_invoice, get_invoice,
  memory_store, with_invoice,
}
use tonpayment.Store.Memory.Invariant.{
  IsIndexed, with_invoice-IsIndexed, taken_back-IsIndexed, at_id-IsIndexed, create_cases,
  transition_cases,
}

module _ (os : Files) where
  open os use {Disk}

  create-IsIndexed :
      (inv : Invoice) (s : Memory × Disk) → IsIndexed s.0 → IsIndexed (create_invoice os inv s).1.0
  create-IsIndexed inv (m, d) v =
      create_cases os (λ r. IsIndexed r.1.0) inv m d (λ _ _. v)
        (λ _ fresh. with_invoice-IsIndexed m inv v fresh)
        (λ _ fresh. taken_back-IsIndexed m inv v fresh)

  -- A change that keeps the id, the address and the memo.
  abbrev KeepsKey : (Invoice → Invoice) → Type 0
  KeepsKey change =
      (inv : Invoice)
      → ((change inv).id ≡ inv.id)
        × ((change inv).pay_to ≡ inv.pay_to)
        × ((change inv).memo ≡ inv.memo)

  transition-IsIndexed :
      (change : Invoice → Invoice) (id : Text) (s : Memory × Disk)
      → KeepsKey change
      → IsIndexed s.0
      → IsIndexed (transition os change id s).1.0
  transition-IsIndexed change id (m, d) keeps v =
      transition_cases os (λ r. IsIndexed r.1.0) change id m d (λ _. v)
        (λ cur _ h _. let (p, q, r) = keeps cur in at_id-IsIndexed m id cur (change cur) v h p q r)
        (λ _ _ _. v)

  transition-Transition :
      (change : Invoice → Invoice) (id : Text) (s : Memory × Disk)
      → Transition change id
          (λ j. get_invoice j s.0)
          (λ j. get_invoice j (transition os change id s).1.0)
          (transition os change id s).0
  unfolding get_invoice
  transition-Transition change id (m, d) =
      transition_cases os
        (λ r. Transition change id (λ j. lookup j m.invoices) (λ j. lookup j r.1.0.invoices) r.0)
        change id m d (λ n. (n, λ j. refl))
        (λ cur _ h p. (cur, h, p, λ j. lookup-insert id j (change cur) m.invoices))
        (λ _ _ _ j. refl)

  create-Creation :
      (inv : Invoice) (s : Memory × Disk)
      → get_invoice inv.id s.0 ≡ none
      → Creation exactly inv
          (λ j. get_invoice j s.0)
          (λ j. get_invoice j (create_invoice os inv s).1.0)
          (create_invoice os inv s).0
  unfolding get_invoice
  create-Creation inv (m, d) unused =
      create_cases os
        (λ r. Creation exactly inv (λ j. lookup j m.invoices) (λ j. lookup j r.1.0.invoices) r.0)
        inv m d (λ _ _ j. refl) (λ _ _ j. lookup-insert inv.id j inv m.invoices)
        (λ _ _ j. ground (
          arith,
          lookup-delete inv.id j (with_invoice inv m).invoices,
          lookup-insert inv.id j inv m.invoices,
          text_eq_iff inv.id j,
        ))

  -- The in-memory store implements the contract, whatever the disk does: creation at an unused id
  -- adds exactly that invoice or changes nothing, the two transitions flip a pending invoice at most
  -- and report truly whether they did, and ids and the memo index stay consistent.
  pub memory-IsStore : IsStore (memory_store os) (λ s. IsIndexed s.0) exactly
  unfolding memory_store claim_invoice_for_settlement expire_invoice get_invoice
  memory-IsStore = record {
    keeps_terms = λ inv. record {
      id = refl;
      pay_to = refl;
      memo = refl;
      amount = refl;
      currency = refl;
      status = refl;
      tx_hash = refl;
    };
    id_of = λ s j inv v h. v.own_id j inv h;
    create_keeps = create-IsIndexed;
    claim_keeps = λ id tx at s v. transition-IsIndexed _ id s (λ _. (refl, refl, refl)) v;
    expire_keeps = λ id s v. transition-IsIndexed _ id s (λ _. (refl, refl, refl)) v;
    creates = λ inv s _ h. create-Creation inv s h;
    claims = λ id tx at s _. transition-Transition _ id s;
    expires = λ id s _. transition-Transition _ id s;
  }

-- Two invoices of a consistent store that share the address and the memo are one invoice.
pub memo_unique :
    (m : Memory) (i j : Text) (a b : Invoice)
    → IsIndexed m
    → get_invoice i m ≡ some a
    → get_invoice j m ≡ some b
    → a.pay_to ≡ b.pay_to
    → a.memo ≡ b.memo
    → i ≡ j
unfolding get_invoice
memo_unique m i j a b v h k p q = cc (v.indexed i a h, v.indexed j b k)

-- ===== src/Store/Memory/Invariant.antt =====
-- The invariant of the in-memory store, kept by every method, whether or not the disk works.
use tonpayment.Base.{Bool, true, false, Option, none, some, ◌≡◌, ap, inl, inr, arith, Option-cases}
use tonpayment.Base.Text.{Text, text_eq_iff}
use tonpayment.Base.Dict.{
  lookup, insert, lookup-insert, lookup-delete, delete-insert, insert-insert,
}
use tonpayment.Store.Invoices.{Invoice, pending, Status-cases}
use tonpayment.Store.Files.{Files}
use tonpayment.Store.Contract.{Answer, ok, err, store_failure, memo_exists, NotPending}
use tonpayment.Store.Memory.{
  Memory, memo_key, commit, after_persist, persist, with_invoice, taken_back, at_id, create_invoice,
  transition,
}

-- Each invoice stands under its own id, and the memo index leads to it.
pub record IsIndexed (m : Memory) : Type 0 where
  pub own_id : (j : Text) (inv : Invoice) → lookup j m.invoices ≡ some inv → inv.id ≡ j
  pub indexed :
      (j : Text) (inv : Invoice)
      → lookup j m.invoices ≡ some inv
      → lookup (memo_key inv.pay_to inv.memo) m.memos ≡ some j

pub with_invoice-IsIndexed :
    (m : Memory) (inv : Invoice)
    → IsIndexed m
    → lookup (memo_key inv.pay_to inv.memo) m.memos ≡ none
    → IsIndexed (with_invoice inv m)
with_invoice-IsIndexed m inv v fresh = record {
  own_id = λ j x h.
      ground (arith, lookup-insert inv.id j inv m.invoices, text_eq_iff inv.id j, v.own_id j x);
  indexed = λ j x h. ground (
    arith,
    lookup-insert inv.id j inv m.invoices,
    lookup-insert (memo_key inv.pay_to inv.memo) (memo_key x.pay_to x.memo) inv.id m.memos,
    text_eq_iff inv.id j,
    text_eq_iff (memo_key inv.pay_to inv.memo) (memo_key x.pay_to x.memo),
    v.indexed j x,
  );
}

pub taken_back-IsIndexed :
    (m : Memory) (inv : Invoice)
    → IsIndexed m
    → lookup (memo_key inv.pay_to inv.memo) m.memos ≡ none
    → IsIndexed (taken_back inv (with_invoice inv m))
taken_back-IsIndexed m inv v fresh = record {
  own_id = λ j x h. ground (
    arith,
    lookup-delete inv.id j (insert inv.id inv m.invoices),
    lookup-insert inv.id j inv m.invoices,
    v.own_id j x,
  );
  indexed = λ j x h. rw (delete-insert (memo_key inv.pay_to inv.memo) inv.id m.memos fresh) (
      ground (
        arith,
        lookup-delete inv.id j (insert inv.id inv m.invoices),
        lookup-insert inv.id j inv m.invoices,
        v.indexed j x,
      ));
}

-- A write that keeps the id, the address and the memo of the invoice that it replaces.
pub at_id-IsIndexed :
    (m : Memory) (id : Text) (cur new : Invoice)
    → IsIndexed m
    → lookup id m.invoices ≡ some cur
    → new.id ≡ cur.id
    → new.pay_to ≡ cur.pay_to
    → new.memo ≡ cur.memo
    → IsIndexed (at_id id new m)
at_id-IsIndexed m id cur new v h e p q = record {
  own_id = λ j x k.
      ground (
        arith,
        lookup-insert id j new m.invoices,
        text_eq_iff id j,
        v.own_id j x,
        v.own_id id cur h,
      );
  indexed = λ j x k. ground (
    arith,
    lookup-insert id j new m.invoices,
    text_eq_iff id j,
    v.indexed j x,
    v.indexed id cur h,
  );
}

roll_back :
    (m : Memory) (id : Text) (cur new : Invoice)
    → lookup id m.invoices ≡ some cur
    → at_id id cur (at_id id new m) ≡ m
roll_back m id cur new h =
    ap (λ i. record m { invoices = i }) (insert-insert id new cur m.invoices h)

module _ (os : Files) where
  open os use {Disk}

  commit_cases {ℓ} :
      {A : Type 0} (P : Answer A × (Memory × Disk) → Type ℓ) (a : A) (updated rolled_back : Memory)
      (d : Disk)
      → ((d' : Disk) → P (ok a, (updated, d')))
      → ((d' : Disk) → P (err store_failure, (rolled_back, d')))
      → P (commit os a updated rolled_back d)
  unfolding commit after_persist
  commit_cases P a updated rolled_back d done failed = let (r, d') = persist os updated d in go r d'
    where
      go : (r : Option (Unit {0})) (d' : Disk) → P (after_persist os a updated rolled_back r d')
      go (some _) d' = done d'
      go none d' = failed d'

  -- The outcomes of `CreateInvoice`.
  pub create_cases {ℓ} :
      (P : Answer (Unit {0}) × (Memory × Disk) → Type ℓ) (inv : Invoice) (m : Memory) (d : Disk)
      → ((id : Text)
          → lookup (memo_key inv.pay_to inv.memo) m.memos ≡ some id
          → P (err memo_exists, (m, d)))
      → ((d' : Disk)
          → lookup (memo_key inv.pay_to inv.memo) m.memos ≡ none
          → P (ok tt, (with_invoice inv m, d')))
      → ((d' : Disk)
          → lookup (memo_key inv.pay_to inv.memo) m.memos ≡ none
          → P (err store_failure, (taken_back inv (with_invoice inv m), d')))
      → P (create_invoice os inv (m, d))
  unfolding create_invoice
  create_cases P inv m d clash done failed =
      elim (Option-cases (lookup (memo_key inv.pay_to inv.memo) m.memos)) [
        | inl e ↦
            rw (e, create_invoice) (commit_cases P tt _ _ d (λ d'. done d' e) (λ d'. failed d' e))
        | inr (id, e) ↦ rw (e, create_invoice) (clash id e)
      ]

  -- The outcomes of `ClaimInvoiceForSettlement` and of `ExpireInvoice`.
  pub transition_cases {ℓ} :
      (P : Answer Bool × (Memory × Disk) → Type ℓ) (change : Invoice → Invoice) (id : Text)
      (m : Memory) (d : Disk)
      → (NotPending (lookup id m.invoices) → P (ok false, (m, d)))
      → ((cur : Invoice) (d' : Disk)
          → lookup id m.invoices ≡ some cur
          → cur.status ≡ pending
          → P (ok true, (at_id id (change cur) m, d')))
      → ((cur : Invoice) (d' : Disk)
          → lookup id m.invoices ≡ some cur
          → P (err store_failure, (m, d')))
      → P (transition os change id (m, d))
  unfolding transition
  transition_cases P change id m d lost won failed = elim (Option-cases (lookup id m.invoices)) [
    | inl e ↦ rw (e, transition) (lost (rw e tt))
    | inr (cur, e) ↦ elim (Status-cases cur.status) [
      | inl (q, p) ↦
          rw (e, transition, q)
            (commit_cases P true _ _ d (λ d'. won cur d' e p)
              (λ d'. rw (roll_back m id cur (change cur) e) (failed cur d' e)))
      | inr (q, n) ↦ rw (e, transition, q) (lost (rw e n))
    ]
  ]

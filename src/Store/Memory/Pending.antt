-- ===== src/Store/Memory/Pending.antt =====
-- The pending invoices of the in-memory store: their list and their counts.
use tonpayment.Base.{
  ℕ, suc, ◌+◌, Bool, true, false, ◌&&◌, List, [], ◌∷◌, ◌≡◌, refl, ◌∙◌, arith, inl, inr, Bool-cases,
}
use tonpayment.Base.Text.{Text, text_eq}
use tonpayment.Base.Sort.{sort_by, sort_by-IsSorted, IsSorted, count_by, count_by-sort_by}
use tonpayment.Store.Invoices.{Invoice, is_pending}
use tonpayment.Store.Memory.{
  Memory, values, list_pending, keep_pending, created_before, count_pending, pending_counts,
}

count_by-keep_pending :
    (test : Invoice → Bool) (xs : List Invoice)
    → count_by test (keep_pending xs) ≡ count_by (λ inv. is_pending inv.status && test inv) xs
unfolding keep_pending
count_by-keep_pending test [] = refl
count_by-keep_pending test (inv ∷ xs) = elim (Bool-cases (is_pending inv.status)) [
  | inl e ↦ rw e (omega (arith, count_by-keep_pending test xs))
  | inr e ↦ rw e (omega (arith, count_by-keep_pending test xs))
]

counted :
    (pay_to : Text) (xs : List Invoice) (total for_addr : ℕ)
    → ((count_pending pay_to xs (total, for_addr)).0
        ≡ total + count_by (λ inv. is_pending inv.status && true) xs)
      × ((count_pending pay_to xs (total, for_addr)).1
          ≡ for_addr + count_by (λ inv. is_pending inv.status && text_eq inv.pay_to pay_to) xs)
unfolding count_pending
counted pay_to [] total for_addr = (omega arith, omega arith)
counted pay_to (inv ∷ xs) total for_addr = elim (Bool-cases (is_pending inv.status)) [
  | inl e ↦ elim (Bool-cases (text_eq inv.pay_to pay_to)) [
    | inl f ↦
        rw (count_pending, e, f)
          (let (p, q) = counted pay_to xs (suc total) (suc for_addr) in
            (omega (arith, p), omega (arith, q)))
    | inr f ↦
        rw (count_pending, e, f)
          (let (p, q) = counted pay_to xs (suc total) for_addr in
            (omega (arith, p), omega (arith, q)))
  ]
  | inr e ↦
      rw (count_pending, e)
        (let (p, q) = counted pay_to xs total for_addr in (omega (arith, p), omega (arith, q)))
]

older_first : (a b : Invoice) → created_before a b ≡ true → created_before b a ≡ false
older_first a b h = ground arith

-- The list of pending invoices runs from the oldest to the newest, and holds each pending invoice of
-- the store as often as the store does and no other; the two counts are the length of that list, and
-- the number of its invoices to the address.
pub list_pending_lem :
    (m : Memory) (pay_to : Text)
    → IsSorted created_before (list_pending m)
      × ((test : Invoice → Bool)
          → count_by test (list_pending m)
            ≡ count_by (λ inv. is_pending inv.status && test inv) (values m.invoices))
      × ((pending_counts pay_to m).0 ≡ count_by (λ inv. true) (list_pending m))
      × ((pending_counts pay_to m).1 ≡ count_by (λ inv. text_eq inv.pay_to pay_to) (list_pending m))
unfolding list_pending pending_counts
list_pending_lem m pay_to = (
  sort_by-IsSorted created_before older_first (keep_pending (values m.invoices)),
  listed,
  omega (arith, (counted pay_to (values m.invoices) 0 0).0, listed (λ inv. true)),
  omega (
    arith,
    (counted pay_to (values m.invoices) 0 0).1,
    listed (λ inv. text_eq inv.pay_to pay_to),
  ),
)
  where
    listed :
        (test : Invoice → Bool)
        → count_by test (sort_by created_before (keep_pending (values m.invoices)))
          ≡ count_by (λ inv. is_pending inv.status && test inv) (values m.invoices)
    listed test =
        count_by-sort_by created_before test (keep_pending (values m.invoices))
        ∙ count_by-keep_pending test (values m.invoices)

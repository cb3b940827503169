-- ===== src/Wallet/Mock/Polls.antt =====
-- When the mock verifier confirms.
use tonpayment.Base.{
  ℕ, suc, ◌+◌, true, false, Option, none, some, List, [], ◌∷◌, ◌≡◌, refl, ap, ◌∙◌, arith, inl, inr,
  if◌then◌else◌, Bool-cases, Option-cases, ◌⊎◌,
}
use tonpayment.Base.Int.{ℤ, pos, ltb_ℤ, leb_ℤ}
use tonpayment.Base.Text.{Text, text_eq, text_eq_iff}
use tonpayment.Base.Dict.{lookup, insert, lookup-insert}
use tonpayment.Base.Sort.{count_by}
use tonpayment.Store.Invoices.{Invoice}
use tonpayment.Wallet.Mock.{MockVerifier, new_mock_verifier, polled, verify}

-- The verifier once these invoices have been polled, in this order.
abbrev pub polls : List Invoice → MockVerifier → MockVerifier
polls [] m = m
polls (inv ∷ rest) m = polls rest (verify inv m).1

verdict_lem :
    (inv : Invoice) (m : MockVerifier)
    → (verify inv m).0.is_paid ≡ leb_ℤ m.after (pos (suc (polled inv.id m)))
unfolding verify
verdict_lem inv m = elim (Bool-cases (leb_ℤ m.after (pos (suc (polled inv.id m))))) [
  | inl e ↦ rw e refl
  | inr e ↦ rw e refl
]

after-verify : (inv : Invoice) (m : MockVerifier) → (verify inv m).1.after ≡ m.after
unfolding verify
after-verify inv m = elim (Bool-cases (leb_ℤ m.after (pos (suc (polled inv.id m))))) [
  | inl e ↦ rw e refl
  | inr e ↦ rw e refl
]

polls-verify :
    (inv : Invoice) (m : MockVerifier)
    → (verify inv m).1.polls ≡ insert inv.id (suc (polled inv.id m)) m.polls
unfolding verify
polls-verify inv m = elim (Bool-cases (leb_ℤ m.after (pos (suc (polled inv.id m))))) [
  | inl e ↦ rw e refl
  | inr e ↦ rw e refl
]

abbrev or_zero : Option ℕ → ℕ
or_zero none = 0
or_zero (some n) = n

polled_lem : (j : Text) (m : MockVerifier) → polled j m ≡ or_zero (lookup j m.polls)
unfolding polled
polled_lem j m = elim (Option-cases (lookup j m.polls)) [
  | inl e ↦ rw (polled, e) refl
  | inr (n, e) ↦ rw (polled, e) refl
]

polled-verify :
    (inv : Invoice) (j : Text) (m : MockVerifier)
    → polled j (verify inv m).1 ≡ (if text_eq inv.id j then 1 else 0) + polled j m
polled-verify inv j m =
    polled_lem j (verify inv m).1
    ∙ ap (λ d. or_zero (lookup j d)) (polls-verify inv m)
    ∙ ap or_zero (lookup-insert inv.id j (suc (polled inv.id m)) m.polls)
    ∙ split (Bool-cases (text_eq inv.id j))
  where
    split :
        (text_eq inv.id j ≡ true) ⊎ (text_eq inv.id j ≡ false)
        → or_zero (if text_eq inv.id j then some (suc (polled inv.id m)) else lookup j m.polls)
          ≡ (if text_eq inv.id j then 1 else 0) + polled j m
    split (inl e) = rw e (omega (arith, ap (λ i. polled i m) ((text_eq_iff inv.id j).0 e)))
    split (inr e) = rw e (omega (arith, polled_lem j m))

polled-polls :
    (j : Text) (before : List Invoice) (m : MockVerifier)
    → polled j (polls before m) ≡ count_by (λ inv. text_eq inv.id j) before + polled j m
polled-polls j [] m = omega arith
polled-polls j (inv ∷ rest) m =
    omega (arith, polled-polls j rest (verify inv m).1, polled-verify inv j m)

after-polls : (before : List Invoice) (m : MockVerifier) → (polls before m).after ≡ m.after
after-polls [] m = refl
after-polls (inv ∷ rest) m = after-polls rest (verify inv m).1 ∙ after-verify inv m

polled-new : (j : Text) (after : ℤ) → polled j (new_mock_verifier after) ≡ 0
unfolding polled new_mock_verifier lookup
polled-new j after = elim (Bool-cases (ltb_ℤ after (pos 1))) [
  | inl e ↦ rw e refl
  | inr e ↦ rw e refl
]

after-new :
    (after : ℤ) → (new_mock_verifier after).after ≡ (if ltb_ℤ after (pos 1) then pos 1 else after)
unfolding new_mock_verifier
after-new after = elim (Bool-cases (ltb_ℤ after (pos 1))) [ inl e ↦ rw e refl | inr e ↦ rw e refl ]

-- After any sequence of polls, of whatever invoices, the next poll of an invoice confirms it if and
-- only if that makes as many polls of its id as were asked for, where fewer than one is one.
pub mock_confirms :
    (after : ℤ) (before : List Invoice) (inv : Invoice)
    → (verify inv (polls before (new_mock_verifier after))).0.is_paid
      ≡ leb_ℤ
          (if ltb_ℤ after (pos 1) then pos 1 else after)
          (pos (suc (count_by (λ x. text_eq x.id inv.id) before)))
mock_confirms after before inv =
    verdict_lem inv (polls before (new_mock_verifier after))
    ∙ ap (λ a. leb_ℤ a (pos (suc (polled inv.id (polls before (new_mock_verifier after))))))
        (after-polls before (new_mock_verifier after) ∙ after-new after)
    ∙ ap (λ n. leb_ℤ (if ltb_ℤ after (pos 1) then pos 1 else after) (pos (suc n)))
        (omega
          (arith, polled-polls inv.id before (new_mock_verifier after), polled-new inv.id after))

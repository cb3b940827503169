-- ===== src/Wallet/Ton/Match.antt =====
-- Which transactions pay an invoice.
use mathlib.Core.List.{cons-ne-nil}
use mathlib.Core.Bool.{false≢true}
use tonpayment.Base.{
  ℕ, ◌<◌, ◌≤◌, ltb, Bool, true, false, not, ◌&&◌, Option, none, some, List, [], ◌∷◌, ◌++◌, ◌≡◌, ◌≢◌,
  inl, inr, refl, sym, ap, ◌∙◌, arith, All, ◌↔◌, subst, Bool-cases, subst,
}
use tonpayment.Base.Int.{ℤ, pos, ◌-ℤ◌, ◌≤ℤ◌, ◌<ℤ◌}
use tonpayment.Base.Text.{Text, text_eq_iff}
use tonpayment.Golib.Strconv.{parse_int}
use tonpayment.Tonaddr
use tonpayment.Tonaddr.{Address, valid, invalid, raw, parse}
use tonpayment.Tonaddr.RoundTrip.{IsAddress}
use tonpayment.Tonaddr.Sound.{parse-IsAddress, valid-injective}
use tonpayment.Tonaddr.Network.{SameAccount, raw-SameAccount, SameAccount-raw}
use tonpayment.Store.Invoices.{Invoice, is_zero, hour, unix}
use tonpayment.Wallet.Ton.{
  Transaction, predates, names_account, right_account, covers, pays, find_payment,
}

-- What a payment of the invoice is: the exact memo, not long before the invoice, to its account where
-- both addresses are known, and at least its amount.
pub record Pays (inv : Invoice) (tx : Transaction) : Type 0 where
  pub memo : tx.message ≡ inv.memo
  pub timely :
      (pos 0 <ℤ tx.utime)
      → is_zero inv.created_at ≡ false
      → unix (inv.created_at -ℤ pos hour) ≤ℤ tx.utime
  pub to_account :
      (want : Address)
      → parse inv.pay_to ≡ valid want
      → tx.destination ≢ []
      → (got : Address) × (parse tx.destination ≡ valid got) × SameAccount got want
  pub enough : (v : ℤ) × (parse_int 64 tx.value ≡ some v) × (inv.amount_nano ≤ℤ v)

module _ (want : Address) (known : IsAddress want) where
  names_account_sound :
      (d : Text) (r : Tonaddr.Checked Address)
      → parse d ≡ r
      → names_account want r ≡ true
      → (got : Address) × (parse d ≡ valid got) × SameAccount got want
  unfolding names_account
  names_account_sound d (invalid e) p h = cc
  names_account_sound d (valid got) p h = (
    got,
    p,
    raw-SameAccount got want (parse-IsAddress d got p) known
        ((text_eq_iff (raw got) (raw want)).0 h),
  )

  names_account_complete :
      (d : Text) (got : Address)
      → parse d ≡ valid got
      → SameAccount got want
      → names_account want (parse d) ≡ true
  unfolding names_account
  names_account_complete d got p h =
      rw p ((text_eq_iff (raw got) (raw want)).1 (SameAccount-raw got want h))

  right_account_sound :
      (d : Text)
      → right_account (valid want) d ≡ true
      → d ≢ []
      → (got : Address) × (parse d ≡ valid got) × SameAccount got want
  unfolding right_account
  right_account_sound [] h n = absurd (n refl)
  right_account_sound (c ∷ d) h n = names_account_sound (c ∷ d) _ refl h

  right_account_complete :
      (d : Text)
      → (d ≢ [] → (got : Address) × (parse d ≡ valid got) × SameAccount got want)
      → right_account (valid want) d ≡ true
  unfolding right_account
  right_account_complete [] h = refl
  right_account_complete (c ∷ d) h =
      let (got, p, same) = h (cons-ne-nil c d) in names_account_complete (c ∷ d) got p same

abbrev ToAccount : Tonaddr.Checked Address → Text → Type 0
ToAccount r d =
    (want : Address)
    → r ≡ valid want
    → d ≢ []
    → (got : Address) × (parse d ≡ valid got) × SameAccount got want

right_account_iff :
    (s d : Text) (r : Tonaddr.Checked Address)
    → parse s ≡ r
    → (right_account r d ≡ true) ↔ ToAccount r d
right_account_iff s d (invalid e) p = (λ h want k. cc, λ h. unfold right_account in refl)
right_account_iff s d (valid want) p = (
  λ h want' k n.
      subst (λ w. (got : Address) × (parse d ≡ valid got) × SameAccount got w) (valid-injective k)
        (right_account_sound want (parse-IsAddress s want p) d h n),
  λ h. right_account_complete want (parse-IsAddress s want p) d (h want refl),
)

guard_complete :
    (a b c d : ℕ) (z : Bool)
    → (a < b → z ≡ false → d ≤ c)
    → not (ltb a b && not z && ltb c d) ≡ true
guard_complete a b c d true h = ground arith
guard_complete a b c d false h = elim (Bool-cases (ltb a b)) [
  | inl e ↦ ground (arith, h (ground arith) refl)
  | inr e ↦ rw e refl
]

predates_iff :
    (inv : Invoice) (tx : Transaction)
    → (not (predates inv tx) ≡ true) ↔ (
        (pos 0 <ℤ tx.utime)
        → is_zero inv.created_at ≡ false
        → unix (inv.created_at -ℤ pos hour) ≤ℤ tx.utime)
unfolding predates
predates_iff inv tx = (λ h p z. ground arith, λ h. guard_complete _ _ _ _ _ h)

covers_iff :
    (amount : ℤ) (r : Option ℤ)
    → (covers amount r ≡ true) ↔ ((v : ℤ) × (r ≡ some v) × (amount ≤ℤ v))
unfolding covers
covers_iff amount none = (λ h. cc, λ h. ground (arith, h.1))
covers_iff amount (some val) = (λ h. (val, refl, ground arith), λ h. ground (arith, h.1, h.2))

and_iff : (a b : Bool) → ((a && b) ≡ true) ↔ ((a ≡ true) × (b ≡ true))
and_iff true b = (λ h. (refl, h), λ h. h.1)
and_iff false b = (λ h. cc, λ h. cc (h.0))

-- The tests of the matching loop pass exactly the payments of the invoice: those with its exact memo,
-- not more than an hour older than it, to its account (compared by workchain and hash, where both
-- addresses are known), and of at least its amount.
pub pays_iff :
    (inv : Invoice) (tx : Transaction) → (pays inv (parse inv.pay_to) tx ≡ true) ↔ Pays inv tx
unfolding pays
pays_iff inv tx = (
  λ h.
      let (h, c) = (and_iff _ _).0 h in
      let (h, b) = (and_iff _ _).0 h in
      let (m, t) = (and_iff _ _).0 h in
      record {
        memo = (text_eq_iff tx.message inv.memo).0 m;
        timely = (predates_iff inv tx).0 t;
        to_account = (right_account_iff inv.pay_to tx.destination _ refl).0 b;
        enough = (covers_iff inv.amount_nano (parse_int 64 tx.value)).0 c;
      },
  λ p. (and_iff _ _).1 (
    (and_iff _ _).1 (
      (and_iff _ _).1
          ((text_eq_iff tx.message inv.memo).1 p.memo, (predates_iff inv tx).1 p.timely),
      (right_account_iff inv.pay_to tx.destination _ refl).1 p.to_account,
    ),
    (covers_iff inv.amount_nano (parse_int 64 tx.value)).1 p.enough,
  ),
)

-- The first transaction that pays, with those before it that do not.
abbrev pub FirstPayment : Invoice → List Transaction → Option Text → Type 0
FirstPayment inv txs none = All (λ tx. ¬ Pays inv tx) txs
FirstPayment inv txs (some hash) =
    (before : List Transaction) × (tx : Transaction) × (after : List Transaction) × (txs
      ≡ before ++ tx ∷ after)
    × All (λ t. ¬ Pays inv t) before
    × Pays inv tx
    × (hash ≡ tx.hash)

pub find_payment-FirstPayment :
    (inv : Invoice) (txs : List Transaction)
    → FirstPayment inv txs (find_payment inv (parse inv.pay_to) txs)
unfolding find_payment
find_payment-FirstPayment inv [] = tt
find_payment-FirstPayment inv (tx ∷ rest) = elim (Bool-cases (pays inv (parse inv.pay_to) tx)) [
  | inl e ↦ rw e ([], tx, rest, refl, tt, (pays_iff inv tx).0 e, refl)
  | inr e ↦ rw e (
      later (find_payment inv (parse inv.pay_to) rest) (find_payment-FirstPayment inv rest)
        (λ p. false≢true (sym e ∙ (pays_iff inv tx).1 p)))
]
  where
    later :
        (r : Option Text) → FirstPayment inv rest r → ¬ Pays inv tx → FirstPayment inv (tx ∷ rest) r
    later none h n = (n, h)
    later (some hash) (before, t, after, e, others, p, q) n =
        (tx ∷ before, t, after, ap (◌∷◌ tx) e, (n, others), p, q)

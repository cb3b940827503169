-- ===== src/Service/Interleave/Balance.antt =====
-- The books of the webhook: debts and notifications together count the settled invoices.
use tonpayment.Base.{
  ℕ, ◌+◌, Bool, true, false, Option, none, some, List, [], ◌∷◌, ◌≡◌, refl, arith, if◌then◌else◌,
}
use tonpayment.Base.Text.{Text, text_eq, text_eq_iff}
use tonpayment.Store.Invoices.{Invoice, Time, Status, paid, pending, expired}
use tonpayment.Store.Contract.{Store, Answer, ok, err, Ledger}
use tonpayment.Store.Contract.Once.{ClaimsOnce, Flip, Arrival}
use tonpayment.Service.Program.{Prog, claim_invoice, Reply}
use tonpayment.Service.Interleave.{
  Shared, Act, gets, creates, claims, expires, counts, verifies, fires, reads_clock, locks, unlocks,
  locks_apart, unlocks_apart, draws, Config, Replaced, here, there, Step, act, start, Reach, begin,
  next,
}
use tonpayment.Service.Interleave.Owes.{Debt, Owes}

abbrev pub times_fired : Text → List Invoice → ℕ
times_fired j [] = 0
times_fired j (inv ∷ log) = (if text_eq inv.id j then 1 else 0) + times_fired j log

abbrev pub owed : Text → Debt → ℕ
owed j none = 0
owed j (some id) = if text_eq id j then 1 else 0

abbrev pub paid_status : Status → ℕ
paid_status paid = 1
paid_status pending = 0
paid_status expired = 0

-- 1 if a paid invoice stands there.
abbrev pub settled : Option Invoice → ℕ
settled none = 0
settled (some inv) = paid_status inv.status

-- What a claim, an expiry and a creation do to the debts.
claim_pays :
    {A : Type 0} (id tx : Text) (at : Time) (k : Answer Bool → Prog A) (l l' : Ledger)
    (r : Answer Bool)
    → Flip paid id l l' r
    → Owes none (claim_invoice id tx at k)
    → (d : Debt) × Owes d (k r) × ((j : Text) → owed j d + settled (l j) ≡ settled (l' j))
claim_pays id tx at k l l' (ok true) (inv, new, h, p, q, u) o =
    (some id, o.0, λ j. ground (arith, u j, text_eq_iff id j))
claim_pays id tx at k l l' (ok false) same o = (none, o.1, λ j. ground (arith, same j))
claim_pays id tx at k l l' (err e) same o = (none, o.2 e, λ j. ground (arith, same j))

expire_pays :
    (id : Text) (l l' : Ledger) (r : Answer Bool)
    → Flip expired id l l' r
    → (j : Text) → settled (l j) ≡ settled (l' j)
expire_pays id l l' (ok true) (inv, new, h, p, q, u) j = ground (arith, u j, text_eq_iff id j)
expire_pays id l l' (ok false) same j = ground (arith, same j)
expire_pays id l l' (err e) same j = ground (arith, same j)

create_pays :
    (inv : Invoice) (l l' : Ledger) (r : Answer (Unit {0}))
    → Arrival inv l l' r
    → l inv.id ≡ none
    → inv.status ≡ pending
    → (j : Text) → settled (l j) ≡ settled (l' j)
create_pays inv l l' (ok _) (new, q, u) h p j = ground (arith, u j, text_eq_iff inv.id j)
create_pays inv l l' (err e) same h p j = ground (arith, same j)

abbrev pub Aligned : List Debt → List (Prog Reply) → Type 0
Aligned [] [] = Unit
Aligned [] (p ∷ ps) = ⊥
Aligned (d ∷ ds) [] = ⊥
Aligned (d ∷ ds) (p ∷ ps) = Owes d p × Aligned ds ps

abbrev pub total_owed : Text → List Debt → ℕ
total_owed j [] = 0
total_owed j (d ∷ ds) = owed j d + total_owed j ds

-- The debt of the program that moves, and the debts once it owes another one.
Replaced-debt :
    {ps ps' : List (Prog Reply)} {p p' : Prog Reply} (ds : List Debt)
    → Replaced ps p p' ps'
    → Aligned ds ps
    → (d : Debt) × Owes d p
      × ((d' : Debt)
          → Owes d' p'
          → (ds' : List Debt) × Aligned ds' ps'
            × ((j : Text) → total_owed j ds' + owed j d ≡ total_owed j ds + owed j d'))
Replaced-debt [] here a = absurd a
Replaced-debt [] (there r) a = absurd a
Replaced-debt (d ∷ ds) here a = (d, a.0, λ d' o. (d' ∷ ds, (o, a.1), λ j. omega arith))
Replaced-debt (e ∷ ds) (there r) a =
    let (d, o, change) = Replaced-debt ds r a.1 in
    (
      d,
      o,
      λ d' o'. let (ds', a', sum) = change d' o' in (e ∷ ds', (a.0, a'), λ j. omega (arith, sum j)),
    )

module _ {S : Type 0} (store : Store S) (Inv : S → Type 0) (laws : ClaimsOnce store Inv) where
  -- A command moves the debts, the notifications and the settled invoices together.
  abbrev Paid : {A : Type 0} → Debt → Prog A → Shared S → Shared S → Type 0
  Paid d p' s s' =
      (d' : Debt) × Owes d' p'
      × Inv s'.state
      × ((j : Text)
          → times_fired j s'.fired + owed j d' + settled (store.get_invoice j s.state)
            ≡ times_fired j s.fired + owed j d + settled (store.get_invoice j s'.state))

  Act-Paid :
      {A : Type 0} {p : Prog A} {s : Shared S} {p' : Prog A} {s' : Shared S} (d : Debt)
      → Act store p s p' s'
      → Owes d p
      → Inv s.state
      → Paid d p' s s'
  Act-Paid none (gets id k s) o v = (none, o _, v, λ j. refl)
  Act-Paid none (creates inv k s unused) o v = (
    none,
    o.1 _,
    laws.create_keeps inv s.state v,
    λ j. omega (
      arith,
      create_pays inv (λ i. store.get_invoice i s.state)
          (λ i. store.get_invoice i (store.create_invoice inv s.state).1) _
          (laws.creates inv s.state v unused) unused o.0 j,
    ),
  )
  Act-Paid none (claims id tx at k s) o v =
      let (d', o', pays) =
        claim_pays id tx at k (λ i. store.get_invoice i s.state)
          (λ i. store.get_invoice i (store.claim_invoice_for_settlement id tx at s.state).1) _
          (laws.claims id tx at s.state v) o in
      (d', o', laws.claim_keeps id tx at s.state v, λ j. omega (arith, pays j))
  Act-Paid none (expires id k s) o v = (
    none,
    o _,
    laws.expire_keeps id s.state v,
    λ j. omega (
      arith,
      expire_pays id (λ i. store.get_invoice i s.state)
          (λ i. store.get_invoice i (store.expire_invoice id s.state).1) _
          (laws.expires id s.state v) j,
    ),
  )
  Act-Paid none (counts a k s) o v = (none, o _, v, λ j. refl)
  Act-Paid none (verifies inv k s w) o v = (none, o w, v, λ j. refl)
  Act-Paid none (fires inv k s) o v = absurd o
  Act-Paid none (reads_clock k s t) o v = (none, o t, v, λ j. refl)
  Act-Paid none (locks id k s free) o v = (none, o, v, λ j. refl)
  Act-Paid none (unlocks id k s a b e) o v = (none, o, v, λ j. refl)
  Act-Paid none (locks_apart id k s) o v = (none, o, v, λ j. refl)
  Act-Paid none (unlocks_apart id k s) o v = (none, o, v, λ j. refl)
  Act-Paid none (draws n k s t) o v = (none, o t, v, λ j. refl)
  Act-Paid (some id) (fires inv k s) o v =
      (none, o.2, v, λ j. ground (arith, o.0, text_eq_iff inv.id j, text_eq_iff id j))
  Act-Paid (some id) (gets _ k s) o v = absurd o
  Act-Paid (some id) (creates inv k s unused) o v = absurd o
  Act-Paid (some id) (claims _ tx at k s) o v = absurd o
  Act-Paid (some id) (expires _ k s) o v = absurd o
  Act-Paid (some id) (counts a k s) o v = absurd o
  Act-Paid (some id) (verifies inv k s w) o v = absurd o
  Act-Paid (some id) (reads_clock k s t) o v = absurd o
  Act-Paid (some id) (locks _ k s free) o v = absurd o
  Act-Paid (some id) (unlocks _ k s a b e) o v = absurd o
  Act-Paid (some id) (locks_apart _ k s) o v = absurd o
  Act-Paid (some id) (unlocks_apart _ k s) o v = absurd o
  Act-Paid (some id) (draws n k s t) o v = absurd o

  -- Notifications and debts together count the settled invoices.
  pub record Balanced (c : Config S) : Type 0 where
    pub debts : List Debt
    pub aligned : Aligned debts c.callers
    pub sound : Inv c.shared.state
    pub balance :
        (j : Text)
        → times_fired j c.shared.fired + total_owed j debts
          ≡ settled (store.get_invoice j c.shared.state)

  Step-Balanced :
      {Call : Prog Reply → Type 0} {c c' : Config S}
      → ((p : Prog Reply) → Call p → Owes none p)
      → Step store Call c c'
      → Balanced c
      → Balanced c'
  Step-Balanced honest (act {s = s} {s' = s'} r a) b =
      let (d, o, change) = Replaced-debt b.debts r b.aligned in
      let (d', o', v, moved) = Act-Paid d a o b.sound in
      let (ds', al, sum) = change d' o' in
      record {
        debts = ds';
        aligned = al;
        sound = v;
        balance = λ j. omega (arith, moved j, sum j, b.balance j);
      }
  Step-Balanced honest (start p call) b = record {
    debts = none ∷ b.debts;
    aligned = (honest p call, b.aligned);
    sound = b.sound;
    balance = λ j. omega (arith, b.balance j);
  }

  pub Reach-Balanced :
      {Call : Prog Reply → Type 0} {c c' : Config S}
      → ((p : Prog Reply) → Call p → Owes none p)
      → Reach store Call c c'
      → Balanced c
      → Balanced c'
  Reach-Balanced honest begin b = b
  Reach-Balanced honest (next r st) b = Step-Balanced honest st (Reach-Balanced honest r b)

-- ===== src/Service/Interleave/Once.antt =====
-- Exactly one notification for each settled invoice, under every interleaving.
use tonpayment.Base.{
  ◌≤◌, ◌<◌, true, Option, none, some, List, [], ◌∷◌, ◌≡◌, ◌⊎◌, inl, inr, refl, arith, subst, sym,
  All,
}
use tonpayment.Base.Text.{Text}
use tonpayment.Store.Invoices.{Invoice, Status, paid, pending, expired}
use tonpayment.Store.Contract.{Store}
use tonpayment.Store.Contract.Once.{ClaimsOnce}
use tonpayment.Service.Program.{Prog, ret, Service, Reply}
use tonpayment.Base.Int.{ℤ}
use tonpayment.Base.Dict.{Dict}
use tonpayment.Service.Settle.{check_status}
use tonpayment.Service.Create.{create}
use tonpayment.Service.Interleave.OwesCreate.{Owes-create}
use tonpayment.Service.Interleave.{Config, Reach}
use tonpayment.Service.Interleave.Owes.{Debt, Owes, Owes-check_status}
use tonpayment.Service.Interleave.Balance.{
  times_fired, settled, paid_status, Aligned, total_owed, Balanced, Reach-Balanced,
}

-- The calls that the handlers and the poller make.
pub data ServiceCall (s : Service) (p : Prog Reply) : Type 0 where
  checks : (id : Text) → p ≡ check_status s id → ServiceCall s p
  makes :
      (pay_to : Text) (amount ttl : ℤ) (metadata : Dict Text)
      → p ≡ create s pay_to amount ttl metadata
      → ServiceCall s p

ServiceCall-Owes :
    (s : Service) → s.has_webhook ≡ true → (p : Prog Reply) → ServiceCall s p → Owes none p
ServiceCall-Owes s wired p (checks id e) = subst (Owes none) (sym e) (Owes-check_status s wired id)
ServiceCall-Owes s wired p (makes pay_to amount ttl metadata e) =
    subst (Owes none) (sym e) (Owes-create s amount ttl metadata pay_to)

-- A caller that has returned.
abbrev pub HasReturned : Prog Reply → Type 0
HasReturned (ret a) = Unit
HasReturned _ = ⊥

returned-Owes : (d : Debt) (p : Prog Reply) → HasReturned p → Owes d p → d ≡ none
returned-Owes none (ret a) h o = refl
returned-Owes (some id) (ret a) h o = absurd o
returned-Owes d _ h o = absurd h

All-returned :
    (ds : List Debt) (ps : List (Prog Reply)) (j : Text)
    → All HasReturned ps
    → Aligned ds ps
    → total_owed j ds ≡ 0
All-returned [] [] j h a = refl
All-returned [] (p ∷ ps) j h a = absurd a
All-returned (d ∷ ds) [] j h a = absurd a
All-returned (d ∷ ds) (p ∷ ps) j h a =
    ground (arith, returned-Owes d p h.0 a.0, All-returned ds ps j h.1 a.1)

status_settled : (st : Status) → (paid_status st ≡ 0) ⊎ ((paid_status st ≡ 1) × (st ≡ paid))
status_settled pending = inl refl
status_settled paid = inr (refl, refl)
status_settled expired = inl refl

-- A paid invoice stands there.
abbrev pub IsPaid : Option Invoice → Type 0
IsPaid none = ⊥
IsPaid (some inv) = inv.status ≡ paid

settled_cases : (o : Option Invoice) → (settled o ≡ 0) ⊎ ((settled o ≡ 1) × IsPaid o)
settled_cases none = inl refl
settled_cases (some inv) = status_settled inv.status

-- No call runs, and every paid invoice, if there is any, has been notified once.
pub record IsQuiet {S : Type 0} (store : Store S) (Inv : S → Type 0) (c : Config S) : Type 0 where
  pub idle : c.callers ≡ []
  pub sound : Inv c.shared.state
  pub notified :
      (j : Text) → times_fired j c.shared.fired ≡ settled (store.get_invoice j c.shared.state)

module _ {S : Type 0} (store : Store S) (Inv : S → Type 0) (laws : ClaimsOnce store Inv)
    (s : Service) (wired : s.has_webhook ≡ true) (c₀ c : Config S) (quiet : IsQuiet store Inv c₀)
    (reached : Reach store (ServiceCall s) c₀ c) where
  balanced : Balanced store Inv laws c
  balanced = Reach-Balanced store Inv laws (ServiceCall-Owes s wired) reached (record {
    debts = [];
    aligned = subst (Aligned []) (sym quiet.idle) tt;
    sound = quiet.sound;
    balance = λ j. omega (arith, quiet.notified j);
  })

  -- With a webhook configured, a store that claims once, drawn ids that are not in use, and a
  -- start where nothing runs and the paid invoices have been notified once: whatever the
  -- interleaving of the calls, by one process or by several of one configuration, the verdicts
  -- of the chain and the clock, at every moment the webhook has been handed an invoice id at
  -- most once, and only an id of a paid invoice.
  pub at_most_once :
      (j : Text)
      → (times_fired j c.shared.fired ≤ 1)
        × (0 < times_fired j c.shared.fired → IsPaid (store.get_invoice j c.shared.state))
  at_most_once j = elim (settled_cases (store.get_invoice j c.shared.state)) [
    | inl e ↦ (omega (arith, balanced.balance j), λ h. absurd (omega (arith, balanced.balance j)))
    | inr (e, is_paid) ↦ (omega (arith, balanced.balance j), λ h. is_paid)
  ]

  -- With a webhook configured, a store that claims once, drawn ids that are not in use, and a
  -- start where nothing runs and the paid invoices have been notified once: whatever the
  -- interleaving, by one process or by several of one configuration over the store, once all
  -- calls have returned, the webhook has been handed the id of every paid invoice exactly once,
  -- and no other id.
  pub exactly_once :
      All HasReturned c.callers
      → (j : Text) → times_fired j c.shared.fired ≡ settled (store.get_invoice j c.shared.state)
  exactly_once returned j =
      omega (
        arith,
        balanced.balance j,
        All-returned balanced.debts c.callers j returned balanced.aligned,
      )

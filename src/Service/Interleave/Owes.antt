-- ===== src/Service/Interleave/Owes.antt =====
-- What a program owes the webhook. A program that has won the claim of an invoice owes exactly one
-- notification of it, and does nothing else to the store before it has paid; no other program fires.
use tonpayment.Base.{
  ℕ, Bool, true, false, not, ◌&&◌, Option, none, some, List, ◌≡◌, refl, if◌then◌else◌,
}
use tonpayment.Base.Text.{Text}
use tonpayment.Store.Invoices.{Invoice, Time, paid, pending, is_pending}
use tonpayment.Store.Contract.{Answer, ok, err, StoreError}
use tonpayment.Service.Program.{
  Prog, ret, get_invoice, create_invoice, claim_invoice, expire_invoice, pending_counts, verify,
  fire, now, lock, unlock, random, Verdict, Service, ◌>>=◌,
}
use tonpayment.Service.Settle.{
  check_status, check_found, after_verify, expire_if_due, is_overdue, settle_locked, settle_again,
  expire, after_expire, settle, notify, current_or,
}

-- `Debt` is the id of the invoice that the program has claimed and not yet notified.
abbrev pub Debt : Type 0
Debt = Option Text

abbrev pub Owes : {A : Type 0} → Debt → Prog A → Type 0
Owes none (ret a) = Unit
Owes none (get_invoice id k) = (r : Option Invoice) → Owes none (k r)
Owes none (create_invoice inv k) =
    (inv.status ≡ pending) × ((r : Answer (Unit {0})) → Owes none (k r))
Owes none (claim_invoice id tx at k) =
    Owes (some id) (k (ok true))
    × Owes none (k (ok false))
    × ((e : StoreError) → Owes none (k (err e)))
Owes none (expire_invoice id k) = (r : Answer Bool) → Owes none (k r)
Owes none (pending_counts a k) = (r : _) → Owes none (k r)
Owes none (verify inv k) = (v : Verdict) → Owes none (k v)
Owes none (fire inv k) = ⊥
Owes none (now k) = (t : Time) → Owes none (k t)
Owes none (lock id k) = Owes none k
Owes none (unlock id k) = Owes none k
Owes none (random n k) = (bytes : List ℕ) → Owes none (k bytes)
Owes (some id) (fire inv k) = (inv.id ≡ id) × (inv.status ≡ paid) × Owes none k
Owes (some id) _ = ⊥

-- A command other than `fire` is no step of a debtor.
Owes-bind :
    {A B : Type 0} (d : Debt) (p : Prog A) (f : A → Prog B)
    → Owes d p
    → ((a : A) → Owes none (f a))
    → Owes d (p >>= f)
unfolding ◌>>=◌
Owes-bind none (ret a) f h g = g a
Owes-bind none (get_invoice id k) f h g = λ r. Owes-bind none (k r) f (h r) g
Owes-bind none (create_invoice inv k) f h g = (h.0, λ r. Owes-bind none (k r) f (h.1 r) g)
Owes-bind none (claim_invoice id tx at k) f h g = (
  Owes-bind (some id) (k (ok true)) f h.0 g,
  Owes-bind none (k (ok false)) f h.1 g,
  λ e. Owes-bind none (k (err e)) f (h.2 e) g,
)
Owes-bind none (expire_invoice id k) f h g = λ r. Owes-bind none (k r) f (h r) g
Owes-bind none (pending_counts a k) f h g = λ r. Owes-bind none (k r) f (h r) g
Owes-bind none (verify inv k) f h g = λ r. Owes-bind none (k r) f (h r) g
Owes-bind none (fire inv k) f h g = absurd h
Owes-bind none (now k) f h g = λ r. Owes-bind none (k r) f (h r) g
Owes-bind none (lock id k) f h g = Owes-bind none k f h g
Owes-bind none (unlock id k) f h g = Owes-bind none k f h g
Owes-bind none (random n k) f h g = λ r. Owes-bind none (k r) f (h r) g
Owes-bind (some id) (fire inv k) f h g = (h.0, h.1, Owes-bind none k f h.2 g)
Owes-bind (some id) _ f h g = absurd h

pub Owes-if :
    {A : Type 0} (b : Bool) (p q : Prog A)
    → Owes none p
    → Owes none q
    → Owes none (if b then p else q)
Owes-if true p q h k = h
Owes-if false p q h k = k

module _ (s : Service) (wired : s.has_webhook ≡ true) where
  Owes-current_or : (inv : Invoice) (r : Option Invoice) → Owes none (current_or inv r)
  unfolding current_or
  Owes-current_or inv none = tt
  Owes-current_or inv (some cur) = tt

  Owes-settle : (inv : Invoice) (tx : Text) → Owes none (settle s inv tx)
  unfolding settle notify
  Owes-settle inv tx = λ at. (rw wired (refl, refl, tt), Owes-current_or inv, λ e. tt)

  Owes-expire : (inv : Invoice) → Owes none (expire inv)
  unfolding expire
  Owes-expire inv = elim [ ok b ↦ Owes-after b | err e ↦ tt ]
    where
      Owes-after : (b : Bool) → Owes none (after_expire inv (ok b))
      Owes-after true = tt
      Owes-after false = Owes-current_or inv

  Owes-settle_again : (tx : Text) (r : Option Invoice) → Owes none (settle_again s tx r)
  unfolding settle_again
  Owes-settle_again tx none = tt
  Owes-settle_again tx (some inv) = Owes-if (is_pending inv.status) _ _ (Owes-settle inv tx) tt

  Owes-settle_locked :
      (id : Text) (inv : Invoice) (tx : Text) → Owes none (settle_locked s id inv tx)
  unfolding settle_locked
  Owes-settle_locked id inv tx =
      λ r. Owes-bind none (settle_again s tx r) _ (Owes-settle_again tx r) (λ reply. tt)

  Owes-expire_if_due : (inv : Invoice) → Owes none (expire_if_due inv)
  unfolding expire_if_due
  Owes-expire_if_due inv = λ at. Owes-if (is_overdue inv at) _ _ (Owes-expire inv) tt

  Owes-check_found : (id : Text) (r : Option Invoice) → Owes none (check_found s id r)
  unfolding check_found after_verify
  Owes-check_found id none = tt
  Owes-check_found id (some inv) =
      Owes-if (is_pending inv.status) _ _
        (λ v.
          Owes-if (not v.has_failed && v.is_paid) _ _ (Owes-settle_locked id inv v.tx_hash)
            (Owes-expire_if_due inv))
        tt

  pub Owes-check_status : (id : Text) → Owes none (check_status s id)
  unfolding check_status
  Owes-check_status id = Owes-check_found id

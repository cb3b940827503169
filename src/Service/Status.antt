-- ===== src/Service/Status.antt =====
-- What one status check does, branch by branch, over any store that meets its contract.
pub mod Outcomes
pub mod Reported
use tonpayment.Base.{
  ℕ, Bool, true, false, not, ◌&&◌, Option, none, some, List, ◌∷◌, ◌≡◌, ◌≢◌, ◌⊎◌, inl, inr, refl,
  sym, ap, ◌∙◌, arith, subst, if◌then◌else◌, Bool-cases,
}
use tonpayment.Base.Text.{Text, text_eq, text_eq_iff}
use tonpayment.Store.Invoices.{Invoice, Time, Status, pending, is_pending, Status-cases}
use tonpayment.Store.Contract.{
  Store, IsStore, Answer, ok, err, StoreError, Ledger, SameLedger, Updated, Transition, NotPending,
  mark_paid, mark_expired,
}
use tonpayment.Service.Program.{
  Prog, ret, get_invoice, create_invoice, claim_invoice, expire_invoice, pending_counts, verify,
  fire, now, lock, unlock, random, ◌>>=◌, Verdict, Service, Reply, done, failed, not_found,
  store_error,
}
use tonpayment.Service.Run.{World, run}
use tonpayment.Service.Settle.{
  check_status, check_found, after_verify, expire_if_due, is_overdue, settle_locked, settle_again,
  settle, after_claim, notify, expire, after_expire, current_or,
}

pub is_pending-true : (st : Status) → st ≡ pending → is_pending st ≡ true
is_pending-true st e = ap is_pending e

module _ {S : Type 0} (store : Store S) where
  pub run-bind :
      {A B : Type 0} (p : Prog A) (f : A → Prog B) (w : World S)
      → run store (p >>= f) w ≡ run store (f (run store p w).0) (run store p w).1
  unfolding run ◌>>=◌
  run-bind (ret a) f w = refl
  run-bind (get_invoice id k) f w = run-bind (k _) f _
  run-bind (create_invoice inv k) f w = run-bind (k _) f _
  run-bind (claim_invoice id tx at k) f w = run-bind (k _) f _
  run-bind (expire_invoice id k) f w = run-bind (k _) f _
  run-bind (pending_counts a k) f w = run-bind (k _) f _
  run-bind (verify inv k) f w = run-bind (k _) f _
  run-bind (fire inv k) f w = run-bind k f _
  run-bind (now k) f w = run-bind (k _) f _
  run-bind (lock id k) f w = run-bind k f _
  run-bind (unlock id k) f w = run-bind k f _
  run-bind (random n k) f w = run-bind (k _) f _

  abbrev pub ledger : World S → Ledger
  ledger w j = store.get_invoice j w.state

  -- The reply and the world after a status check.
  abbrev pub checked : Service → Text → World S → Reply × World S
  checked s id w = run store (check_status s id) w

  checked-found :
      (s : Service) (id : Text) (w : World S)
      → checked s id w ≡ run store (check_found s id (ledger w id)) w
  unfolding run check_status
  checked-found s id w = refl

  run-none :
      (s : Service) (id : Text) (w : World S)
      → run store (check_found s id none) w ≡ (failed not_found, w)
  unfolding run check_found
  run-none s id w = refl

  run-closed :
      (s : Service) (id : Text) (inv : Invoice) (w : World S)
      → is_pending inv.status ≡ false
      → run store (check_found s id (some inv)) w ≡ (done inv, w)
  unfolding run check_found
  run-closed s id inv w q = rw q

  not_pending : (st : Status) → st ≢ pending → is_pending st ≡ false
  not_pending st n = elim (Status-cases st) [ inl (q, p) ↦ absurd (n p) | inr (q, p) ↦ q ]

  -- An id that is not known is an error, an invoice that is paid or expired is returned as it is, and
  -- neither changes anything.
  pub check_terminal :
      (s : Service) (id : Text) (w : World S)
      → (ledger w id ≡ none → checked s id w ≡ (failed not_found, w))
        × ((inv : Invoice)
            → ledger w id ≡ some inv
            → inv.status ≢ pending
            → checked s id w ≡ (done inv, w))
  check_terminal s id w = (
    λ e. checked-found s id w ∙ rw e (run-none s id w),
    λ inv e n. checked-found s id w ∙ rw e (run-closed s id inv w (not_pending inv.status n)),
  )

  -- The verifier answered that the invoice is paid, without an error.
  abbrev pub confirmed : Verdict → Bool
  confirmed v = not v.has_failed && v.is_paid

  run-pending :
      (s : Service) (id : Text) (inv : Invoice) (w : World S)
      → is_pending inv.status ≡ true
      → run store (check_found s id (some inv)) w
        ≡ run store (after_verify s id inv (w.verdict inv)) w
  unfolding run check_found
  run-pending s id inv w q = rw q

  pub checked-pending :
      (s : Service) (id : Text) (inv : Invoice) (w : World S)
      → ledger w id ≡ some inv
      → inv.status ≡ pending
      → checked s id w ≡ run store (after_verify s id inv (w.verdict inv)) w
  checked-pending s id inv w e p =
      checked-found s id w ∙ rw e (run-pending s id inv w (is_pending-true inv.status p))

  pub run-due :
      (s : Service) (id : Text) (inv : Invoice) (v : Verdict) (w : World S)
      → confirmed v ≡ false
      → run store (after_verify s id inv v) w
        ≡ run store (if is_overdue inv w.clock then expire inv else ret (done inv)) w
  unfolding run after_verify
  run-due s id inv v w c = rw c

  -- A pending invoice that is not confirmed, be it by an error of the verifier, and not overdue is
  -- returned as it is by a check that runs alone, and nothing changes.
  pub check_waits :
      (s : Service) (id : Text) (inv : Invoice) (w : World S)
      → ledger w id ≡ some inv
      → inv.status ≡ pending
      → confirmed (w.verdict inv) ≡ false
      → is_overdue inv w.clock ≡ false
      → checked s id w ≡ (done inv, w)
  check_waits s id inv w e p c o =
      checked-pending s id inv w e p
      ∙ run-due s id inv (w.verdict inv) w c
      ∙ rw o (unfold run in refl)

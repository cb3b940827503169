-- ===== src/Service/Status/Outcomes.antt =====
-- A confirmed payment settles, and an unpaid invoice past its time expires.
use tonpayment.Base.{
  Bool, true, false, Option, none, some, List, ◌∷◌, ◌≡◌, ◌⊎◌, inl, inr, refl, sym, ap, ◌∙◌, subst,
  if◌then◌else◌, Bool-cases,
}
use tonpayment.Base.Text.{Text}
use tonpayment.Store.Invoices.{Invoice, Time, pending, is_pending}
use tonpayment.Store.Contract.{
  Store, IsStore, Keeping, Answer, ok, err, StoreError, SameLedger, Updated, Transition, NotPending,
  mark_paid, mark_expired,
}
use tonpayment.Service.Program.{ret, Verdict, Service, Reply, done, failed, store_error}
use tonpayment.Service.Run.{World, run}
use tonpayment.Service.Settle.{
  after_verify, is_overdue, settle_locked, settle_again, settle, after_claim, notify, expire,
  after_expire,
}
use tonpayment.Service.Status.{
  ledger, checked, confirmed, checked-pending, run-due, run-bind, is_pending-true,
}

same_invoice : {a b : Invoice} → (o : Option Invoice) → o ≡ some a → o ≡ some b → b ≡ a
same_invoice o e h = cc (e, h)

module _ {S : Type 0} (store : Store S) where
  -- The reply is `new`, which the store keeps as `kept`, and the webhook gets `log`; or the store
  -- reports an error, and nothing has changed.
  abbrev pub Becomes : Text → Invoice → Invoice → List Invoice → World S → Reply × World S → Type 0
  Becomes id new kept log w (reply, w') =
      ((reply ≡ done new) × (w'.fired ≡ log) × Updated id kept (ledger store w) (ledger store w'))
      ⊎ ((e : StoreError) × (reply ≡ failed (store_error e))
          × (w'.fired ≡ w.fired)
          × SameLedger (ledger store w) (ledger store w'))

  -- What the webhook has been handed after a notification.
  abbrev pub notified : Service → Invoice → List Invoice → List Invoice
  notified s inv log = if s.has_webhook then inv ∷ log else log

  run-notify :
      (s : Service) (inv : Invoice) (w : World S)
      → run store (notify s inv) w ≡ (done inv, record w { fired = notified s inv w.fired })
  unfolding run notify
  run-notify s inv w = elim (Bool-cases s.has_webhook) [ inl e ↦ rw e | inr e ↦ rw e ]

  still_there :
      (id : Text) (inv : Invoice) (o : Option Invoice)
      → o ≡ some inv
      → inv.status ≡ pending
      → ¬ NotPending o
  still_there id inv none e p n = cc
  still_there id inv (some cur) e p n = n (cc)

  run-after_claim :
      (s : Service) (inv : Invoice) (tx : Text) (at kept_at : Time) (w w' : World S)
      (r : Answer Bool)
      → ledger store w inv.id ≡ some inv
      → inv.status ≡ pending
      → w'.fired ≡ w.fired
      → Transition (mark_paid tx kept_at) inv.id (ledger store w) (ledger store w') r
      → Becomes inv.id
          (mark_paid tx at inv)
          (mark_paid tx kept_at inv)
          (notified s (mark_paid tx at inv) w.fired)
          w
          (run store (after_claim s inv tx at r) w')
  unfolding run after_claim
  run-after_claim s inv tx at kept_at w w' (ok true) e p f (inv', h, q, u) =
      subst
        (Becomes inv.id (mark_paid tx at inv) (mark_paid tx kept_at inv)
          (notified s (mark_paid tx at inv) w.fired) w)
        (sym (run-notify s (mark_paid tx at inv) w'))
        (inl (
          refl,
          ap (notified s (mark_paid tx at inv)) f,
          subst
              (λ (x : Invoice).
                Updated inv.id (mark_paid tx kept_at x) (ledger store w) (ledger store w'))
              (same_invoice _ e h) u,
        ))
  run-after_claim s inv tx at kept_at w w' (ok false) e p f t =
      absurd (still_there inv.id inv _ e p t.0)
  run-after_claim s inv tx at kept_at w w' (err x) e p f same = inr (x, refl, f, same)

  run-after_expire :
      (inv : Invoice) (w w' : World S) (r : Answer Bool)
      → ledger store w inv.id ≡ some inv
      → inv.status ≡ pending
      → w'.fired ≡ w.fired
      → Transition mark_expired inv.id (ledger store w) (ledger store w') r
      → Becomes inv.id
          (mark_expired inv)
          (mark_expired inv)
          w.fired
          w
          (run store (after_expire inv r) w')
  unfolding run after_expire
  run-after_expire inv w w' (ok true) e p f (inv', h, q, u) = inl (
    refl,
    f,
    subst (λ (x : Invoice). Updated inv.id (mark_expired x) (ledger store w) (ledger store w'))
        (same_invoice _ e h) u,
  )
  run-after_expire inv w w' (ok false) e p f t = absurd (still_there inv.id inv _ e p t.0)
  run-after_expire inv w w' (err x) e p f same = inr (x, refl, f, same)

  run-confirmed :
      (s : Service) (id : Text) (inv : Invoice) (v : Verdict) (w : World S)
      → confirmed store v ≡ true
      → run store (after_verify s id inv v) w ≡ run store (settle_locked s id inv v.tx_hash) w
  unfolding run after_verify
  run-confirmed s id inv v w c = rw c

  run-locked :
      (s : Service) (id : Text) (inv : Invoice) (tx : Text) (w : World S)
      → run store (settle_locked s id inv tx) w
        ≡ run store (settle_again s tx (ledger store w id)) w
  unfolding run settle_locked
  run-locked s id inv tx w = run-bind store (settle_again s tx (ledger store w id)) _ w

  run-again :
      (s : Service) (tx : Text) (inv : Invoice) (w : World S)
      → is_pending inv.status ≡ true
      → run store (settle_again s tx (some inv)) w ≡ run store (settle s inv tx) w
  unfolding run settle_again
  run-again s tx inv w q = rw q

  -- A confirmed check comes down to the settlement, behind the lock.
  pub run-settled :
      (s : Service) (id : Text) (inv : Invoice) (w : World S)
      → ledger store w id ≡ some inv
      → inv.status ≡ pending
      → confirmed store (w.verdict inv) ≡ true
      → checked store s id w ≡ run store (settle s inv (w.verdict inv).tx_hash) w
  run-settled s id inv w there is_due c =
      checked-pending store s id inv w there is_due
      ∙ run-confirmed s id inv (w.verdict inv) w c
      ∙ run-locked s id inv (w.verdict inv).tx_hash w
      ∙ ap (λ o. run store (settle_again s (w.verdict inv).tx_hash o) w) there
      ∙ run-again s (w.verdict inv).tx_hash inv w (is_pending-true inv.status is_due)

module _ {S : Type 0} (store : Store S) (Inv : S → Type 0) (how : Keeping)
    (laws : IsStore store Inv how) (s : Service) (id : Text) (inv : Invoice) (w : World S)
    (sound : Inv w.state) (there : ledger store w id ≡ some inv)
    (is_due : inv.status ≡ pending) where
  there_own : ledger store w inv.id ≡ some inv
  there_own =
      subst (λ (j : Text). ledger store w j ≡ some inv)
        (sym (laws.id_of w.state id inv sound there)) there

  -- On a store that meets its contract, a confirmed pending invoice is settled, however late, by a
  -- check that runs alone: it becomes paid with the hash of the
  -- verdict and the time of the call, is returned so, kept with that time as the store keeps it, and, where a webhook is configured, handed to
  -- it once; no other invoice changes. The one other outcome is an error of the store, which changes
  -- nothing.
  pub check_settles :
      confirmed store (w.verdict inv) ≡ true
      → Becomes store inv.id
          (mark_paid (w.verdict inv).tx_hash w.clock inv)
          (mark_paid (w.verdict inv).tx_hash (how.keep_time w.clock) inv)
          (notified store s (mark_paid (w.verdict inv).tx_hash w.clock inv) w.fired)
          w
          (checked store s id w)
  check_settles c =
      subst
        (Becomes store inv.id (mark_paid (w.verdict inv).tx_hash w.clock inv)
          (mark_paid (w.verdict inv).tx_hash (how.keep_time w.clock) inv)
          (notified store s (mark_paid (w.verdict inv).tx_hash w.clock inv) w.fired) w)
        (sym (run-settled store s id inv w there is_due c))
        (unfold settle run in
          run-after_claim store s inv (w.verdict inv).tx_hash w.clock (how.keep_time w.clock) w _ _
            there_own is_due refl
            (laws.claims inv.id (w.verdict inv).tx_hash w.clock w.state sound))

  -- On a store that meets its contract, an unconfirmed pending invoice that is overdue becomes expired
  -- by a check that runs alone and is returned so; the webhook
  -- gets nothing and no other invoice changes. The one other outcome is an error of the store, which
  -- changes nothing.
  pub check_expires :
      confirmed store (w.verdict inv) ≡ false
      → is_overdue inv w.clock ≡ true
      → Becomes store inv.id (mark_expired inv) (mark_expired inv) w.fired w (checked store s id w)
  check_expires c o =
      subst (Becomes store inv.id (mark_expired inv) (mark_expired inv) w.fired w)
        (sym (
          checked-pending store s id inv w there is_due
          ∙ run-due store s id inv (w.verdict inv) w c
          ∙ ap (λ b. run store (if b then expire inv else ret (done inv)) w) o))
        (unfold expire run in
          run-after_expire store inv w _ _ there_own is_due refl
            (laws.expires inv.id w.state sound))

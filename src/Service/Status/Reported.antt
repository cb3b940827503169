-- ===== src/Service/Status/Reported.antt =====
-- The reply to a status check, and the store behind it.
use tonpayment.Base.{some, List, ◌≡◌, ◌≢◌, ◌⊎◌, inl, inr, refl, subst, Bool-cases, Option-cases}
use tonpayment.Base.Text.{Text, text_eq_refl, text_eq_ne}
use tonpayment.Store.Invoices.{Invoice, Status-cases, pending}
use tonpayment.Store.Contract.{Store, IsStore, Keeping, SameLedger}
use tonpayment.Service.Program.{Service, Reply, done, failed}
use tonpayment.Service.Run.{World}
use tonpayment.Service.Settle.{is_overdue}
use tonpayment.Service.Status.{ledger, checked, confirmed, check_waits, check_terminal}
use tonpayment.Service.Status.Outcomes.{Becomes, check_settles, check_expires}

-- An invoice beside itself as the store holds it: the same, or with the time of its settlement as the
-- store keeps it.
abbrev pub AsKept : Keeping → Invoice → Invoice → Type 0
AsKept how inv cur = (cur ≡ inv) ⊎ (cur ≡ record inv { paid_at = how.keep_time inv.paid_at })

module _ {S : Type 0} (store : Store S) (how : Keeping) where
  -- The invoice of the reply is, up to the time of its settlement, the one that the store then holds at
  -- the id, and no other id has changed; or there was an error, and nothing has changed.
  abbrev pub Reported : Text → World S → Reply × World S → Type 0
  Reported id w (done inv, w') =
      (cur : Invoice) × (ledger store w' id ≡ some cur)
      × AsKept how inv cur
      × ((j : Text) → j ≢ id → ledger store w' j ≡ ledger store w j)
  Reported id w (failed e, w') =
      SameLedger (ledger store w) (ledger store w') × (w'.fired ≡ w.fired)

  same_reply :
      {inv new : Invoice} (kept : Invoice)
      → done inv ≡ done new
      → AsKept how new kept
      → AsKept how inv kept
  same_reply kept e k = subst (λ x. AsKept how x kept) (cc e) k

  Becomes-Reported :
      (id : Text) (new kept : Invoice) (log : List Invoice) (w : World S) (res : Reply × World S)
      → AsKept how new kept
      → Becomes store id new kept log w res
      → Reported id w res
  Becomes-Reported id new kept log w (done inv, w') k (inl (e, f, u)) = (
    kept,
    rw (u id, text_eq_refl id) refl,
    same_reply kept e k,
    λ j n. rw (u j, text_eq_ne id j n) refl,
  )
  Becomes-Reported id new kept log w (failed x, w') k (inl (e, f, u)) = absurd (cc)
  Becomes-Reported id new kept log w (done inv, w') k (inr (e, q, f, same)) = absurd (cc)
  Becomes-Reported id new kept log w (failed x, w') k (inr (e, q, f, same)) = (same, f)

module _ {S : Type 0} (store : Store S) (Inv : S → Type 0) (how : Keeping)
    (laws : IsStore store Inv how) (s : Service) (id : Text) (w : World S)
    (sound : Inv w.state) where
  same_id : (inv : Invoice) → ledger store w id ≡ some inv → inv.id ≡ id
  same_id inv e = laws.id_of w.state id inv sound e

  pending-Reported :
      (inv : Invoice)
      → ledger store w id ≡ some inv
      → inv.status ≡ pending
      → Reported store how id w (checked store s id w)
  pending-Reported inv e p = elim (Bool-cases (confirmed store (w.verdict inv))) [
    | inl c ↦
        subst (λ j. Reported store how j w (checked store s id w)) (same_id inv e)
          (Becomes-Reported store how inv.id _ _ _ w _ (inr refl)
            (check_settles store Inv how laws s id inv w sound e p c))
    | inr c ↦ elim (Bool-cases (is_overdue inv w.clock)) [
      | inl o ↦
          subst (λ j. Reported store how j w (checked store s id w)) (same_id inv e)
            (Becomes-Reported store how inv.id _ _ _ w _ (inl refl)
              (check_expires store Inv how laws s id inv w sound e p c o))
      | inr o ↦ rw (check_waits store s id inv w e p c o) (inv, e, inl refl, λ j n. refl)
    ]
  ]

  found-Reported :
      (inv : Invoice)
      → ledger store w id ≡ some inv
      → Reported store how id w (checked store s id w)
  found-Reported inv e = elim (Status-cases inv.status) [
    | inl (q, p) ↦ pending-Reported inv e p
    | inr (q, n) ↦ rw ((check_terminal store s id w).1 inv e n) (inv, e, inl refl, λ j k. refl)
  ]

  -- On a store that meets its contract, a status check that runs alone replies with the invoice that
  -- the store then holds at the id, up to the time of its settlement, whatever the chain said and the clock showed, and changes no other;
  -- or it reports an error, and nothing has changed.
  pub checked-Reported : Reported store how id w (checked store s id w)
  checked-Reported = elim (Option-cases (ledger store w id)) [
    | inl e ↦ rw ((check_terminal store s id w).0 e) (λ j. refl, refl)
    | inr (inv, e) ↦ found-Reported inv e
  ]

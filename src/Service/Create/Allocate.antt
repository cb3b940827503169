-- ===== src/Service/Create/Allocate.antt =====
-- The attempts of `CreateInvoice` at an unused memo, over any store that meets its contract.
use tonpayment.Base.{ℕ, zero, suc, none, some, List, ◌≡◌, refl, sym, ap, ◌∙◌, if◌then◌else◌}
use tonpayment.Base.Text.{codes, text_eq}
use tonpayment.Idgen.{id_of}
use tonpayment.Wallet.Memo.{memo_of}
use tonpayment.Store.Invoices.{Invoice}
use tonpayment.Store.Contract.{
  Store, IsStore, Keeping, Answer, ok, err, memo_exists, store_failure, SameLedger, Updated,
  Creation,
}
use tonpayment.Service.Program.{ret, Reply, done, failed, store_error}
use tonpayment.Service.Run.{World, run}
use tonpayment.Service.Status.{ledger}
use tonpayment.Service.Create.{allocate}

module _ {S : Type 0} (store : Store S) where
  -- No id that is drawn from here on is in use.
  abbrev pub IsFresh : World S → Type 0
  IsFresh w = (n : ℕ) → ledger store w (id_of (codes "inv") (w.entropy n 9)) ≡ none

  -- The draft with an id and a memo.
  abbrev pub drawn_from : Invoice → List ℕ → List ℕ → Invoice
  drawn_from draft id_bytes memo_bytes = record draft {
    id = id_of (codes "inv") id_bytes;
    memo = memo_of memo_bytes;
  }

  -- The draft is stored under an id that was not in use, or nothing is.
  abbrev pub Allocated : Keeping → Invoice → World S → Reply × World S → Type 0
  Allocated how draft w (done new, w') =
      ((n : ℕ) × (new ≡ drawn_from draft (w.entropy n 9) (w.entropy (suc n) 16)))
      × (ledger store w new.id ≡ none)
      × Updated new.id (how.keep new) (ledger store w) (ledger store w')
      × (w'.fired ≡ w.fired)
  Allocated how draft w (failed e, w') =
      SameLedger (ledger store w) (ledger store w') × (w'.fired ≡ w.fired)

  Allocated-later :
      (how : Keeping) (draft : Invoice) (w w₁ : World S) (r : Reply × World S)
      → SameLedger (ledger store w) (ledger store w₁)
      → w₁.fired ≡ w.fired
      → w₁.entropy ≡ w.entropy
      → Allocated how draft w₁ r
      → Allocated how draft w r
  Allocated-later how draft w w₁ (done new, w') same f e ((n, d), unused, u, g) = (
    (n, d ∙ ap (λ draw. drawn_from draft (draw n 9) (draw (suc n) 16)) e),
    sym (same new.id) ∙ unused,
    λ j. u j ∙ ap (λ o. if text_eq new.id j then some (how.keep new) else o) (same j),
    g ∙ f,
  )
  Allocated-later how draft w w₁ (failed x, w') same f e (s, g) = (λ j. s j ∙ same j, g ∙ f)

module _ {S : Type 0} (store : Store S) (Inv : S → Type 0) (how : Keeping)
    (laws : IsStore store Inv how) where
  pub allocate-Allocated :
      (attempts : ℕ) (draft : Invoice) (w : World S)
      → Inv w.state
      → IsFresh store w
      → Allocated store how draft w (run store (allocate attempts draft) w)
  unfolding run allocate
  allocate-Allocated zero draft w v fresh = (λ j. refl, refl)
  allocate-Allocated (suc attempts) draft w v fresh =
      answered (λ u. allocate-Allocated attempts draft u) _
        (laws.creates new w.state v (fresh w.drawn))
    where
      new : Invoice
      new = drawn_from store draft (w.entropy w.drawn 9) (w.entropy (suc w.drawn) 16)

      later : World S
      later = record w { state = (store.create_invoice new w.state).1; drawn = suc (suc w.drawn) }

      answered :
          ((u : World S)
            → Inv u.state
            → IsFresh store u
            → Allocated store how draft u (run store (allocate attempts draft) u))
          → (r : Answer (Unit {0})) → Creation how new (ledger store w) (ledger store later) r
          → Allocated store how draft w (
              run store
                (elim r [
                  | ok _ ↦ ret (done new)
                  | err memo_exists ↦ allocate attempts draft
                  | err store_failure ↦ ret (failed (store_error store_failure))
                ])
                later)
      answered again (ok _) u = ((w.drawn, refl), fresh w.drawn, u, refl)
      answered again (err memo_exists) same =
          Allocated-later store how draft w later _ same refl refl (
            again later (laws.create_keeps new w.state v)
              (λ n. same (id_of (codes "inv") (w.entropy n 9)) ∙ fresh n))
      answered again (err store_failure) same = (same, refl)

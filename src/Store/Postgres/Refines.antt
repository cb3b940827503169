-- ===== src/Store/Postgres/Refines.antt =====
-- The Postgres store against the whole contract of a store, where no reply is lost.
use tonpayment.Base.{Bool, true, false, Option, none, some, ◌≡◌, refl, sym, ◌∙◌}
use mathlib.Core.Option
use tonpayment.Base.Text.{Text}
use tonpayment.Store.Invoices.{Invoice}
use tonpayment.Store.Contract.{
  Answer, ok, err, StoreError, SameLedger, Transition, IsStore, Keeping, SameTerms, Creation,
}
use tonpayment.Store.Contract.Once.{ClaimsOnce, IsStore-ClaimsOnce}
use tonpayment.Store.Postgres.{
  inserted, won, Database, Row, Statement, insert_row, claim_statement, expire_statement, Executed,
  affected, unique_violation, exec_failed, nt, postgres_store, scan_invoice, row_of, create_invoice,
  claim_invoice_for_settlement, expire_invoice,
}
use tonpayment.Store.Postgres.Table.{Contents, SameRows, Effect, IsTable, IsReadable, IsHeard}
use tonpayment.Store.Postgres.Transitions.{
  Implements, Inserted, Attempt, ledger, in_ledger, postgres-Implements, kept, kept_time,
}

module _ (db : Database) (c : Contents db) where
  open db use {State, exec}
  open c use {row, IsConsistent}

  -- An invoice and a time of settlement as they are read back from the table.
  abbrev pub as_read : Keeping
  as_read = record { keep = kept db c; keep_time = kept_time db c }

  kept-SameTerms : (inv : Invoice) → SameTerms (kept db c inv) inv
  unfolding scan_invoice row_of
  kept-SameTerms inv = record {
    id = refl;
    pay_to = refl;
    memo = refl;
    amount = refl;
    currency = refl;
    status = refl;
    tx_hash = refl;
  }

  scanned_id :
      (o : Option Row) (j : Text) (inv : Invoice)
      → ((r : Row) → o ≡ some r → r.id ≡ j)
      → Option.map (scan_invoice db) o ≡ some inv
      → inv.id ≡ j
  unfolding scan_invoice
  scanned_id none j inv k h = cc
  scanned_id (some r) j inv k h = cc (k r refl)

  -- Over a database with its documented meaning, whose reads do not fail and none of whose replies is
  -- lost.
  module _ (table : IsTable db c) (readable : (s : State) → IsReadable db c s)
      (heard : IsHeard db c) where
    same_ledger : (s s' : State) → SameRows db c s s' → SameLedger (ledger db c s) (ledger db c s')
    same_ledger s s' same j =
        in_ledger db c s' j (row j s) (readable s') (same j)
        ∙ sym (in_ledger db c s j (row j s) (readable s) refl)

    -- An error of a statement has changed nothing.
    unchanged :
        (st : Statement) (s : State)
        → IsConsistent s
        → (e : StoreError) → won db (exec st s).0 ≡ err e
        → SameRows db c s (exec st s).1
    unfolding won
    unchanged st s k e h = split (exec st s) refl (table.effect st s k) (heard st s) h
      where
        split :
            (r : Executed × State)
            → exec st s ≡ r
            → Effect db c st s r
            → (r.0 ≡ exec_failed → SameRows db c s r.1)
            → won db r.0 ≡ err e
            → SameRows db c s r.1
        split (affected n, s') q x told h = cc
        split (unique_violation, s') q x told h = x
        split (exec_failed, s') q x told h = told refl

    told :
        (g : Invoice → Invoice) (st : Statement) (s : State) (id : Text)
        → IsConsistent s
        → Attempt db c g id (ledger db c s) (ledger db c (exec st s).1) (won db (exec st s).0)
        → Transition g id (ledger db c s) (ledger db c (exec st s).1) (won db (exec st s).0)
    told g st s id k a = split (won db (exec st s).0) refl a
      where
        split :
            (r : Answer Bool)
            → won db (exec st s).0 ≡ r
            → Attempt db c g id (ledger db c s) (ledger db c (exec st s).1) r
            → Transition g id (ledger db c s) (ledger db c (exec st s).1) r
        split (ok true) q a = a
        split (ok false) q a = a
        split (err e) q a = same_ledger s (exec st s).1 (unchanged st s k e q)

    created :
        (inv : Invoice) (s : State)
        → IsConsistent s
        → Inserted db c inv
            (ledger db c s)
            (ledger db c (create_invoice db inv s).1)
            (create_invoice db inv s).0
        → Creation as_read inv
            (ledger db c s)
            (ledger db c (create_invoice db inv s).1)
            (create_invoice db inv s).0
    unfolding create_invoice inserted won
    created inv s k =
        split (exec (insert_row (row_of db inv)) s) (heard (insert_row (row_of db inv)) s)
      where
        split :
            (r : Executed × State)
            → (r.0 ≡ exec_failed → SameRows db c s r.1)
            → Inserted db c inv (ledger db c s) (ledger db c r.1) (inserted db r.0)
            → Creation as_read inv (ledger db c s) (ledger db c r.1) (inserted db r.0)
        split (affected n, s') told a = a.1
        split (unique_violation, s') told a = a
        split (exec_failed, s') told a = same_ledger s s' (told refl)

    -- Then the Postgres store meets the whole contract of a store, with invoices and times as the table
    -- keeps them.
    pub postgres-IsStore : IsStore (postgres_store db) IsConsistent as_read
    unfolding create_invoice claim_invoice_for_settlement expire_invoice
    postgres-IsStore = record {
      keeps_terms = kept-SameTerms;
      id_of = λ s j inv k h.
          scanned_id (row j s) j inv (λ r. table.keyed s j r k)
            (sym (in_ledger db c s j (row j s) (readable s) refl) ∙ h);
      create_keeps = λ inv s. table.keeps (insert_row (row_of db inv)) s;
      claim_keeps = λ id tx at s. table.keeps (claim_statement id tx (nt at)) s;
      expire_keeps = λ id s. table.keeps (expire_statement id) s;
      creates = λ inv s k unused. created inv s k ((implements s k).creates inv (readable _));
      claims = λ id tx at s k.
          told _ (claim_statement id tx (nt at)) s id k
            ((implements s k).claims id tx at (readable _));
      expires =
          λ id s k. told _ (expire_statement id) s id k ((implements s k).expires id (readable _));
    }
      where
        implements : (s : State) → IsConsistent s → Implements db c s
        implements s k = postgres-Implements db c table s k (readable s)

    -- So it claims once, as the theorems on interleavings ask.
    pub postgres-ClaimsOnce : ClaimsOnce (postgres_store db) IsConsistent
    postgres-ClaimsOnce =
        IsStore-ClaimsOnce (postgres_store db) IsConsistent as_read postgres-IsStore

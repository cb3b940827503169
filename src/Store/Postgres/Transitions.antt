-- ===== src/Store/Postgres/Transitions.antt =====
-- The methods of the Postgres store against the contract of a store.
use mathlib.Core.Option
use tonpayment.Base.{
  ℕ, Bool, true, false, Option, none, some, ◌≡◌, ◌≢◌, ◌⊎◌, List, [], ◌∷◌, inl, inr, refl, sym, ap,
  ◌∙◌, subst, if◌then◌else◌,
}
use tonpayment.Base.Text.{Text, text_eq}
use tonpayment.Store.Invoices.{Invoice, Time, pending, paid, expired}
use tonpayment.Store.Contract.{
  Answer, ok, err, memo_exists, store_failure, Ledger, SameLedger, Updated, Transition, NotPending,
  mark_paid, mark_expired,
}
use tonpayment.Store.Postgres.{
  Row, Assignment, set_status, set_tx_hash, set_paid_at, insert_row, update_rows, pending_at,
  claim_statement, expire_statement, Executed, affected, unique_violation, exec_failed, Database,
  nt, time_or_zero, scan_invoice, row_of, create_invoice, get_invoice, found_row,
  claim_invoice_for_settlement, expire_invoice, inserted, won,
}
use tonpayment.Store.Postgres.Update.{Changes, update-Changes}
use tonpayment.Store.Postgres.Table.{
  Contents, kept_row, assigned, SameRows, RowAt, Effect, IsTable, IsReadable,
}

module _ (db : Database) (c : Contents db) where
  open db use {State, exec}
  open c use {row, keep_time}

  abbrev pub ledger : State → Ledger
  ledger s j = get_invoice db j s

  -- The invoice as it is read back.
  abbrev pub kept : Invoice → Invoice
  kept inv = scan_invoice db (kept_row db c (row_of db inv))

  -- A time as it is read back from a column that may be NULL.
  abbrev pub kept_time : Time → Time
  kept_time t = time_or_zero (Option.map keep_time (nt t))

  -- The invoice is stored as it is kept, at an id that was not in use; a violation of a constraint
  -- changes nothing; and another error leaves it open whether the invoice is stored.
  abbrev pub Inserted : Invoice → Ledger → Ledger → Answer (Unit {0}) → Type 0
  Inserted inv l l' (ok _) = (l inv.id ≡ none) × Updated inv.id (kept inv) l l'
  Inserted inv l l' (err memo_exists) = SameLedger l l'
  Inserted inv l l' (err store_failure) =
      SameLedger l l' ⊎ ((l inv.id ≡ none) × Updated inv.id (kept inv) l l')

  -- An answer tells what happened; an error leaves it open whether the transition did.
  abbrev pub Attempt : (Invoice → Invoice) → Text → Ledger → Ledger → Answer Bool → Type 0
  Attempt change id l l' (ok b) = Transition change id l l' (ok b)
  Attempt change id l l' (err e) = SameLedger l l' ⊎ Transition change id l l' (ok true)

  pub in_ledger :
      (s : State) (j : Text) (o : Option Row)
      → IsReadable db c s
      → row j s ≡ o
      → ledger s j ≡ Option.map (scan_invoice db) o
  unfolding get_invoice found_row
  in_ledger s j none h e = rw (h j, e) refl
  in_ledger s j (some r) h e = rw (h j, e) refl

  same_ledger :
      (s s' : State)
      → IsReadable db c s
      → IsReadable db c s'
      → SameRows db c s s'
      → SameLedger (ledger s) (ledger s')
  same_ledger s s' h h' same j =
      in_ledger s' j (row j s) h' (same j) ∙ sym (in_ledger s j (row j s) h refl)

  if_map :
      (b : Bool) (r : Row) (o : Option Row)
      → Option.map (scan_invoice db) (if b then some r else o)
        ≡ (if b then some (scan_invoice db r) else Option.map (scan_invoice db) o)
  if_map true r o = refl
  if_map false r o = refl

  updated :
      (id : Text) (r : Row) (s s' : State)
      → IsReadable db c s
      → IsReadable db c s'
      → RowAt db c id r s s'
      → Updated id (scan_invoice db r) (ledger s) (ledger s')
  updated id r s s' h h' at j =
      in_ledger s' j (if text_eq id j then some r else row j s) h' (at j)
      ∙ if_map (text_eq id j) r (row j s)
      ∙ ap (λ o. if text_eq id j then some (scan_invoice db r) else o)
          (sym (in_ledger s j (row j s) h refl))

  none_pending :
      (id : Text) (s : State) (o : Option Row)
      → row id s ≡ o
      → ((r : Row) → row id s ≡ some r → r.status ≢ pending)
      → NotPending (Option.map (scan_invoice db) o)
  unfolding scan_invoice
  none_pending id s none e h = tt
  none_pending id s (some r) e h = h r e

  pub not_pending :
      (id : Text) (s : State)
      → IsReadable db c s
      → ((r : Row) → row id s ≡ some r → r.status ≢ pending)
      → NotPending (ledger s id)
  not_pending id s h n =
      subst NotPending (sym (in_ledger s id (row id s) h refl))
        (none_pending id s (row id s) refl n)

  module _ (table : IsTable db c) (s : State) (sound : c.IsConsistent s)
      (readable : IsReadable db c s) where
    module _ (sets : List Assignment) (g : Invoice → Invoice)
        (same : (r : Row) → scan_invoice db (assigned keep_time sets r) ≡ g (scan_invoice db r))
        (id : Text) where
      pub flips :
          (r : Row) (s' : State)
          → IsReadable db c s'
          → row id s ≡ some r
          → r.status ≡ pending
          → RowAt db c id (assigned keep_time sets r) s s'
          → Transition g id (ledger s) (ledger s') (ok true)
      flips r s' h e p at = (
        scan_invoice db r,
        in_ledger s id (some r) readable e,
        unfold scan_invoice in p,
        subst (λ inv. Updated id inv (ledger s) (ledger s')) (same r)
            (updated id (assigned keep_time sets r) s s' readable h at),
      )

      changed :
          (n : ℕ) (s' : State)
          → IsReadable db c s'
          → Changes db c table (assigned keep_time sets) id s s' n
          → Attempt g id (ledger s) (ledger s') (won db (affected n))
      unfolding won
      changed n s' h (inl (r, e, p, one, at)) = rw one (flips r s' h e p at)
      changed n s' h (inr (settled, zero_rows, rows)) =
          rw zero_rows (not_pending id s readable settled, same_ledger s s' readable h rows)

      maybe_changed :
          (n : ℕ) (s' : State)
          → IsReadable db c s'
          → Changes db c table (assigned keep_time sets) id s s' n
          → SameLedger (ledger s) (ledger s') ⊎ Transition g id (ledger s) (ledger s') (ok true)
      maybe_changed n s' h (inl (r, e, p, one, at)) = inr (flips r s' h e p at)
      maybe_changed n s' h (inr (settled, zero_rows, rows)) = inl (same_ledger s s' readable h rows)

      -- The effect of an UPDATE, as the result of a transition.
      flipped :
          (r : Executed × State)
          → Effect db c (update_rows sets (pending_at id)) s r
          → IsReadable db c r.1
          → Attempt g id (ledger s) (ledger r.1) (won db r.0)
      flipped (affected n, s') e h =
          changed n s' h (update-Changes db c table sets id s s' n sound e)
      flipped (unique_violation, s') e h = unfold won in inl (same_ledger s s' readable h e)
      flipped (exec_failed, s') (inl e) h = unfold won in inl (same_ledger s s' readable h e)
      flipped (exec_failed, s') (inr (n, e)) h =
          unfold won in maybe_changed n s' h (update-Changes db c table sets id s s' n sound e)

    stored_row :
        (inv : Invoice) (s' : State)
        → (row inv.id s ≡ none) × RowAt db c inv.id (kept_row db c (row_of db inv)) s s'
        → IsReadable db c s'
        → (ledger s inv.id ≡ none) × Updated inv.id (kept inv) (ledger s) (ledger s')
    stored_row inv s' (fresh, at) h = (
      in_ledger s inv.id none readable fresh,
      updated inv.id (kept_row db c (row_of db inv)) s s' readable h at,
    )

    insertion :
        (inv : Invoice) (r : Executed × State)
        → Effect db c (insert_row (row_of db inv)) s r
        → IsReadable db c r.1
        → Inserted inv (ledger s) (ledger r.1) (inserted db r.0)
    unfolding inserted row_of
    insertion inv (affected n, s') e h = stored_row inv s' e h
    insertion inv (unique_violation, s') e h = same_ledger s s' readable h e
    insertion inv (exec_failed, s') (inl e) h = inl (same_ledger s s' readable h e)
    insertion inv (exec_failed, s') (inr (n, e)) h = inr (stored_row inv s' e h)

  -- What the writes promise at a state: the transitions of the contract, with times as the table keeps
  -- them, and a creation that stores the invoice as it is kept, at an id that was not in use, or
  -- nothing; but an error other than a violation of a constraint leaves open which of the two it is.
  pub record Implements (s : State) : Type 1 where
    pub creates :
        (inv : Invoice)
        → IsReadable db c (create_invoice db inv s).1
        → Inserted inv (ledger s) (ledger (create_invoice db inv s).1) (create_invoice db inv s).0
    pub claims :
        (id tx : Text) (at : Time)
        → IsReadable db c (claim_invoice_for_settlement db id tx at s).1
        → Attempt
            (mark_paid tx (kept_time at))
            id
            (ledger s)
            (ledger (claim_invoice_for_settlement db id tx at s).1)
            (claim_invoice_for_settlement db id tx at s).0
    pub expires :
        (id : Text)
        → IsReadable db c (expire_invoice db id s).1
        → Attempt mark_expired id
            (ledger s)
            (ledger (expire_invoice db id s).1)
            (expire_invoice db id s).0

  -- Over a database whose statements mean what PostgreSQL documents of INSERT and UPDATE, in a
  -- consistent state that can be read before and after, the Postgres store keeps the contract of a store,
  -- with times and metadata as the table keeps them. A claim or an expiry that reports true has flipped
  -- the pending invoice at the id and nothing else; one that reports false has changed nothing, and no
  -- pending invoice stands there. A creation that reports no error has added the invoice at an id that
  -- was not in use; one that reports a memo that exists has changed nothing. After any other error either
  -- nothing has changed or the whole of it has happened.
  pub postgres-Implements :
      IsTable db c → (s : State) → c.IsConsistent s → IsReadable db c s → Implements s
  unfolding create_invoice claim_invoice_for_settlement expire_invoice
  postgres-Implements table s sound readable = record {
    creates = λ inv h.
        insertion table s sound readable inv (exec (insert_row (row_of db inv)) s)
          (table.effect (insert_row (row_of db inv)) s sound) h;
    claims = λ id tx at h.
        flipped table s sound readable (set_status paid ∷ set_tx_hash tx ∷ set_paid_at (nt at) ∷ [])
          (mark_paid tx (kept_time at)) (λ r. unfold scan_invoice in refl) id
          (exec (claim_statement id tx (nt at)) s)
          (table.effect (claim_statement id tx (nt at)) s sound) h;
    expires = λ id h.
        flipped table s sound readable (set_status expired ∷ []) mark_expired
          (λ r. unfold scan_invoice in refl) id (exec (expire_statement id) s)
          (table.effect (expire_statement id) s sound) h;
  }

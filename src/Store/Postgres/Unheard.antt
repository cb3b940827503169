-- ===== src/Store/Postgres/Unheard.antt =====
-- A claim that the database carries out but whose reply is lost.
use tonpayment.Base.{
  List, ℕ, Bool, Option, true, some, [], ◌∷◌, ◌≡◌, inl, inr, refl, ap, ◌∙◌, subst, arith,
}
use tonpayment.Base.Text.{Text, text_eq_refl}
use tonpayment.Store.Invoices.{Invoice, pending, paid}
use tonpayment.Store.Contract.{Store, Answer, NotPending, err, store_failure, mark_paid}
use tonpayment.Service.Program.{Service, done, failed, store_error}
use tonpayment.Service.Run.{World, run}
use tonpayment.Service.Settle.{settle, after_claim}
use tonpayment.Service.Status.{ledger, checked, confirmed, check_terminal}
use tonpayment.Service.Status.Outcomes.{run-settled}
use tonpayment.Store.Postgres.{
  Assignment, Database, set_status, set_tx_hash, set_paid_at, get_invoice, exec_failed, nt,
  claim_statement, postgres_store, scan_invoice, claim_invoice_for_settlement, won,
}
use tonpayment.Store.Postgres.Table.{Contents, Done, IsTable, IsReadable, assigned}
use tonpayment.Store.Postgres.Update.{Changes, update-Changes}
use tonpayment.Store.Postgres.Transitions.{not_pending, flips, kept_time}

same_invoice : {a b : Invoice} → (o : Option Invoice) → o ≡ some a → o ≡ some b → a ≡ b
same_invoice o e h = cc

-- A check whose claim reports an error, over any store.
module _ {S : Type 0} (store : Store S) (s : Service) (id : Text) (inv : Invoice) (w : World S)
    (there : ledger store w id ≡ some inv) (is_due : inv.status ≡ pending)
    (c : confirmed store (w.verdict inv) ≡ true) where
  abbrev claimed : Answer Bool × S
  claimed = store.claim_invoice_for_settlement inv.id (w.verdict inv).tx_hash w.clock w.state

  pub checked-err :
      claimed.0 ≡ err store_failure
      → checked store s id w ≡ (failed (store_error store_failure), record w { state = claimed.1 })
  unfolding settle run after_claim
  checked-err e =
      run-settled store s id inv w there is_due c
      ∙ ap
          (λ r.
            run store (after_claim s inv (w.verdict inv).tx_hash w.clock r)
              (record w { state = claimed.1 }))
          e

module _ (db : Database) (c : Contents db) (table : IsTable db c) where
  open db use {State, exec}
  open c use {row, IsConsistent}

  abbrev store : Store State
  store = postgres_store db

  module _ (s : Service) (inv : Invoice) (w : World State) (sound : IsConsistent w.state)
      (there : ledger store w inv.id ≡ some inv) (is_due : inv.status ≡ pending)
      (is_paid : confirmed store (w.verdict inv) ≡ true) where
    abbrev sent : State
    sent = (exec (claim_statement inv.id (w.verdict inv).tx_hash (nt w.clock)) w.state).1

    abbrev paid_inv : Invoice
    paid_inv = mark_paid (w.verdict inv).tx_hash (kept_time db c w.clock) inv

    same_paid :
        (new : Invoice)
        → ledger store w inv.id ≡ some new
        → mark_paid (w.verdict inv).tx_hash (kept_time db c w.clock) new ≡ paid_inv
    same_paid new e =
        ap (mark_paid (w.verdict inv).tx_hash (kept_time db c w.clock)) (same_invoice _ e there)

    -- What the claim assigns.
    abbrev sets : List Assignment
    sets = set_status paid ∷ set_tx_hash (w.verdict inv).tx_hash ∷ set_paid_at (nt w.clock) ∷ []

    module _ (before : IsReadable db c w.state) (behind : IsReadable db c sent) where
      carried :
          (n : ℕ)
          → Changes db c table (assigned c.keep_time sets) inv.id w.state sent n
          → get_invoice db inv.id sent ≡ some paid_inv
      carried n (inl (r, e, p, one, at)) =
          let (new, found, q, updated) =
            flips db c table w.state sound before sets
              (mark_paid (w.verdict inv).tx_hash (kept_time db c w.clock))
              (λ r. unfold scan_invoice in refl) inv.id r sent behind e p at in
          updated inv.id ∙ rw (text_eq_refl inv.id) (ap some (same_paid new found))
      carried n (inr (settled, zero_rows, rows)) =
          absurd (subst NotPending there (not_pending db c inv.id w.state before settled) is_due)

      -- A check confirms a pending invoice, in a consistent state that can be read before and after; the
      -- database carries out the claim but reports an error, as when the connection breaks before the
      -- reply. Then the check answers with the error and hands nothing to the webhook; the invoice is
      -- paid; and a later check of it on the table as it is then, whatever the verifier says, returns it
      -- as paid and hands nothing to the webhook either.
      pub unheard_claim :
          (exec (claim_statement inv.id (w.verdict inv).tx_hash (nt w.clock)) w.state).0
            ≡ exec_failed
          → (n : ℕ)
          → Done db c (claim_statement inv.id (w.verdict inv).tx_hash (nt w.clock)) w.state sent n
          → (later : World State) → later.state ≡ sent
          → (checked store s inv.id w
              ≡ (failed (store_error store_failure), record w { state = sent }))
            × (ledger store later inv.id ≡ some paid_inv)
            × (checked store s inv.id later ≡ (done paid_inv, later))
      unfolding claim_invoice_for_settlement won
      unheard_claim failed_exec n carried_out later same =
          let stands : ledger store later inv.id ≡ some paid_inv =
            ap (get_invoice db inv.id) same
            ∙ carried n (update-Changes db c table sets inv.id w.state sent n sound carried_out) in
          (
            checked-err store s inv.id inv w there is_due is_paid (rw failed_exec refl),
            stands,
            (check_terminal store s inv.id later).1 paid_inv stands (λ e. ground (arith, e)),
          )

-- ===== src/Store/Postgres/Tests.antt =====
-- A database with a table of one row at most, with times in microseconds, whose replies to an UPDATE may be
-- lost.
use mathlib.Core.Option
use tonpayment.Base.{
  ℕ, ◌+◌, ◌*◌, ◌/◌, Bool, true, false, Option, none, some, List, [], ◌∷◌, ◌≡◌, inl, inr, refl, sym,
  ap, ◌∙◌, if◌then◌else◌, Bool-cases,
}
use tonpayment.Base.Int.{pos, negsuc}
use tonpayment.Base.Text.{Text, codes, text_eq, text_eq_iff, text_eq_refl}
use tonpayment.Store.Invoices.{Invoice, Time, Status, pending}
use tonpayment.Store.Contract.{IsStore, store_failure, mark_paid}
use tonpayment.Service.Program.{Verdict, Service, done, failed, store_error}
use tonpayment.Service.Run.{World}
use tonpayment.Service.Status.{ledger, checked}
use tonpayment.Store.Postgres.Refines.{as_read, postgres-IsStore}
use tonpayment.Store.Postgres.Unheard.{unheard_claim}
use tonpayment.Store.Postgres.{
  postgres_store, Row, Assignment, set_status, set_tx_hash, set_paid_at, Condition, Statement,
  insert_row, update_rows, Executed, affected, unique_violation, exec_failed, Fetched, fetched,
  no_rows, Database, scan_invoice, get_invoice, claim_statement, nt,
}
use tonpayment.Store.Postgres.Table.{
  Contents, matches, assigned, Done, Effect, IsTable, IsReadable, IsHeard,
}
use tonpayment.Store.Postgres.Transitions.{Implements, postgres-Implements, kept_time}

abbrev micro : Time → Time
micro (pos n) = pos (n / 1000 * 1000)
micro (negsuc n) = negsuc (n / 1000 * 1000 + 999)

abbrev stored : Row → Row
stored r = record r {
  created_at = micro r.created_at;
  paid_at = Option.map micro r.paid_at;
  expires_at = Option.map micro r.expires_at;
}

abbrev report : Bool → ℕ → Executed
report true n = affected n
report false n = exec_failed

abbrev change : Bool → List Assignment → Row → Bool → Executed × Option Row
change hears sets r true = (report hears 1, some (assigned micro sets r))
change hears sets r false = (report hears 0, some r)

abbrev exec : Bool → Statement → Option Row → Executed × Option Row
exec hears (insert_row r) none = (affected 1, some (stored r))
exec hears (insert_row r) (some cur) = (unique_violation, some cur)
exec hears (update_rows sets cs) none = (report hears 0, none)
exec hears (update_rows sets cs) (some r) = change hears sets r (matches cs r)

abbrev row_at : Text → Option Row → Option Row
row_at j none = none
row_at j (some r) = if text_eq r.id j then some r else none

abbrev pub read : List Condition → Option Row → Fetched
read cs none = no_rows
read cs (some r) = if matches cs r then fetched r else no_rows

abbrev pub db : Bool → Database
db hears = record {
  State = Option Row;
  exec = exec hears;
  query_row = read;
  query = λ cs order s. some [];
  query_counts = λ cs c s. none;
  marshal = λ md. some (codes "{}");
  unmarshal = λ text. none;
}

abbrev pub contents : (hears : Bool) → Contents (db hears)
contents hears = record {
  row = row_at;
  keep_time = micro;
  keep_json = λ text. text;
  IsConsistent = λ s. Unit;
}

assigned_id : (sets : List Assignment) (r : Row) → (assigned micro sets r).id ≡ r.id
assigned_id [] r = refl
assigned_id (set_status st ∷ sets) r = assigned_id sets (record r { status = st })
assigned_id (set_tx_hash tx ∷ sets) r = assigned_id sets (record r { tx_hash = tx })
assigned_id (set_paid_at at ∷ sets) r =
    assigned_id sets (record r { paid_at = Option.map micro at })

some-injective : {r x : Row} → some r ≡ some x → r ≡ x
some-injective h = cc

found_at : (j : Text) (r x : Row) → row_at j (some r) ≡ some x → (x ≡ r) × (r.id ≡ j)
found_at j r x h = elim (Bool-cases (text_eq r.id j)) [
  | inl e ↦ (sym (some-injective (rw e at h)), (text_eq_iff r.id j).0 e)
  | inr e ↦ cc (rw e at h)
]

here : (r : Row) → row_at r.id (some r) ≡ some r
here r = rw (text_eq_refl r.id) refl

module _ (hears : Bool) where
  reported :
      (sets : List Assignment) (cs : List Condition) (s s' : Option Row) (n : ℕ)
      → Done (db hears) (contents hears) (update_rows sets cs) s s' n
      → Effect (db hears) (contents hears) (update_rows sets cs) s (report hears n, s')
  reported sets cs s s' n d = split hears d
    where
      split :
          (h : Bool)
          → Done (db hears) (contents hears) (update_rows sets cs) s s' n
          → Effect (db hears) (contents hears) (update_rows sets cs) s (report h n, s')
      split true d = d
      split false d = inr (n, d)

  row_met :
      (sets : List Assignment) (cs : List Condition) (r : Row)
      → matches cs r ≡ true
      → Done
          (db hears)
          (contents hears)
          (update_rows sets cs)
          (some r)
          (some (assigned micro sets r))
          1
  row_met sets cs r e = (
    λ j. elim (Bool-cases (text_eq r.id j)) [
      | inl q ↦ rw (ap (λ i. text_eq i j) (assigned_id sets r), q, e) refl
      | inr q ↦ rw (ap (λ i. text_eq i j) (assigned_id sets r), q) refl
    ],
    record { no_row = λ h. cc (h r.id r (here r), e); one_row = λ j x f m u. refl },
  )

  -- The row, met or not met by the conditions.
  changed :
      (sets : List Assignment) (cs : List Condition) (r : Row) (m : Bool)
      → matches cs r ≡ m
      → Effect (db hears) (contents hears) (update_rows sets cs) (some r) (change hears sets r m)
  changed sets cs r true e =
      reported sets cs (some r) (some (assigned micro sets r)) 1 (row_met sets cs r e)
  changed sets cs r false e = reported sets cs (some r) (some r) 0 (
    λ j. elim (Bool-cases (text_eq r.id j)) [ inl q ↦ rw (q, e) refl | inr q ↦ rw q refl ],
    record {
      no_row = λ h. refl;
      one_row = λ j x f m u. cc (ap (matches cs) (found_at j r x f).0, m, e);
    },
  )

  pub table : IsTable (db hears) (contents hears)
  table = record {
    keyed = λ s j r k h. keyed s j r h;
    keeps = λ st s k. tt;
    effect = λ st s k. effect st s;
  }
    where
      keyed : (s : Option Row) (j : Text) (r : Row) → row_at j s ≡ some r → r.id ≡ j
      keyed none j r h = cc
      keyed (some x) j r h = let (same, own) = found_at j x r h in ap (λ (y : Row). y.id) same ∙ own

      effect :
          (st : Statement) (s : Option Row)
          → Effect (db hears) (contents hears) st s (exec hears st s)
      effect (insert_row r) none = (refl, λ j. refl)
      effect (insert_row r) (some cur) = λ j. refl
      effect (update_rows sets cs) none =
          reported sets cs none none 0
            (λ j. refl, record { no_row = λ h. refl; one_row = λ j x f m u. cc })
      effect (update_rows sets cs) (some r) = changed sets cs r (matches cs r) refl

  pub readable : (s : Option Row) → IsReadable (db hears) (contents hears) s
  readable none j = refl
  readable (some r) j = elim (Bool-cases (text_eq r.id j)) [ inl e ↦ rw e refl | inr e ↦ rw e refl ]

-- With every reply heard, no statement fails.
pub heard : IsHeard (db true) (contents true)
heard (insert_row r) none h = cc
heard (insert_row r) (some cur) h = cc
heard (update_rows sets cs) none h = cc
heard (update_rows sets cs) (some r) h = split (matches cs r) h
  where
    split :
        (m : Bool)
        → (change true sets r m).0 ≡ exec_failed
        → (j : Text) → row_at j (change true sets r m).1 ≡ row_at j (some r)
    split true h = cc
    split false h = cc

abbrev pub open_row : Row
open_row = record {
  id = codes "inv_1";
  pay_to = codes "UQ";
  memo = codes "TON-1";
  amount_nano = pos 5;
  currency = codes "TON";
  status = pending;
  tx_hash = [];
  metadata = codes "{}";
  created_at = pos 100_000;
  paid_at = none;
  expires_at = some (pos 200_000);
}

postgres-Implements_example : Implements (db false) (contents false) (some open_row)
postgres-Implements_example =
    postgres-Implements (db false) (contents false) (table false) (some open_row) tt
      (readable false (some open_row))

whole_contract : IsStore (postgres_store (db true)) (λ s. Unit) (as_read (db true) (contents true))
whole_contract = postgres-IsStore (db true) (contents true) (table true) (readable true) heard

-- A check of the invoice over the database that loses replies.
abbrev yes : Verdict
yes = record { is_paid = true; tx_hash = codes "h2"; has_failed = false }

abbrev row_invoice : Invoice
row_invoice = scan_invoice (db false) open_row

abbrev cut_off : World (Option Row)
cut_off = record {
  state = some open_row;
  fired = [];
  clock = pos 150_000;
  verdict = λ inv. yes;
  entropy = λ n k. [];
  drawn = 0;
}

abbrev service : Service
service = record {
  default_pay_to = codes "UQ";
  currency = codes "TON";
  default_ttl = pos 3_600_000_000_000;
  max_ttl = pos 86_400_000_000_000;
  max_pending = pos 0;
  max_pending_per_addr = pos 0;
  has_webhook = true;
  testnet = false;
}

-- The row behind the claim, of which the check hears nothing.
abbrev paid_row : Option Row
paid_row = some (
    assigned micro
      (set_status Status.paid ∷ set_tx_hash (codes "h2") ∷ set_paid_at (some (pos 150_000)) ∷ [])
      open_row)

lost_reply :
    exec false (claim_statement row_invoice.id (codes "h2") (nt (pos 150_000))) (some open_row)
    ≡ (exec_failed, paid_row)
unfolding nt scan_invoice text_eq
lost_reply = refl

carried_out :
    Done
      (db false)
      (contents false)
      (claim_statement row_invoice.id (codes "h2") (nt (pos 150_000)))
      (some open_row)
      (exec false
        (claim_statement row_invoice.id (codes "h2") (nt (pos 150_000)))
        (some open_row)).1
      1
unfolding nt scan_invoice text_eq
carried_out =
    row_met false
      (set_status Status.paid ∷ set_tx_hash (codes "h2") ∷ set_paid_at (nt (pos 150_000)) ∷ []) _
      open_row refl

in_table : ledger (postgres_store (db false)) cut_off row_invoice.id ≡ some row_invoice
unfolding get_invoice scan_invoice text_eq
in_table = refl

-- A day later.
abbrev next_day : World (Option Row)
next_day = record cut_off { state = paid_row; clock = pos 86_400_000_150_000 }

unheard_claim_example :
    (checked (postgres_store (db false)) service row_invoice.id cut_off
      ≡ (failed (store_error store_failure), record cut_off { state = paid_row }))
    × (ledger (postgres_store (db false)) next_day row_invoice.id
        ≡ some (
            mark_paid
              (codes "h2")
              (kept_time (db false) (contents false) (pos 150_000))
              row_invoice))
    × (checked (postgres_store (db false)) service row_invoice.id next_day ≡ (
      done (
          mark_paid (codes "h2") (kept_time (db false) (contents false) (pos 150_000)) row_invoice),
      next_day,
    ))
unfolding nt scan_invoice text_eq
unheard_claim_example =
    unheard_claim (db false) (contents false) (table false) service row_invoice cut_off tt in_table
      (unfold scan_invoice in refl) refl (readable false (some open_row)) (readable false paid_row)
      (ap (λ r. r.0) lost_reply) 1 carried_out next_day refl

-- ===== src/Store/Postgres.antt =====
-- internal/store/postgres.go: the store over PostgreSQL. The database and its driver are parameters: a
-- statement is its syntax with its arguments, and `Table` states what any such statement means.
pub mod Table
pub mod Update
pub mod Transitions
pub mod Refines
pub mod Unheard
pub mod Tests
use mathlib.Core.Option
use tonpayment.Base.{
  ℕ, Bool, true, false, Option, none, some, List, [], ◌∷◌, map, ◌==◌, if◌then◌else◌,
}
use tonpayment.Base.Int.{ℤ}
use tonpayment.Base.Text.{Text, codes, is_empty}
use tonpayment.Base.Dict.{Dict}
use tonpayment.Store.Invoices.{Invoice, Status, pending, paid, expired, Time, zero_time, is_zero}
use tonpayment.Store.Contract.{Store, Answer, ok, err, memo_exists, store_failure}

-- A row of the table `invoices`, its columns in the order of `invoiceCols`; none is NULL.
pub record Row : Type 0 where
  pub id : Text
  pub pay_to : Text
  pub memo : Text
  pub amount_nano : ℤ
  pub currency : Text
  pub status : Status
  pub tx_hash : Text
  pub metadata : Text
  pub created_at : Time
  pub paid_at : Option Time
  pub expires_at : Option Time

-- The assignments behind SET, and the conditions behind WHERE, which AND joins.
pub data Assignment : Type 0 where
  set_status : Status → Assignment
  set_tx_hash : Text → Assignment
  set_paid_at : Option Time → Assignment

pub data Condition : Type 0 where
  id_is pay_to_is : Text → Condition
  status_is : Status → Condition

-- INSERT INTO invoices, and UPDATE invoices SET … WHERE ….
pub data Statement : Type 0 where
  insert_row : Row → Statement
  update_rows : List Assignment → List Condition → Statement

-- ORDER BY created_at, and with DESC.
pub data Order : Type 0 where
  oldest_first newest_first : Order

-- What `Exec` reports: the number of rows, SQLSTATE 23505, or another error.
pub data Executed : Type 0 where
  affected : ℕ → Executed
  unique_violation exec_failed : Executed

-- What `QueryRow` and `Scan` report.
pub data Fetched : Type 0 where
  fetched : Row → Fetched
  no_rows fetch_failed : Fetched

-- The pool of connections, each call of which ends within `opTimeout`, and `encoding/json`.
pub record Database : Type 1 where
  pub State : Type 0
  pub exec : Statement → State → Executed × State
  -- `QueryRow` of the columns WHERE the conditions hold
  pub query_row : List Condition → State → Fetched
  -- `Query` of them in an order: the rows that arrive
  pub query : List Condition → Order → State → Option (List Row)
  -- count(*), and count(*) FILTER (WHERE the second condition holds), WHERE the first ones hold
  pub query_counts : List Condition → Condition → State → Option (ℕ × ℕ)
  pub marshal : Dict Text → Option Text
  pub unmarshal : Text → Option (Dict Text)

-- `NewPostgres`: the pool that is returned, and the pools that are closed.
unfoldable pub new_postgres :
    {Pool : Type 0}
    → (Text → Option Pool)
    → (Pool → Bool)
    → (Pool → Bool)
    → Text
    → Option Pool × List Pool
new_postgres pool_new ping apply_schema url = elim (pool_new url) [
  | none ↦ (none, [])
  | some pool ↦
      if ping pool
      then (if apply_schema pool then (some pool, []) else (none, pool ∷ []))
      else (none, pool ∷ [])
]

unfoldable pub nt : Time → Option Time
nt t = if is_zero t then none else some t

unfoldable pub time_or_zero : Option Time → Time
time_or_zero none = zero_time
time_or_zero (some t) = t

-- `WHERE id=$1 AND status='pending'`
abbrev pub pending_at : Text → List Condition
pending_at id = id_is id ∷ status_is pending ∷ []

abbrev pub claim_statement : Text → Text → Option Time → Statement
claim_statement id tx_hash paid_at =
    update_rows (set_status paid ∷ set_tx_hash tx_hash ∷ set_paid_at paid_at ∷ []) (pending_at id)

abbrev pub expire_statement : Text → Statement
expire_statement id = update_rows (set_status expired ∷ []) (pending_at id)

module _ (db : Database) where
  open db use {State, exec, query_row, query, query_counts, marshal, unmarshal}

  -- A nil map is an empty list here, and marshals as "{}" too.
  meta_json : Dict Text → Text
  meta_json md = elim (marshal md) [ none ↦ codes "{}" | some text ↦ text ]

  scan_metadata : Text → Dict Text
  scan_metadata text =
      if is_empty text then [] else elim (unmarshal text) [ none ↦ [] | some md ↦ md ]

  unfoldable pub scan_invoice : Row → Invoice
  unfolding scan_metadata time_or_zero
  scan_invoice r = record {
    id = r.id;
    pay_to = r.pay_to;
    memo = r.memo;
    amount_nano = r.amount_nano;
    currency = r.currency;
    status = r.status;
    tx_hash = r.tx_hash;
    metadata = scan_metadata r.metadata;
    created_at = r.created_at;
    paid_at = time_or_zero r.paid_at;
    expires_at = time_or_zero r.expires_at;
  }

  unfoldable pub row_of : Invoice → Row
  unfolding meta_json nt
  row_of inv = record {
    id = inv.id;
    pay_to = inv.pay_to;
    memo = inv.memo;
    amount_nano = inv.amount_nano;
    currency = inv.currency;
    status = inv.status;
    tx_hash = inv.tx_hash;
    metadata = meta_json inv.metadata;
    created_at = inv.created_at;
    paid_at = nt inv.paid_at;
    expires_at = nt inv.expires_at;
  }

  unfoldable pub inserted : Executed → Answer (Unit {0})
  inserted (affected n) = ok tt
  inserted unique_violation = err memo_exists
  inserted exec_failed = err store_failure

  unfoldable pub create_invoice : Invoice → State → Answer (Unit {0}) × State
  unfolding inserted row_of
  create_invoice inv s = let (r, s') = exec (insert_row (row_of inv)) s in (inserted r, s')

  unfoldable pub found_row : Fetched → Option Invoice
  found_row (fetched r) = some (scan_invoice r)
  found_row no_rows = none
  found_row fetch_failed = none

  unfoldable pub get_invoice : Text → State → Option Invoice
  unfolding found_row
  get_invoice id s = found_row (query_row (id_is id ∷ []) s)

  scan_rows : Option (List Row) → List Invoice
  scan_rows none = []
  scan_rows (some rows) = map scan_invoice rows

  unfoldable pub list_invoices : State → List Invoice
  unfolding scan_rows
  list_invoices s = scan_rows (query [] newest_first s)

  unfoldable pub list_pending : State → List Invoice
  unfolding scan_rows
  list_pending s = scan_rows (query (status_is pending ∷ []) oldest_first s)

  counted_rows : Option (ℕ × ℕ) → Answer (ℕ × ℕ)
  counted_rows none = err store_failure
  counted_rows (some counts) = ok counts

  unfoldable pub pending_counts : Text → State → Answer (ℕ × ℕ)
  unfolding counted_rows
  pending_counts pay_to s =
      counted_rows (query_counts (status_is pending ∷ []) (pay_to_is pay_to) s)

  -- `tag.RowsAffected() == 1`
  unfoldable pub won : Executed → Answer Bool
  won (affected n) = ok (n == 1)
  won unique_violation = err store_failure
  won exec_failed = err store_failure

  unfoldable pub claim_invoice_for_settlement : Text → Text → Time → State → Answer Bool × State
  unfolding won nt
  claim_invoice_for_settlement id tx_hash paid_at s =
      let (r, s') = exec (claim_statement id tx_hash (nt paid_at)) s in (won r, s')

  unfoldable pub expire_invoice : Text → State → Answer Bool × State
  unfolding won
  expire_invoice id s = let (r, s') = exec (expire_statement id) s in (won r, s')

  abbrev pub postgres_store : Store State
  postgres_store = record {
    create_invoice = create_invoice;
    get_invoice = get_invoice;
    list_invoices = list_invoices;
    list_pending = list_pending;
    claim_invoice_for_settlement = claim_invoice_for_settlement;
    expire_invoice = expire_invoice;
    pending_counts = pending_counts;
  }

-- ===== src/Store/Postgres/Table.antt =====
-- What the store relies on of PostgreSQL and of its driver, for every statement of the syntax: an UPDATE
-- assigns to the rows that meet its conditions and counts them, an INSERT adds its row, both keep the
-- constraints of the schema, and a timestamp is kept in microseconds. A statement is atomic: where the
-- driver reports an error, it has had its whole effect or none; where the error is a violation of a
-- constraint, it has had none.
use mathlib.Core.Option
use tonpayment.Base.{
  ℕ, Bool, true, false, ◌&&◌, Option, none, some, List, [], ◌∷◌, ◌≡◌, ◌⊎◌, if◌then◌else◌,
}
use tonpayment.Base.Text.{Text, text_eq}
use tonpayment.Store.Invoices.{Time, Status, pending, paid, expired}
use tonpayment.Store.Postgres.{
  Row, Assignment, set_status, set_tx_hash, set_paid_at, Condition, id_is, pay_to_is, status_is,
  Statement, insert_row, update_rows, Executed, affected, unique_violation, exec_failed, Fetched,
  fetched, no_rows, Database,
}

abbrev pub same_status : Status → Status → Bool
same_status pending pending = true
same_status paid paid = true
same_status expired expired = true
same_status _ _ = false

abbrev pub holds : Condition → Row → Bool
holds (id_is id) r = text_eq r.id id
holds (pay_to_is pay_to) r = text_eq r.pay_to pay_to
holds (status_is st) r = same_status r.status st

abbrev pub matches : List Condition → Row → Bool
matches [] r = true
matches (c ∷ cs) r = holds c r && matches cs r

-- With the way a time is kept.
abbrev pub assigned : (Time → Time) → List Assignment → Row → Row
assigned keep [] r = r
assigned keep (set_status st ∷ sets) r = assigned keep sets (record r { status = st })
assigned keep (set_tx_hash tx ∷ sets) r = assigned keep sets (record r { tx_hash = tx })
assigned keep (set_paid_at at ∷ sets) r =
    assigned keep sets (record r { paid_at = Option.map keep at })

module _ (db : Database) where
  open db use {State, exec, query_row}

  -- What the table holds under each id, how it keeps a time and a JSON text, and that the constraints
  -- of the schema hold.
  pub record Contents : Type 1 where
    pub row : Text → State → Option Row
    pub keep_time : Time → Time
    pub keep_json : Text → Text
    pub IsConsistent : State → Type 0

  module _ (c : Contents) where
    open c use {row, keep_time, keep_json, IsConsistent}

    -- A row as the table keeps it.
    abbrev pub kept_row : Row → Row
    kept_row r = record r {
      metadata = keep_json r.metadata;
      created_at = keep_time r.created_at;
      paid_at = Option.map keep_time r.paid_at;
      expires_at = Option.map keep_time r.expires_at;
    }

    abbrev pub SameRows : State → State → Type 0
    SameRows s s' = (j : Text) → row j s' ≡ row j s

    abbrev pub RowAt : Text → Row → State → State → Type 0
    RowAt id r s s' = (j : Text) → row j s' ≡ (if text_eq id j then some r else row j s)

    -- The rows that meet the conditions are assigned to, and the others stay.
    abbrev pub Assigns : List Assignment → List Condition → State → State → Type 0
    Assigns sets cs s s' =
        (j : Text)
        → row j s'
          ≡ Option.map (λ (r : Row). if matches cs r then assigned keep_time sets r else r)
              (row j s)

    -- The number of rows that meet the conditions, where that is none or one.
    pub record IsCount (cs : List Condition) (s : State) (n : ℕ) : Type 0 where
      pub no_row : ((j : Text) (r : Row) → row j s ≡ some r → matches cs r ≡ false) → n ≡ 0
      pub one_row :
          (j : Text) (r : Row)
          → row j s ≡ some r
          → matches cs r ≡ true
          → ((i : Text) (x : Row) → row i s ≡ some x → matches cs x ≡ true → i ≡ j)
          → n ≡ 1

    abbrev pub Done : Statement → State → State → ℕ → Type 0
    Done (insert_row r) s s' n = (row r.id s ≡ none) × RowAt r.id (kept_row r) s s'
    Done (update_rows sets cs) s s' n = Assigns sets cs s s' × IsCount cs s n

    abbrev pub Effect : Statement → State → Executed × State → Type 0
    Effect st s (affected n, s') = Done st s s' n
    Effect st s (unique_violation, s') = SameRows s s'
    Effect st s (exec_failed, s') = SameRows s s' ⊎ ((n : ℕ) × Done st s s' n)

    pub record IsTable : Type 0 where
      -- the primary key
      pub keyed : (s : State) (j : Text) (r : Row) → IsConsistent s → row j s ≡ some r → r.id ≡ j
      pub keeps : (st : Statement) (s : State) → IsConsistent s → IsConsistent (exec st s).1
      pub effect : (st : Statement) (s : State) → IsConsistent s → Effect st s (exec st s)

    abbrev pub of_row : Option Row → Fetched
    of_row none = no_rows
    of_row (some r) = fetched r

    -- The reads of a state do not fail.
    abbrev pub IsReadable : State → Type 0
    IsReadable s = (j : Text) → query_row (id_is j ∷ []) s ≡ of_row (row j s)

    -- No reply is lost: an error is reported only where nothing has changed.
    abbrev pub IsHeard : Type 0
    IsHeard = (st : Statement) (s : State) → (exec st s).0 ≡ exec_failed → SameRows s (exec st s).1

-- ===== src/Store/Memory.antt =====
-- internal/store/memory.go: the in-memory store. A method that persists takes the disk and gives it
-- back; the locks make each method one atomic step.
pub mod Invariant
pub mod Refines
pub mod Pending
pub mod Tests
use tonpayment.Base.{
  ℕ, suc, Bool, true, false, Option, none, some, List, [], ◌∷◌, ◌++◌, map, if◌then◌else◌,
}
use tonpayment.Base.Int.{ltb_ℤ}
use tonpayment.Base.Text.{Text, codes, is_empty, text_eq}
use tonpayment.Base.Dict.{Dict, lookup, insert, delete}
use tonpayment.Base.Sort.{sort_by}
use tonpayment.Store.Invoices.{Invoice, Time, is_pending}
use tonpayment.Store.Files.{Files, Contents, found, missing, unreadable}
use tonpayment.Store.Contract.{
  Store, Answer, ok, err, memo_exists, store_failure, mark_paid, mark_expired,
}

pub record Memory : Type 0 where
  pub dir : Text
  pub invoices : Dict Invoice
  pub memos : Dict Text

-- payTo + "\x00" + memo
unfoldable pub memo_key : Text → Text → Text
memo_key pay_to memo = pay_to ++ 0 ∷ memo

-- The two writes of a creation, and the two deletes that take it back.
abbrev pub with_invoice : Invoice → Memory → Memory
with_invoice inv m = record m {
  invoices = insert inv.id inv m.invoices;
  memos = insert (memo_key inv.pay_to inv.memo) inv.id m.memos;
}

abbrev pub taken_back : Invoice → Memory → Memory
taken_back inv m = record m {
  invoices = delete inv.id m.invoices;
  memos = delete (memo_key inv.pay_to inv.memo) m.memos;
}

abbrev pub at_id : Text → Invoice → Memory → Memory
at_id id inv m = record m { invoices = insert id inv m.invoices }

module _ (os : Files) where
  open os use {Disk, read_file, mkdir_all, write_file, rename, join, marshal, unmarshal}

  -- A call that reads or changes the disk and may fail.
  abbrev pub Io : Type 0 → Type 0
  Io A = Disk → Option A × Disk

  abbrev and_then : {A B : Type 0} → Option A → (A → Io B) → Io B
  and_then none f d = (none, d)
  and_then (some a) f d = f a d

  infixl 5 ◌>>=◌ ◌>>◌
  abbrev ◌>>=◌ : {A B : Type 0} → Io A → (A → Io B) → Io B
  ◌>>=◌ m f d = let (r, d') = m d in and_then r f d'

  abbrev ◌>>◌ : {B : Type 0} → Io (Unit {0}) → Io B → Io B
  m >> n = m >>= λ _. n

  abbrev lift : {A : Type 0} → Option A → Io A
  lift r d = (r, d)

  unfoldable pub file : Memory → Text
  file m = join m.dir (codes "store.json")

  unfoldable pub tmp_file : Memory → Text
  unfolding file
  tmp_file m = file m ++ codes ".tmp"

  index_memos : Dict Invoice → Dict Text
  index_memos [] = []
  index_memos ((id, inv) ∷ rest) = insert (memo_key inv.pay_to inv.memo) id (index_memos rest)

  -- The snapshot read from the disk becomes the state; a null map keeps the state's own.
  restore : Memory → Option (Dict Invoice) → Memory
  unfolding index_memos
  restore m none = record m { memos = index_memos m.invoices }
  restore m (some s) = record m { invoices = s; memos = index_memos s }

  pub load : Memory → Disk → Option Memory
  unfolding restore file
  load m d = elim (read_file (file m) d) [
    | found b ↦ elim (unmarshal b) [ none ↦ none | some s ↦ some (restore m s) ]
    | missing ↦ some m
    | unreadable ↦ none
  ]

  pub new_memory : Text → Disk → Option Memory
  unfolding load
  new_memory dir d =
      let m : Memory = record { dir = dir; invoices = []; memos = [] } in
      if is_empty dir then some m else load m d

  write_snapshot : Memory → Io (Unit {0})
  unfolding tmp_file
  write_snapshot m = do
    mkdir_all m.dir
    b ← lift (marshal m.invoices)
    write_file (tmp_file m) b
    rename (tmp_file m) (file m)

  unfoldable pub persist : Memory → Io (Unit {0})
  unfolding write_snapshot
  persist m d = if is_empty m.dir then (some tt, d) else write_snapshot m d

  -- A change of the maps that is taken back if it cannot be written.
  after_persist :
      {A : Type 0} → A → Memory → Memory → Option (Unit {0}) → Disk → Answer A × (Memory × Disk)
  after_persist a updated rolled_back (some _) d = (ok a, (updated, d))
  after_persist a updated rolled_back none d = (err store_failure, (rolled_back, d))

  commit : {A : Type 0} → A → Memory → Memory → Disk → Answer A × (Memory × Disk)
  unfolding after_persist
  commit a updated rolled_back d =
      let (r, d') = persist updated d in after_persist a updated rolled_back r d'

  unfoldable pub create_invoice : Invoice → Memory × Disk → Answer (Unit {0}) × (Memory × Disk)
  unfolding commit
  create_invoice inv (m, d) = elim (lookup (memo_key inv.pay_to inv.memo) m.memos) [
    | some _ ↦ (err memo_exists, (m, d))
    | none ↦ commit tt (with_invoice inv m) (taken_back inv (with_invoice inv m)) d
  ]

  -- The two transitions out of `pending`: the guard, the write and the roll back are the same.
  pub transition : (Invoice → Invoice) → Text → Memory × Disk → Answer Bool × (Memory × Disk)
  unfolding commit
  transition change id (m, d) = elim (lookup id m.invoices) [
    | none ↦ (ok false, (m, d))
    | some cur ↦
        if is_pending cur.status
        then commit true (at_id id (change cur) m) (at_id id cur (at_id id (change cur) m)) d
        else (ok false, (m, d))
  ]

  unfoldable pub claim_invoice_for_settlement :
      Text → Text → Time → Memory × Disk → Answer Bool × (Memory × Disk)
  unfolding transition
  claim_invoice_for_settlement id tx_hash paid_at = transition (mark_paid tx_hash paid_at) id

  pub expire_invoice : Text → Memory × Disk → Answer Bool × (Memory × Disk)
  unfolding transition
  expire_invoice id = transition mark_expired id

-- The reads do not touch the disk.
unfoldable pub get_invoice : Text → Memory → Option Invoice
get_invoice id m = lookup id m.invoices

abbrev values : Dict Invoice → List Invoice
values = map λ (id, inv). inv

abbrev pub created_after : Invoice → Invoice → Bool
created_after a b = ltb_ℤ b.created_at a.created_at

abbrev pub created_before : Invoice → Invoice → Bool
created_before a b = ltb_ℤ a.created_at b.created_at

pub list_invoices : Memory → List Invoice
list_invoices m = sort_by created_after (values m.invoices)

keep_pending : List Invoice → List Invoice
keep_pending [] = []
keep_pending (inv ∷ rest) =
    let kept = keep_pending rest in if is_pending inv.status then inv ∷ kept else kept

pub list_pending : Memory → List Invoice
unfolding keep_pending
list_pending m = sort_by created_before (keep_pending (values m.invoices))

count_pending : Text → List Invoice → ℕ × ℕ → ℕ × ℕ
count_pending pay_to [] counts = counts
count_pending pay_to (inv ∷ rest) (total, for_addr) = count_pending pay_to rest (
    if is_pending inv.status
    then (suc total, if text_eq inv.pay_to pay_to then suc for_addr else for_addr)
    else (total, for_addr))

unfoldable pub pending_counts : Text → Memory → ℕ × ℕ
unfolding count_pending
pending_counts pay_to m = count_pending pay_to (values m.invoices) (0, 0)

module _ (os : Files) where
  -- `var _ Store = (*Memory)(nil)`
  unfoldable pub memory_store : Store (Memory × os.Disk)
  memory_store = record {
    create_invoice = create_invoice os;
    get_invoice = λ id s. get_invoice id s.0;
    list_invoices = λ s. list_invoices s.0;
    list_pending = λ s. list_pending s.0;
    claim_invoice_for_settlement = claim_invoice_for_settlement os;
    expire_invoice = expire_invoice os;
    pending_counts = λ pay_to s. ok (pending_counts pay_to s.0);
  }

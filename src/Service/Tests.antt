-- ===== src/Service/Tests.antt =====
-- A service with a webhook over the in-memory store: one call, and a whole run.
use tonpayment.Base.{ℕ, Option, true, false, some, List, [], ◌∷◌, ◌≡◌, ◌≤◌, ◌<◌, refl, arith}
use tonpayment.Base.Int.{pos}
use tonpayment.Base.Text.{Text, codes, text_eq, text_eq_iff}
use tonpayment.Base.Dict.{Dict, lookup, insert}
use tonpayment.Store.Invoices.{Invoice}
use tonpayment.Store.Contract.{Store, exactly, mark_paid, mark_expired}
use tonpayment.Store.Contract.Once.{ClaimsOnce, IsStore-ClaimsOnce}
use tonpayment.Store.Memory.{
  Memory, memory_store, get_invoice, claim_invoice_for_settlement, at_id, persist,
}
use tonpayment.Store.Memory.Invariant.{IsIndexed}
use tonpayment.Store.Memory.Refines.{memory-IsStore}
use tonpayment.Store.Memory.Tests.{
  files, open_invoice, empty_memory, one_invoice, one_invoice-IsIndexed, empty_memory-IsIndexed,
  has_open_invoice,
}
use tonpayment.Store.Postgres
use tonpayment.Store.Postgres.{Row, postgres_store, scan_invoice}
use tonpayment.Store.Postgres.Refines.{as_read, postgres-IsStore}
use tonpayment.Store.Postgres.Tests.{db, contents, table, readable, heard, open_row}
use tonpayment.Service.Program.{ret, Verdict, Service, done, ◌>>=◌}
use tonpayment.Service.Run.{World, run}
use tonpayment.Service.Settle.{check_status, settle}
use tonpayment.Service.Status.{ledger, checked}
use tonpayment.Service.Status.Outcomes.{Becomes, check_settles, check_expires}
use tonpayment.Service.Create.{create, resolve, metadata_bytes}
use tonpayment.Service.Create.Succeeds.{first_drawn, create_succeeds}
use tonpayment.Store.Contract.{ok}
use tonpayment.Store.Memory.{create_invoice, pending_counts}
use tonpayment.Service.Create.Asked.{IsAsked, Created}
use tonpayment.Service.Create.Outcomes.{create_sound}
use tonpayment.Service.Create.Allocate.{IsFresh}
use tonpayment.Service.Interleave.{
  Shared, gets, claims, verifies, fires, reads_clock, locks, unlocks, Config, here, act, start,
  Reach, begin, next,
}
use tonpayment.Service.Interleave.Balance.{times_fired, settled}
use tonpayment.Service.Interleave.Once.{
  ServiceCall, checks, IsPaid, IsQuiet, at_most_once, exactly_once,
}

abbrev pub service : Service
service = record {
  default_pay_to = codes "UQ";
  currency = codes "TON";
  default_ttl = pos 3_600_000_000_000;
  max_ttl = pos 86_400_000_000_000;
  max_pending = pos 0;
  max_pending_per_addr = pos 0;
  has_webhook = true;
  testnet = false;
}

abbrev pub DiskStore : Type 0
DiskStore = Memory × Dict Text

abbrev pub store : Store DiskStore
store = memory_store files

abbrev pub id : Text
id = codes "inv_1"

abbrev pub yes : Verdict
yes = record { is_paid = true; tx_hash = codes "h2"; has_failed = false }

abbrev pub not_yet : Verdict
not_yet = record { is_paid = false; tx_hash = []; has_failed = false }

abbrev pub world : Verdict → ℕ → World DiskStore
world v at = record {
  state = (one_invoice, []);
  fired = [];
  clock = pos at;
  verdict = λ inv. v;
  entropy = λ n k. [];
  drawn = 0;
}

in_ledger : (v : Verdict) (at : ℕ) → ledger store (world v at) id ≡ some open_invoice
unfolding memory_store
in_ledger v at = has_open_invoice

check_settles_example :
    Becomes store id
      (mark_paid (codes "h2") (pos 150) open_invoice)
      (mark_paid (codes "h2") (pos 150) open_invoice)
      (mark_paid (codes "h2") (pos 150) open_invoice ∷ [])
      (world yes 150)
      (checked store service id (world yes 150))
check_settles_example =
    check_settles store (λ s. IsIndexed s.0) exactly (memory-IsStore files) service id open_invoice
      (world yes 150) one_invoice-IsIndexed (in_ledger yes 150) refl refl

-- The same over the Postgres store, whose table keeps times in microseconds.
abbrev table_world : World (Option Row)
table_world = record {
  state = some open_row;
  fired = [];
  clock = pos 201_000;
  verdict = λ inv. not_yet;
  entropy = λ n k. [];
  drawn = 0;
}

abbrev row_invoice : Invoice
row_invoice = scan_invoice (db true) open_row

in_table : ledger (postgres_store (db true)) table_world id ≡ some row_invoice
unfolding Postgres.get_invoice text_eq
in_table = refl

check_expires_example :
    Becomes
      (postgres_store (db true))
      id
      (mark_expired row_invoice)
      (mark_expired row_invoice)
      []
      table_world
      (checked (postgres_store (db true)) service id table_world)
unfolding scan_invoice
check_expires_example =
    check_expires (postgres_store (db true)) (λ s. Unit) (as_read (db true) (contents true))
      (postgres-IsStore (db true) (contents true) (table true) (readable true) heard) service id
      row_invoice table_world tt in_table refl refl refl

abbrev settled_invoice : Invoice
settled_invoice = mark_paid (codes "h2") (pos 150) open_invoice

abbrev shared : Memory → List Invoice → List Text → Shared DiskStore
shared m fired held = record { state = (m, []); fired = fired; held = held }

abbrev at_start : Config DiskStore
at_start = record { callers = []; shared = shared one_invoice [] [] }

-- One status check has run to its end.
abbrev at_end : Config DiskStore
at_end = record {
  callers = ret (done settled_invoice) ∷ [];
  shared = shared (at_id id settled_invoice one_invoice) (settled_invoice ∷ []) [];
}

quiet : IsQuiet store (λ s. IsIndexed s.0) at_start
unfolding memory_store get_invoice lookup insert
quiet = record {
  idle = refl;
  sound = one_invoice-IsIndexed;
  notified = λ j. ground (arith, text_eq_iff id j);
}

ran : Reach store (ServiceCall service) at_start at_end
unfolding memory_store get_invoice claim_invoice_for_settlement persist check_status settle ◌>>=◌
    lookup insert text_eq
ran =
    next
      (next
        (next
          (next
            (next
              (next
                (next
                  (next (next begin (start (check_status service id) (checks id refl)))
                    (act here (gets id _ _)))
                  (act here (verifies open_invoice _ _ yes)))
                (act here (locks id _ _ tt)))
              (act here (gets id _ _)))
            (act here (reads_clock _ _ (pos 150))))
          (act here (claims id (codes "h2") (pos 150) _ _)))
        (act here (fires settled_invoice _ _)))
      (act here (unlocks id _ _ [] [] refl))

once : ClaimsOnce store (λ s. IsIndexed s.0)
once = IsStore-ClaimsOnce store (λ s. IsIndexed s.0) exactly (memory-IsStore files)

exactly_once_example :
    times_fired id at_end.shared.fired ≡ settled (store.get_invoice id at_end.shared.state)
exactly_once_example =
    exactly_once store (λ s. IsIndexed s.0) once service refl at_start at_end quiet ran (tt, tt) id

at_most_once_example :
    (times_fired id at_end.shared.fired ≤ 1)
    × (0 < times_fired id at_end.shared.fired → IsPaid (store.get_invoice id at_end.shared.state))
at_most_once_example =
    at_most_once store (λ s. IsIndexed s.0) once service refl at_start at_end quiet ran id

-- A world whose draws are all zero, and a request for an hour on an empty store.
abbrev pub fresh_world : World DiskStore
fresh_world = record {
  state = (empty_memory, []);
  fired = [];
  clock = pos 100;
  verdict = λ inv. not_yet;
  entropy = λ n k. 0 ∷ 0 ∷ 0 ∷ 0 ∷ 0 ∷ 0 ∷ 0 ∷ 0 ∷ 0 ∷ [];
  drawn = 0;
}

pub all-IsFresh : IsFresh store fresh_world
unfolding memory_store get_invoice lookup
all-IsFresh n = refl

create_sound_example :
    Created store exactly service []
      (pos 5)
      (pos 0)
      []
      fresh_world
      (run store (create service [] (pos 5) (pos 0) []) fresh_world)
create_sound_example =
    create_sound store (λ s. IsIndexed s.0) exactly (memory-IsStore files) service [] (pos 5)
      (pos 0) [] fresh_world empty_memory-IsIndexed all-IsFresh

takes_it :
    (store.create_invoice
      (first_drawn store service [] (codes "UQ") (pos 5) (pos 0) [] fresh_world)
      fresh_world.state).0
    ≡ ok tt
unfolding memory_store create_invoice persist lookup
takes_it = refl

no_pending : store.pending_counts (codes "UQ") fresh_world.state ≡ ok (0, 0)
unfolding memory_store pending_counts
no_pending = refl

abbrev first_new : Invoice
first_new = first_drawn store service [] (codes "UQ") (pos 5) (pos 0) [] fresh_world

create_succeeds_example :
    ((run store (create service [] (pos 5) (pos 0) []) fresh_world).0 ≡ done first_new)
    × IsAsked service [] (pos 5) (pos 0) [] fresh_world.clock fresh_world.entropy first_new
    × (ledger store (run store (create service [] (pos 5) (pos 0) []) fresh_world).1 first_new.id
        ≡ some first_new)
unfolding metadata_bytes
create_succeeds_example =
    create_succeeds store (λ s. IsIndexed s.0) exactly (memory-IsStore files) service []
      (codes "UQ") (pos 5) (pos 0) [] fresh_world empty_memory-IsIndexed all-IsFresh (omega arith)
      (unfold resolve in refl) (λ e. cc) (omega arith) (omega arith) 0 0 no_pending (omega arith)
      (omega arith) takes_it

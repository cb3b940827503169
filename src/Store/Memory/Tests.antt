-- ===== src/Store/Memory/Tests.antt =====
-- A store on a disk that is a map from paths to contents.
use tonpayment.Base.{Option, none, some, [], ◌∷◌, ◌++◌, ◌≡◌, refl, Bool, ◌&&◌, true}
use tonpayment.Base.Int.{pos}
use tonpayment.Base.Text.{Text, codes, text_eq}
use tonpayment.Base.Dict.{Dict, lookup, insert}
use tonpayment.Store.Invoices.{Invoice, is_pending, pending, zero_time}
use tonpayment.Store.Files.{Files, Contents, found, missing}
use tonpayment.Store.Contract.{IsStore, exactly, err, memo_exists}
use tonpayment.Store.Memory.{
  load, restore, Memory, memory_store, memo_key, get_invoice, create_invoice, with_invoice, persist,
  new_memory, list_pending, created_before, values, pending_counts,
}
use tonpayment.Store.Memory.Invariant.{IsIndexed, with_invoice-IsIndexed}
use tonpayment.Store.Memory.Refines.{memory-IsStore}
use tonpayment.Base.Sort.{IsSorted, count_by}
use tonpayment.Store.Memory.Pending.{list_pending_lem}

abbrev pub move : Text → Option Text → Dict Text → Option (Unit {0}) × Dict Text
move q none d = (none, d)
move q (some b) d = (some tt, insert q b d)

abbrev pub contents : Option Text → Contents
contents none = missing
contents (some b) = found b

abbrev pub files : Files
files = record {
  Disk = Dict Text;
  read_file = λ p d. contents (lookup p d);
  mkdir_all = λ p d. (some tt, d);
  write_file = λ p b d. (some tt, insert p b d);
  rename = λ p q d. move q (lookup p d) d;
  join = λ p q. p ++ b'/' ∷ q;
  marshal = λ m. some (codes "{}");
  unmarshal = λ b. some none;
}

memory-IsStore_example : IsStore (memory_store files) (λ s. IsIndexed s.0) exactly
memory-IsStore_example = memory-IsStore files

abbrev pub open_invoice : Invoice
open_invoice = record {
  id = codes "inv_1";
  pay_to = codes "UQ";
  memo = codes "TON-0011";
  amount_nano = pos 2_500_000_000;
  currency = codes "TON";
  status = pending;
  tx_hash = [];
  metadata = [];
  created_at = pos 100;
  paid_at = zero_time;
  expires_at = pos 200;
}

abbrev pub empty_memory : Memory
empty_memory = record { dir = []; invoices = []; memos = [] }

pub empty_memory-IsIndexed : IsIndexed empty_memory
unfolding lookup
empty_memory-IsIndexed = record { own_id = λ j inv h. cc; indexed = λ j inv h. cc }

-- The store once the invoice is created.
abbrev pub one_invoice : Memory
one_invoice = with_invoice open_invoice empty_memory

pub one_invoice-IsIndexed : IsIndexed one_invoice
one_invoice-IsIndexed =
    with_invoice-IsIndexed empty_memory open_invoice empty_memory-IsIndexed (unfold lookup in refl)

pub has_open_invoice : get_invoice (codes "inv_1") one_invoice ≡ some open_invoice
unfolding get_invoice lookup insert text_eq
has_open_invoice = refl

-- The same address and memo again, under another id, is refused.
refused :
    (create_invoice files (record open_invoice { id = codes "inv_2" }) (one_invoice, [])).0
    ≡ err memo_exists
unfolding create_invoice lookup insert text_eq memo_key
refused = refl

-- A disk whose JSON knows one map of invoices.
abbrev snapshot_files : Files
snapshot_files = record files { unmarshal = λ b. some (some one_invoice.invoices) }

abbrev on_disk : Memory
on_disk = record one_invoice { dir = codes "data" }

saved : (persist snapshot_files on_disk []).0 ≡ some tt
unfolding persist lookup insert text_eq
saved = refl

-- What was written is loaded.
restored :
    new_memory snapshot_files (codes "data") (persist snapshot_files on_disk []).1 ≡ some on_disk
unfolding new_memory load persist lookup insert text_eq restore memo_key
restored = refl

list_pending_lem_example :
    IsSorted created_before (list_pending one_invoice)
    × ((test : Invoice → Bool)
        → count_by test (list_pending one_invoice)
          ≡ count_by (λ inv. is_pending inv.status && test inv) (values one_invoice.invoices))
    × ((pending_counts (codes "UQ") one_invoice).0
        ≡ count_by (λ inv. true) (list_pending one_invoice))
    × ((pending_counts (codes "UQ") one_invoice).1
        ≡ count_by (λ inv. text_eq inv.pay_to (codes "UQ")) (list_pending one_invoice))
list_pending_lem_example = list_pending_lem one_invoice (codes "UQ")

-- ===== src/Deeplink/Tests.antt =====
-- A link whose memo needs escapes, and a bill from the request for it to its settlement.
use mathlib.Core.List.{cons-ne-nil}
use tonpayment.Base.{some, [], ◌∷◌, ◌≡◌, refl, sym, ◌∙◌, arith}
use tonpayment.Base.Int.{pos, ◌-ℤ◌, ◌≤ℤ◌}
use tonpayment.Base.Text.{codes, text_eq}
use tonpayment.Wallet.Ton.Match.{Pays, pays_iff}
use tonpayment.Wallet.Ton.Tests.{bill, payment, too_little, verifier, paid_by}
use tonpayment.Http.Handlers.{invoice_view}
use tonpayment.Deeplink.{build}
use tonpayment.Deeplink.Query.{Payment, read_link, read_link-build}
use tonpayment.Store.Invoices.{Invoice, hour, unix}
use tonpayment.Store.Contract.{IsStore, ok, exactly, mark_paid}
use tonpayment.Store.Memory.{memory_store, create_invoice, pending_counts, persist, get_invoice}
use tonpayment.Store.Memory.Invariant.{IsIndexed}
use tonpayment.Store.Memory.Refines.{memory-IsStore}
use tonpayment.Store.Memory.Tests.{files, empty_memory-IsIndexed}
use tonpayment.Base.Dict.{lookup, insert}
use tonpayment.Golib.Hex
use tonpayment.Golib.Base64
use tonpayment.Idgen.{id_of}
use tonpayment.Wallet.Memo.{memo_of}
use tonpayment.Wallet.Ton.{Transaction, Toncenter, verify}
use tonpayment.Wallet.Ton.Confirm.{Confirms}
use tonpayment.Tonaddr.Tests.{masterchain_text, on_mainnet}
use tonpayment.Service.Program.{Prog, Reply, done}
use tonpayment.Service.Run.{World, run}
use tonpayment.Service.Status.{ledger, checked}
use tonpayment.Service.Status.Outcomes.{Becomes, notified}
use tonpayment.Service.Create.{create, resolve, metadata_bytes}
use tonpayment.Service.Create.Succeeds.{first_drawn, create_succeeds}
use tonpayment.Service.Tests.{DiskStore, store, service, fresh_world, all-IsFresh}
use tonpayment.Deeplink.Paid.{new-IsAsked, created_paid}
use tonpayment.Deeplink.Confirmed.{Follows}

read_link-build_example :
    read_link (build (codes "UQab_-1") (pos 2_500_000_000) (codes "TON 1&2"))
    ≡ some (record {
      pay_to = codes "UQab_-1";
      amount_nano = pos 2_500_000_000;
      memo = codes "TON 1&2";
    })
read_link-build_example =
    read_link-build (codes "UQab_-1") (pos 2_500_000_000) (codes "TON 1&2") (omega arith)
      (omega arith) (omega arith)

abbrev asked : Payment
asked = record { pay_to = bill.pay_to; amount_nano = bill.amount_nano; memo = bill.memo }

link : read_link (invoice_view bill).deeplink ≡ some asked
unfolding invoice_view
link =
    read_link-build bill.pay_to bill.amount_nano bill.memo (omega arith) (omega arith) (omega arith)

payment-Pays : Pays bill payment
payment-Pays = (pays_iff bill payment).0 paid_by

follows : Follows asked payment
follows = record {
  memo = refl;
  enough = payment-Pays.enough;
  to_account = λ want e. payment-Pays.to_account want e (cons-ne-nil _ _);
}

late_enough : unix (bill.created_at -ℤ pos hour) ≤ℤ payment.utime
unfolding unix ◌-ℤ◌
late_enough = omega arith

-- The bill is asked for on an empty store, with the address of the masterchain.
abbrev new_bill : Invoice
new_bill =
    first_drawn store service masterchain_text masterchain_text (pos 2_500_000_000) (pos 0) []
      fresh_world

bill_taken : (store.create_invoice new_bill fresh_world.state).0 ≡ ok tt
unfolding memory_store create_invoice persist lookup
bill_taken = refl

none_pending : store.pending_counts masterchain_text fresh_world.state ≡ ok (0, 0)
unfolding memory_store pending_counts
none_pending = refl

abbrev ask : Prog Reply
ask = create service masterchain_text (pos 2_500_000_000) (pos 0) []

asked_bill : (run store ask fresh_world).0 ≡ done new_bill
unfolding metadata_bytes
asked_bill =
    (create_succeeds store (λ s. IsIndexed s.0) exactly (memory-IsStore files) service
      masterchain_text masterchain_text (pos 2_500_000_000) (pos 0) [] fresh_world
      empty_memory-IsIndexed all-IsFresh (omega arith) (unfold resolve in on_mainnet) (λ e. cc)
      (omega arith) (omega arith) 0 0 none_pending (omega arith) (omega arith) bill_taken).0

-- What toncenter lists a minute later, and the world of the status check.
abbrev transfer : Transaction
transfer = record payment { message = new_bill.memo }

abbrev listed : Toncenter
listed = record {
  get = λ url. some (200, codes "body");
  decode = λ body. some (too_little ∷ transfer ∷ []);
}

abbrev minute_later : World DiskStore
minute_later = record fresh_world {
  state = (store.create_invoice new_bill fresh_world.state).1;
  clock = pos 60_000_000_100;
  verdict = verify listed verifier;
}

laws : IsStore store (λ s. IsIndexed s.0) exactly
laws = memory-IsStore files

in_store : ledger store minute_later new_bill.id ≡ some new_bill
unfolding memory_store create_invoice get_invoice persist lookup insert text_eq id_of Base64.encode
in_store = refl

still_stands :
    ledger store minute_later new_bill.id ≡ ledger store (run store ask fresh_world).1 new_bill.id
still_stands =
    in_store
    ∙ sym
        (new-IsAsked store (λ s. IsIndexed s.0) exactly laws service masterchain_text
          (pos 2_500_000_000) (pos 0) [] fresh_world empty_memory-IsIndexed all-IsFresh
          (λ n k. omega arith) (omega arith) (omega arith) new_bill asked_bill).1

abbrev asked_new : Payment
asked_new = record asked { memo = new_bill.memo }

new_link : read_link (invoice_view new_bill).deeplink ≡ some asked_new
unfolding invoice_view memo_of Hex.encode
new_link =
    read_link-build new_bill.pay_to new_bill.amount_nano new_bill.memo (omega arith) (omega arith)
      (omega arith)

transfer-Follows : Follows asked_new transfer
transfer-Follows = record { memo = refl; enough = follows.enough; to_account = follows.to_account }

transfer_late : unix (new_bill.created_at -ℤ pos hour) ≤ℤ transfer.utime
unfolding unix ◌-ℤ◌
transfer_late = omega arith

created_paid_example :
    Confirms listed verifier new_bill (verify listed verifier new_bill)
    × Becomes store new_bill.id
        (mark_paid (verify listed verifier new_bill).tx_hash (pos 60_000_000_100) new_bill)
        (mark_paid (verify listed verifier new_bill).tx_hash (pos 60_000_000_100) new_bill)
        (notified store service
          (mark_paid (verify listed verifier new_bill).tx_hash (pos 60_000_000_100) new_bill)
          [])
        minute_later
        (checked store service new_bill.id minute_later)
created_paid_example =
    created_paid store (λ s. IsIndexed s.0) exactly laws service masterchain_text
      (pos 2_500_000_000) (pos 0) [] fresh_world empty_memory-IsIndexed all-IsFresh
      (λ n k. omega arith) (omega arith) (omega arith) new_bill asked_bill listed verifier
      minute_later (laws.create_keeps new_bill fresh_world.state empty_memory-IsIndexed)
      still_stands refl asked_new (codes "body") (too_little ∷ []) [] transfer new_link
      transfer-Follows transfer_late refl refl

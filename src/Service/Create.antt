-- ===== src/Service/Create.antt =====
-- `CreateInvoice` and `validateMetadata` of internal/service/service.go.
pub mod Allocate
pub mod Asked
pub mod Outcomes
pub mod Succeeds
use tonpayment.Base.{
  ℕ, zero, suc, ◌+◌, ◌*◌, Bool, true, false, ◌&&◌, ◌||◌, Option, none, some, List, [], ◌∷◌, ltb,
  length, if◌then◌else◌,
}
use tonpayment.Base.Int.{ℤ, pos, ltb_ℤ, leb_ℤ, ◌+ℤ◌}
use tonpayment.Base.Text.{Text, codes, is_empty}
use tonpayment.Base.Dict.{Dict}
use tonpayment.Tonaddr
use tonpayment.Tonaddr.{normalize_on_network}
use tonpayment.Idgen.{id_of}
use tonpayment.Wallet.Memo.{memo_of}
use tonpayment.Store.Invoices.{Invoice, Time, pending, zero_time}
use tonpayment.Store.Contract.{Answer, ok, err, memo_exists, store_failure}
use tonpayment.Service.Program.{
  Prog, ret, create_invoice, pending_counts, now, random, Service, ServiceError, bad_amount,
  bad_pay_to, no_address, too_many_keys, metadata_too_large, too_many_pending, too_many_for_address,
  no_unique_memo, store_error, Reply, done, failed,
}

abbrev pub max_metadata_keys : ℕ
max_metadata_keys = 64

abbrev pub max_metadata_bytes : ℕ
max_metadata_bytes = 8 * 1024

unfoldable pub metadata_bytes : Dict Text → ℕ
metadata_bytes [] = 0
metadata_bytes ((k, v) ∷ md) = length k + length v + metadata_bytes md

unfoldable pub validate_metadata : Dict Text → Option ServiceError
validate_metadata md =
    if ltb max_metadata_keys (length md)
    then some too_many_keys
    else if ltb max_metadata_bytes (metadata_bytes md)
    then some metadata_too_large
    else none

-- The receiving address: the request's own, in canonical form, or the default.
unfoldable pub resolve : Service → Text → Tonaddr.Checked Text
resolve s [] = Tonaddr.valid s.default_pay_to
resolve s (c ∷ pay_to) = normalize_on_network (c ∷ pay_to) s.testnet

-- The default for a TTL that is not positive, and the cap.
unfoldable pub clamp_ttl : Service → ℤ → ℤ
clamp_ttl s ttl =
    let ttl' = if leb_ℤ ttl (pos 0) then s.default_ttl else ttl in
    if ltb_ℤ s.max_ttl ttl' then s.max_ttl else ttl'

-- Five attempts at a memo that the store does not have.
unfoldable pub allocate : ℕ → Invoice → Prog Reply
allocate zero inv = ret (failed no_unique_memo)
allocate (suc attempts) inv = random 9 λ id_bytes. random 16 λ memo_bytes.
    let new = record inv { id = id_of (codes "inv") id_bytes; memo = memo_of memo_bytes } in
    create_invoice new λ answer. elim answer [
      | ok _ ↦ ret (done new)
      | err memo_exists ↦ allocate attempts inv
      | err store_failure ↦ ret (failed (store_error store_failure))
    ]

abbrev pub new_invoice : Service → Text → ℤ → ℤ → Dict Text → Time → Invoice
new_invoice s addr amount_nano ttl metadata at = record {
  id = [];
  pay_to = addr;
  memo = [];
  amount_nano = amount_nano;
  currency = s.currency;
  status = pending;
  tx_hash = [];
  metadata = metadata;
  created_at = at;
  paid_at = zero_time;
  expires_at = at +ℤ clamp_ttl s ttl;
}

unfoldable pub store_new : Service → Text → ℤ → ℤ → Dict Text → Prog Reply
unfolding allocate
store_new s addr amount_nano ttl metadata =
    now λ at. allocate 5 (new_invoice s addr amount_nano ttl metadata at)

-- The caps on the pending invoices, in total and for the address; 0 is no cap.
abbrev pub is_capped : ℤ → ℕ → Bool
is_capped cap count = ltb_ℤ (pos 0) cap && leb_ℤ cap (pos count)

unfoldable pub check_counts : Service → Prog Reply → Answer (ℕ × ℕ) → Prog Reply
check_counts s go_on (err e) = ret (failed (store_error e))
check_counts s go_on (ok (total, for_addr)) =
    if is_capped s.max_pending total
    then ret (failed too_many_pending)
    else if is_capped s.max_pending_per_addr for_addr
    then ret (failed too_many_for_address)
    else go_on

unfoldable pub bounded : Service → Text → Prog Reply → Prog Reply
unfolding check_counts
bounded s addr go_on =
    if ltb_ℤ (pos 0) s.max_pending || ltb_ℤ (pos 0) s.max_pending_per_addr
    then pending_counts addr (check_counts s go_on)
    else go_on

unfoldable pub create_at : Service → Text → ℤ → ℤ → Dict Text → Prog Reply
unfolding bounded store_new validate_metadata
create_at s addr amount_nano ttl metadata =
    if is_empty addr then ret (failed no_address) else elim (validate_metadata metadata) [
      | some e ↦ ret (failed e)
      | none ↦ bounded s addr (store_new s addr amount_nano ttl metadata)
    ]

unfoldable pub create_resolved : Service → ℤ → ℤ → Dict Text → Tonaddr.Checked Text → Prog Reply
unfolding create_at
create_resolved s amount_nano ttl metadata (Tonaddr.invalid e) = ret (failed bad_pay_to)
create_resolved s amount_nano ttl metadata (Tonaddr.valid addr) =
    create_at s addr amount_nano ttl metadata

unfoldable pub create : Service → Text → ℤ → ℤ → Dict Text → Prog Reply
unfolding create_resolved resolve
create s pay_to amount_nano ttl metadata =
    if leb_ℤ amount_nano (pos 0)
    then ret (failed bad_amount)
    else create_resolved s amount_nano ttl metadata (resolve s pay_to)

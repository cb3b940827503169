-- ===== src/Wallet/Mock.antt =====
-- `MockVerifier` of internal/wallet/wallet.go: an invoice is confirmed at its `after`-th poll.
pub mod Polls
mod Tests
use tonpayment.Base.{ℕ, suc, none, some, ◌++◌, if◌then◌else◌, true, false, []}
use tonpayment.Base.Text.{Text, codes}
use tonpayment.Base.Dict.{Dict, lookup, insert}
use tonpayment.Base.Int.{ℤ, pos, ltb_ℤ, leb_ℤ}
use tonpayment.Store.Invoices.{Invoice}
use tonpayment.Service.Program.{Verdict}

pub record MockVerifier : Type 0 where
  pub after : ℤ
  pub polls : Dict ℕ

pub new_mock_verifier : ℤ → MockVerifier
new_mock_verifier after =
    if ltb_ℤ after (pos 1)
    then record { after = pos 1; polls = [] }
    else record { after = after; polls = [] }

-- A key that is not there reads 0.
pub polled : Text → MockVerifier → ℕ
polled id m = elim (lookup id m.polls) [ none ↦ 0 | some n ↦ n ]

pub verify : Invoice → MockVerifier → Verdict × MockVerifier
verify inv m =
    let count = suc (polled inv.id m) in
    let m' = record m { polls = insert inv.id count m.polls } in
    if leb_ℤ m.after (pos count)
    then (record { is_paid = true; tx_hash = codes "mock-tx-" ++ inv.memo; has_failed = false }, m')
    else (record { is_paid = false; tx_hash = []; has_failed = false }, m')

-- ===== src/Wallet/Ton/Tests.antt =====
-- An invoice, the transactions that toncenter lists, and what the verifier makes of them.
use tonpayment.Base.{true, false, some, [], ◌∷◌, ◌≡◌, refl, ◌↔◌}
use tonpayment.Base.Int.{pos, ◌-ℤ◌}
use tonpayment.Base.Text.{codes, text_eq, text_eq_refl}
use tonpayment.Golib.Strconv.{parse_int}
use tonpayment.Tonaddr.{parse, raw}
use tonpayment.Tonaddr.Tests.{
  masterchain_text, masterchain, parse_text, parse_raw_text, masterchain_raw,
}
use tonpayment.Store.Invoices.{Invoice, pending, zero_time, unix}
use tonpayment.Wallet.Ton.{
  Transaction, Toncenter, TonVerifier, pays, verify, predates, right_account, covers,
}
use tonpayment.Wallet.Ton.Match.{Pays, pays_iff}
use tonpayment.Wallet.Ton.Confirm.{Confirms, verify_sound, verify_complete}

abbrev pub bill : Invoice
bill = record {
  id = codes "inv_1";
  pay_to = masterchain_text;
  memo = codes "TON-0011";
  amount_nano = pos 2_500_000_000;
  currency = codes "TON";
  status = pending;
  tx_hash = [];
  metadata = [];
  created_at = pos 63_900_000_000_000_000_000;
  paid_at = zero_time;
  expires_at = pos 63_900_003_600_000_000_000;
}

-- A payment of the bill, whose destination is in raw form.
abbrev pub payment : Transaction
payment = record {
  utime = pos 1_764_403_260;
  hash = codes "h2";
  destination = masterchain_raw;
  value = codes "2500000000";
  message = codes "TON-0011";
}

-- One nanoTON short, and the memo of another.
abbrev pub too_little : Transaction
too_little = record payment { hash = codes "h1"; value = codes "2499999999" }

abbrev pub other_memo : Transaction
other_memo = record payment { hash = codes "h3"; message = codes "TON-0012" }

pub paid_by : pays bill (parse masterchain_text) payment ≡ true
unfolding pays predates unix right_account covers parse_int text_eq ◌-ℤ◌
paid_by = rw (parse_text, parse_raw_text, text_eq_refl (raw masterchain)) refl

pays_iff_example : (pays bill (parse masterchain_text) payment ≡ true) ↔ Pays bill payment
pays_iff_example = pays_iff bill payment

abbrev pub toncenter : Toncenter
toncenter = record {
  get = λ url. some (200, codes "body");
  decode = λ body. some (too_little ∷ payment ∷ other_memo ∷ []);
}

abbrev pub verifier : TonVerifier
verifier = record { api_base = codes "https://toncenter.com/api/v2/"; api_key = [] }

verify_complete_example :
    ((verify toncenter verifier bill).is_paid ≡ true)
    × ((verify toncenter verifier bill).has_failed ≡ false)
verify_complete_example =
    verify_complete toncenter verifier bill (codes "body") (too_little ∷ []) (other_memo ∷ [])
      payment refl refl refl refl (pays_iff_example.0 paid_by)

verify_sound_example : Confirms toncenter verifier bill (verify toncenter verifier bill)
verify_sound_example = verify_sound toncenter verifier bill verify_complete_example.0

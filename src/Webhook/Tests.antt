-- ===== src/Webhook/Tests.antt =====
-- A receiver that fails twice and then accepts.
use tonpayment.Base.{
  ℕ, suc, ◌<◌, true, false, none, some, [], ◌∷◌, ◌≡◌, refl, arith, ◌==◌, if◌then◌else◌,
}
use tonpayment.Base.Text.{Text, codes}
use tonpayment.Store.Memory.Tests.{open_invoice}
use tonpayment.Webhook.{Receiver, fire, new_sender, is_accepted, signature, next_backoff}
use tonpayment.Webhook.Retries.{copies, backoffs, deliver_until_accepted, deliver_gives_up}

abbrev url : Text
url = codes "https://shop.example/hook"

abbrev receiver : ℕ → Receiver
receiver good = record {
  hmac_sha256 = λ key body. 0xab ∷ 0xcd ∷ [];
  marshal = λ inv. some (codes "{}");
  post = λ to body sig n. if n == good then some 204 else if n == 1 then none else some 503;
}

refuses :
    (n : ℕ) → n < 2 → is_accepted ((receiver 3).post url (codes "{}") (codes "") (suc n)) ≡ false
unfolding is_accepted
refuses n h = ground (arith, h)

deliver_until_accepted_example :
    fire (receiver 3) (new_sender url (codes "k")) open_invoice ≡ record {
      posts = copies 3 (
        codes "{}",
        signature (receiver 3) (record { url = url; secret = codes "k"; retries = 5 }) (codes "{}"),
      );
      waits = 500_000_000 ∷ 1_000_000_000 ∷ [];
      is_delivered = true;
    }
deliver_until_accepted_example =
    deliver_until_accepted (receiver 3) url (codes "k") open_invoice (codes "{}") refl refl 2
      (omega arith) refuses (unfold is_accepted in refl)

refuses_all :
    (n : ℕ) → n < 5 → is_accepted ((receiver 9).post url (codes "{}") (codes "") (suc n)) ≡ false
unfolding is_accepted
refuses_all n h = ground (arith, h)

deliver_gives_up_example : fire (receiver 9) (new_sender url (codes "k")) open_invoice ≡ record {
  posts = copies 5 (
    codes "{}",
    signature (receiver 9) (record { url = url; secret = codes "k"; retries = 5 }) (codes "{}"),
  );
  waits = backoffs;
  is_delivered = false;
}
deliver_gives_up_example =
    deliver_gives_up (receiver 9) url (codes "k") open_invoice (codes "{}") refl refl refuses_all

-- The wait is capped at half a minute.
capped : next_backoff 16_000_000_000 ≡ 30_000_000_000
unfolding next_backoff
capped = refl

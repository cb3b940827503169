-- ===== src/Webhook/Retries.antt =====
-- How often the webhook is tried, and when it stops.
use tonpayment.Base.{
  ℕ, zero, suc, ◌<◌, Bool, true, false, some, List, [], ◌∷◌, ◌≡◌, refl, ◌∙◌, arith, take,
}
use tonpayment.Base.Text.{Text, is_empty}
use tonpayment.Store.Invoices.{Invoice}
use tonpayment.Webhook.{
  Sender, Receiver, tries, signature, is_accepted, next_backoff, fire, new_sender,
}

-- So many copies of one request.
abbrev pub copies : ℕ → Text × Text → List (Text × Text)
copies zero r = []
copies (suc n) r = r ∷ copies n r

-- Half a second, and then twice as long each time.
abbrev pub backoffs : List ℕ
backoffs = 500_000_000 ∷ 1_000_000_000 ∷ 2_000_000_000 ∷ 4_000_000_000 ∷ []

module _ (net : Receiver) (url secret : Text) (inv : Invoice) (body : Text)
    (wired : is_empty url ≡ false) (marshalled : net.marshal inv ≡ some body) where
  abbrev sender : Sender
  sender = record { url = url; secret = secret; retries = 5 }

  -- The answer to the n-th request of the invoice.
  abbrev answer : ℕ → Bool
  answer n = is_accepted (net.post url body (signature net sender body) n)

  fired :
      fire net (new_sender url secret) inv
      ≡ tries net sender body (signature net sender body) 5 1 500_000_000
  unfolding fire new_sender
  fired = rw (wired, marshalled) refl

  -- With the webhook configured and an invoice that can be marshalled, the request is repeated, each
  -- time with the same body and signature, until the first answer that accepts it, if one of the
  -- first five does, and the waits between are half a second, then one, two and four seconds.
  pub deliver_until_accepted :
      (k : ℕ)
      → k < 5
      → ((i : ℕ) → i < k → answer (suc i) ≡ false)
      → answer (suc k) ≡ true
      → fire net (new_sender url secret) inv ≡ record {
        posts = copies (suc k) (body, signature net sender body);
        waits = take k backoffs;
        is_delivered = true;
      }
  unfolding tries next_backoff
  deliver_until_accepted zero b r a = fired ∙ rw a refl
  deliver_until_accepted (suc zero) b r a = fired ∙ rw (r 0 (omega arith), a) refl
  deliver_until_accepted (suc (suc zero)) b r a =
      fired ∙ rw (r 0 (omega arith), r 1 (omega arith), a) refl
  deliver_until_accepted (suc (suc (suc zero))) b r a =
      fired ∙ rw (r 0 (omega arith), r 1 (omega arith), r 2 (omega arith), a) refl
  deliver_until_accepted (suc (suc (suc (suc zero)))) b r a =
      fired
      ∙ rw (r 0 (omega arith), r 1 (omega arith), r 2 (omega arith), r 3 (omega arith), a) refl
  deliver_until_accepted (suc (suc (suc (suc (suc k))))) b r a = absurd (omega (arith, b))

  -- With the webhook configured and an invoice that can be marshalled: if none of the first five
  -- answers accepts it, there are five requests, and the delivery is given up after the fifth.
  pub deliver_gives_up :
      ((i : ℕ) → i < 5 → answer (suc i) ≡ false)
      → fire net (new_sender url secret) inv ≡ record {
        posts = copies 5 (body, signature net sender body);
        waits = backoffs;
        is_delivered = false;
      }
  unfolding tries next_backoff
  deliver_gives_up r =
      fired
      ∙ rw
          (
            r 0 (omega arith),
            r 1 (omega arith),
            r 2 (omega arith),
            r 3 (omega arith),
            r 4 (omega arith),
          )
          refl

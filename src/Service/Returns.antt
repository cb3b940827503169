-- ===== src/Service/Returns.antt =====
-- What every return of a program satisfies, whatever the world answers.
use tonpayment.Base.{ℕ, Bool, Option, List}
use tonpayment.Store.Invoices.{Invoice, Time}
use tonpayment.Store.Contract.{Store, Answer}
use tonpayment.Service.Program.{
  Prog, ret, get_invoice, create_invoice, claim_invoice, expire_invoice, pending_counts, verify,
  fire, now, lock, unlock, random, ◌>>=◌, Verdict,
}
use tonpayment.Service.Run.{World, run}

module _ {A : Type 0} (P : A → Type 0) where
  abbrev pub Returns : Prog A → Type 0
  Returns (ret a) = P a
  Returns (get_invoice id k) = (r : Option Invoice) → Returns (k r)
  Returns (create_invoice inv k) = (r : Answer (Unit {0})) → Returns (k r)
  Returns (claim_invoice id tx at k) = (r : Answer Bool) → Returns (k r)
  Returns (expire_invoice id k) = (r : Answer Bool) → Returns (k r)
  Returns (pending_counts a k) = (r : Answer (ℕ × ℕ)) → Returns (k r)
  Returns (verify inv k) = (v : Verdict) → Returns (k v)
  Returns (fire inv k) = Returns k
  Returns (now k) = (t : Time) → Returns (k t)
  Returns (lock id k) = Returns k
  Returns (unlock id k) = Returns k
  Returns (random n k) = (bytes : List ℕ) → Returns (k bytes)

  pub run-Returns :
      {S : Type 0} (store : Store S) (p : Prog A) (w : World S) → Returns p → P (run store p w).0
  unfolding run
  run-Returns store (ret a) w h = h
  run-Returns store (get_invoice id k) w h = run-Returns store (k _) _ (h _)
  run-Returns store (create_invoice inv k) w h = run-Returns store (k _) _ (h _)
  run-Returns store (claim_invoice id tx at k) w h = run-Returns store (k _) _ (h _)
  run-Returns store (expire_invoice id k) w h = run-Returns store (k _) _ (h _)
  run-Returns store (pending_counts a k) w h = run-Returns store (k _) _ (h _)
  run-Returns store (verify inv k) w h = run-Returns store (k _) _ (h _)
  run-Returns store (fire inv k) w h = run-Returns store k _ h
  run-Returns store (now k) w h = run-Returns store (k _) _ (h _)
  run-Returns store (lock id k) w h = run-Returns store k _ h
  run-Returns store (unlock id k) w h = run-Returns store k _ h
  run-Returns store (random n k) w h = run-Returns store (k _) _ (h _)

  -- A program that ends in a return that satisfies `P` whatever it is given.
  pub Returns-bind :
      {B : Type 0} (p : Prog B) (f : B → A) → ((b : B) → P (f b)) → Returns (p >>= λ b. ret (f b))
  unfolding ◌>>=◌
  Returns-bind (ret b) f h = h b
  Returns-bind (get_invoice id k) f h = λ r. Returns-bind (k r) f h
  Returns-bind (create_invoice inv k) f h = λ r. Returns-bind (k r) f h
  Returns-bind (claim_invoice id tx at k) f h = λ r. Returns-bind (k r) f h
  Returns-bind (expire_invoice id k) f h = λ r. Returns-bind (k r) f h
  Returns-bind (pending_counts a k) f h = λ r. Returns-bind (k r) f h
  Returns-bind (verify inv k) f h = λ r. Returns-bind (k r) f h
  Returns-bind (fire inv k) f h = Returns-bind k f h
  Returns-bind (now k) f h = λ r. Returns-bind (k r) f h
  Returns-bind (lock id k) f h = Returns-bind k f h
  Returns-bind (unlock id k) f h = Returns-bind k f h
  Returns-bind (random n k) f h = λ r. Returns-bind (k r) f h

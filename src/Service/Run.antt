-- ===== src/Service/Run.antt =====
-- One caller at a time: a program runs to its end over a store, with the time, the verdict of the
-- chain and the random draws that the call meets.
use tonpayment.Base.{ℕ, suc, List, ◌∷◌}
use tonpayment.Store.Invoices.{Invoice, Time}
use tonpayment.Store.Contract.{Store}
use tonpayment.Service.Program.{
  Prog, ret, get_invoice, create_invoice, claim_invoice, expire_invoice, pending_counts, verify,
  fire, now, lock, unlock, random, Verdict,
}

pub record World (S : Type 0) : Type 0 where
  pub state : S
  -- the invoices handed to the webhook, the latest first
  pub fired : List Invoice
  pub clock : Time
  pub verdict : Invoice → Verdict
  -- the bytes that the draws of `rand.Read` give, by the number of the draw and its length
  pub entropy : ℕ → ℕ → List ℕ
  pub drawn : ℕ

module _ {S : Type 0} (store : Store S) where
  unfoldable pub run : {A : Type 0} → Prog A → World S → A × World S
  run (ret a) w = (a, w)
  run (get_invoice id k) w = run (k (store.get_invoice id w.state)) w
  run (create_invoice inv k) w =
      let (r, s) = store.create_invoice inv w.state in run (k r) (record w { state = s })
  run (claim_invoice id tx at k) w =
      let (r, s) = store.claim_invoice_for_settlement id tx at w.state in
      run (k r) (record w { state = s })
  run (expire_invoice id k) w =
      let (r, s) = store.expire_invoice id w.state in run (k r) (record w { state = s })
  run (pending_counts a k) w = run (k (store.pending_counts a w.state)) w
  run (verify inv k) w = run (k (w.verdict inv)) w
  run (fire inv k) w = run k (record w { fired = inv ∷ w.fired })
  run (now k) w = run (k w.clock) w
  run (lock id k) w = run k w
  run (unlock id k) w = run k w
  run (random n k) w = run (k (w.entropy w.drawn n)) (record w { drawn = suc w.drawn })

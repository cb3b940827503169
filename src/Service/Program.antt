-- ===== src/Service/Program.antt =====
-- What internal/service/service.go does to the world, as programs: each command is one atomic call of
-- the store, the verifier, the webhook, the clock, the per-invoice lock or the random source. The
-- sequential meaning is in Service/Run, that of many callers at once in Service/Interleave.
use tonpayment.Base.{ℕ, Bool, Option, List}
use tonpayment.Base.Int.{ℤ}
use tonpayment.Base.Text.{Text}
use tonpayment.Store.Invoices.{Invoice, Time}
use tonpayment.Store.Contract.{Answer, StoreError}

-- The three results of `Verifier.Verify`.
pub record Verdict : Type 0 where
  pub is_paid : Bool
  pub tx_hash : Text
  pub has_failed : Bool

pub data Prog (A : Type 0) : Type 0 where
  ret : A → Prog A
  get_invoice : Text → (Option Invoice → Prog A) → Prog A
  create_invoice : Invoice → (Answer (Unit {0}) → Prog A) → Prog A
  claim_invoice : Text → Text → Time → (Answer Bool → Prog A) → Prog A
  expire_invoice : Text → (Answer Bool → Prog A) → Prog A
  pending_counts : Text → (Answer (ℕ × ℕ) → Prog A) → Prog A
  verify : Invoice → (Verdict → Prog A) → Prog A
  fire : Invoice → Prog A → Prog A
  now : (Time → Prog A) → Prog A
  lock : Text → Prog A → Prog A
  unlock : Text → Prog A → Prog A
  -- `rand.Read` of so many bytes; the program panics where it fails, and does nothing more.
  random : ℕ → (List ℕ → Prog A) → Prog A

infixl 5 ◌>>=◌
unfoldable pub ◌>>=◌ : {A B : Type 0} → Prog A → (A → Prog B) → Prog B
ret a >>= f = f a
get_invoice id k >>= f = get_invoice id (λ r. k r >>= f)
create_invoice inv k >>= f = create_invoice inv (λ r. k r >>= f)
claim_invoice id tx at k >>= f = claim_invoice id tx at (λ r. k r >>= f)
expire_invoice id k >>= f = expire_invoice id (λ r. k r >>= f)
pending_counts a k >>= f = pending_counts a (λ r. k r >>= f)
verify inv k >>= f = verify inv (λ r. k r >>= f)
fire inv k >>= f = fire inv (k >>= f)
now k >>= f = now (λ r. k r >>= f)
lock id k >>= f = lock id (k >>= f)
unlock id k >>= f = unlock id (k >>= f)
random n k >>= f = random n (λ r. k r >>= f)

-- The fields of `Service` that it computes with; the store, the verifier and the locks are commands.
pub record Service : Type 0 where
  pub default_pay_to : Text
  pub currency : Text
  pub default_ttl : ℤ
  pub max_ttl : ℤ
  pub max_pending : ℤ
  pub max_pending_per_addr : ℤ
  -- `s.webhook != nil`
  pub has_webhook : Bool
  pub testnet : Bool

pub data ServiceError : Type 0 where
  bad_amount bad_pay_to no_address too_many_keys metadata_too_large : ServiceError
  too_many_pending too_many_for_address no_unique_memo not_found : ServiceError
  store_error : StoreError → ServiceError

-- An invoice, or an error. What the code returns beside an error is dropped by all its callers.
pub data Reply : Type 0 where
  done : Invoice → Reply
  failed : ServiceError → Reply

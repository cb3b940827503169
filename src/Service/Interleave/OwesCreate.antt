-- ===== src/Service/Interleave/OwesCreate.antt =====
-- A creation owes the webhook nothing: it stores pending invoices only.
use tonpayment.Base.{ℕ, zero, suc, ◌||◌, Option, none, some, ◌≡◌, refl}
use tonpayment.Base.Int.{ℤ, pos, ltb_ℤ, leb_ℤ}
use tonpayment.Base.Text.{Text, is_empty}
use tonpayment.Base.Dict.{Dict}
use tonpayment.Tonaddr
use tonpayment.Store.Invoices.{Invoice, pending}
use tonpayment.Store.Contract.{Answer, ok, err, memo_exists, store_failure}
use tonpayment.Service.Program.{Prog, ret, Service, Reply, failed, ServiceError}
use tonpayment.Service.Create.{
  create, create_resolved, create_at, bounded, check_counts, store_new, allocate, new_invoice,
  is_capped, resolve, validate_metadata,
}
use tonpayment.Service.Interleave.Owes.{Owes, Owes-if}

Owes-allocate : (n : ℕ) (inv : Invoice) → inv.status ≡ pending → Owes none (allocate n inv)
unfolding allocate
Owes-allocate zero inv h = tt
Owes-allocate (suc n) inv h = λ a b.
    (h, elim [ ok _ ↦ tt | err memo_exists ↦ Owes-allocate n inv h | err store_failure ↦ tt ])

Owes-check_counts :
    (s : Service) (go_on : Prog Reply) (r : Answer (ℕ × ℕ))
    → Owes none go_on
    → Owes none (check_counts s go_on r)
unfolding check_counts
Owes-check_counts s go_on (err e) h = tt
Owes-check_counts s go_on (ok (total, for_addr)) h =
    Owes-if (is_capped s.max_pending total) _ _ tt
      (Owes-if (is_capped s.max_pending_per_addr for_addr) _ _ tt h)

Owes-bounded :
    (s : Service) (addr : Text) (go_on : Prog Reply)
    → Owes none go_on
    → Owes none (bounded s addr go_on)
unfolding bounded
Owes-bounded s addr go_on h =
    Owes-if (ltb_ℤ (pos 0) s.max_pending || ltb_ℤ (pos 0) s.max_pending_per_addr) _ _
      (λ r. Owes-check_counts s go_on r h) h

module _ (s : Service) (amount ttl : ℤ) (metadata : Dict Text) where
  Owes-store_new : (addr : Text) → Owes none (store_new s addr amount ttl metadata)
  unfolding store_new
  Owes-store_new addr = λ at. Owes-allocate 5 (new_invoice s addr amount ttl metadata at) refl

  Owes-create_at : (addr : Text) → Owes none (create_at s addr amount ttl metadata)
  unfolding create_at
  Owes-create_at addr = Owes-if (is_empty addr) _ _ tt (go (validate_metadata metadata))
    where
      go :
          (r : Option ServiceError)
          → Owes none (elim r [
            | some e ↦ ret (failed e)
            | none ↦ bounded s addr (store_new s addr amount ttl metadata)
          ])
      go (some e) = tt
      go none = Owes-bounded s addr _ (Owes-store_new addr)

  Owes-create_resolved :
      (r : Tonaddr.Checked Text) → Owes none (create_resolved s amount ttl metadata r)
  unfolding create_resolved
  Owes-create_resolved (Tonaddr.invalid e) = tt
  Owes-create_resolved (Tonaddr.valid addr) = Owes-create_at addr

  pub Owes-create : (pay_to : Text) → Owes none (create s pay_to amount ttl metadata)
  unfolding create
  Owes-create pay_to =
      Owes-if (leb_ℤ amount (pos 0)) _ _ tt (Owes-create_resolved (resolve s pay_to))

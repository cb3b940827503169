-- ===== src/Service/Settle.antt =====
-- `CheckStatus`, `settle` and `expire` of internal/service/service.go.
use tonpayment.Base.{Bool, true, false, not, ◌&&◌, Option, none, some, if◌then◌else◌}
use tonpayment.Base.Int.{ltb_ℤ}
use tonpayment.Base.Text.{Text}
use tonpayment.Store.Invoices.{Invoice, Time, is_pending, is_zero}
use tonpayment.Store.Contract.{Answer, ok, err, mark_paid, mark_expired}
use tonpayment.Service.Program.{
  Prog, ret, get_invoice, claim_invoice, expire_invoice, verify, fire, now, lock, unlock, ◌>>=◌,
  Verdict, Service, Reply, done, failed, not_found, store_error,
}

-- `if cur, ok := s.st.GetInvoice(inv.ID); ok { return cur, nil }; return inv, nil`
unfoldable pub current_or : Invoice → Option Invoice → Prog Reply
current_or inv none = ret (done inv)
current_or inv (some cur) = ret (done cur)

-- The webhook gets the settled invoice, and so does the caller.
unfoldable pub notify : Service → Invoice → Prog Reply
notify s inv = if s.has_webhook then fire inv (ret (done inv)) else ret (done inv)

unfoldable pub after_claim : Service → Invoice → Text → Time → Answer Bool → Prog Reply
unfolding current_or notify
after_claim s inv tx_hash at (err e) = ret (failed (store_error e))
after_claim s inv tx_hash at (ok false) = get_invoice inv.id (current_or inv)
after_claim s inv tx_hash at (ok true) = notify s (mark_paid tx_hash at inv)

unfoldable pub settle : Service → Invoice → Text → Prog Reply
unfolding after_claim
settle s inv tx_hash = now λ at. claim_invoice inv.id tx_hash at (after_claim s inv tx_hash at)

unfoldable pub after_expire : Invoice → Answer Bool → Prog Reply
unfolding current_or
after_expire inv (err e) = ret (failed (store_error e))
after_expire inv (ok false) = get_invoice inv.id (current_or inv)
after_expire inv (ok true) = ret (done (mark_expired inv))

unfoldable pub expire : Invoice → Prog Reply
unfolding after_expire
expire inv = expire_invoice inv.id (after_expire inv)

-- Under the lock the invoice is read again, and settled if it is still pending.
unfoldable pub settle_again : Service → Text → Option Invoice → Prog Reply
settle_again s tx none = ret (failed not_found)
settle_again s tx (some inv) = if is_pending inv.status then settle s inv tx else ret (done inv)

unfoldable pub settle_locked : Service → Text → Invoice → Text → Prog Reply
unfolding settle_again ◌>>=◌
settle_locked s id inv tx =
    lock inv.id (get_invoice id (settle_again s tx) >>= λ reply. unlock inv.id (ret reply))

-- `!inv.ExpiresAt.IsZero() && time.Now().After(inv.ExpiresAt)`
abbrev pub is_overdue : Invoice → Time → Bool
is_overdue inv at = not (is_zero inv.expires_at) && ltb_ℤ inv.expires_at at

unfoldable pub expire_if_due : Invoice → Prog Reply
expire_if_due inv = now λ at. if is_overdue inv at then expire inv else ret (done inv)

unfoldable pub after_verify : Service → Text → Invoice → Verdict → Prog Reply
unfolding settle_locked expire_if_due
after_verify s id inv v =
    if not v.has_failed && v.is_paid then settle_locked s id inv v.tx_hash else expire_if_due inv

unfoldable pub check_found : Service → Text → Option Invoice → Prog Reply
unfolding after_verify
check_found s id none = ret (failed not_found)
check_found s id (some inv) =
    if is_pending inv.status then verify inv (after_verify s id inv) else ret (done inv)

unfoldable pub check_status : Service → Text → Prog Reply
unfolding check_found
check_status s id = get_invoice id (check_found s id)

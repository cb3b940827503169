-- ===== src/Service/Setup.antt =====
-- `New`, `SetLimits` and `SetNetwork` of internal/service/service.go.
use tonpayment.Base.{Bool, false, if◌then◌else◌}
use tonpayment.Base.Int.{ℤ, pos, ltb_ℤ, leb_ℤ}
use tonpayment.Base.Text.{Text, codes}
use tonpayment.Service.Program.{Service}

-- 24 and 0.25 hours, in nanoseconds.
abbrev pub max_ttl : ℤ
max_ttl = pos 86_400_000_000_000

abbrev fallback_ttl : ℤ
fallback_ttl = pos 900_000_000_000

unfoldable pub new : Text → ℤ → Bool → Service
new default_pay_to default_ttl has_webhook = record {
  default_pay_to = default_pay_to;
  currency = codes "TON";
  default_ttl = if leb_ℤ default_ttl (pos 0) then fallback_ttl else default_ttl;
  max_ttl = max_ttl;
  max_pending = pos 0;
  max_pending_per_addr = pos 0;
  has_webhook = has_webhook;
  testnet = false;
}

unfoldable pub set_limits : ℤ → ℤ → ℤ → Service → Service
set_limits ttl max_pending max_pending_per_addr s = record s {
  max_ttl = if ltb_ℤ (pos 0) ttl then ttl else s.max_ttl;
  max_pending = max_pending;
  max_pending_per_addr = max_pending_per_addr;
}

unfoldable pub set_network : Bool → Service → Service
set_network testnet s = record s { testnet = testnet }

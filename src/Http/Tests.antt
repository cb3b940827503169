-- ===== src/Http/Tests.antt =====
-- A TTL beyond the range of a duration.
use tonpayment.Base.{arith, ◌*◌, ◌^◌, ◌≤◌, ◌<◌, ◌≡◌}
use tonpayment.Base.Int.{pos}
use tonpayment.Config.{seconds}
use tonpayment.Service.Create.{clamp_ttl}
use tonpayment.Service.Tests.{service}
use tonpayment.Http.Ttl.{up_to, second, clamp_ttl-seconds}

clamp_ttl-seconds_example :
    (10_000_000_000 * second < 2 ^ 63
      → clamp_ttl service (seconds (pos 10_000_000_000))
        ≡ up_to service.max_ttl (pos (10_000_000_000 * second)))
    × (2 ^ 63 ≤ 10_000_000_000 * second
        → 10_000_000_000 * second < 2 ^ 64
        → clamp_ttl service (seconds (pos 10_000_000_000))
          ≡ up_to service.max_ttl service.default_ttl)
clamp_ttl-seconds_example = clamp_ttl-seconds service 10_000_000_000 (omega arith)

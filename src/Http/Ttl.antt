-- ===== src/Http/Ttl.antt =====
-- The lifetime that a request asks for, in seconds, and the one it gets.
use tonpayment.Base.{ℕ, ◌*◌, ◌^◌, ◌≤◌, ◌<◌, ◌≡◌, refl, ap, ◌∙◌, arith, true, if◌then◌else◌}
use tonpayment.Base.Int.{ℤ, pos, leb_ℤ, ltb_ℤ}
use tonpayment.Config.{seconds}
use tonpayment.Service.Program.{Service}
use tonpayment.Service.Create.{clamp_ttl}

abbrev pub second : ℕ
second = 1_000_000_000

wrapped :
    (n : ℕ) → 2 ^ 63 ≤ n * second → n * second < 2 ^ 64 → leb_ℤ (seconds (pos n)) (pos 0) ≡ true
unfolding seconds
wrapped n h k = ground arith

within : (n : ℕ) → n * second < 2 ^ 63 → seconds (pos n) ≡ pos (n * second)
unfolding seconds
within n h = ground arith

-- The shorter one of a lifetime and the cap.
abbrev pub up_to : ℤ → ℤ → ℤ
up_to cap ttl = if ltb_ℤ cap ttl then cap else ttl

capped :
    (s : Service) (ttl ttl' : ℤ)
    → (if leb_ℤ ttl (pos 0) then s.default_ttl else ttl) ≡ ttl'
    → clamp_ttl s ttl ≡ up_to s.max_ttl ttl'
unfolding clamp_ttl
capped s ttl ttl' e = ap (up_to s.max_ttl) e

-- A TTL of a positive number of seconds whose nanoseconds are a number of 63 bits gives that lifetime,
-- or the cap if the cap is shorter. One whose nanoseconds take exactly 64 bits wraps to a negative
-- duration, and gives the default lifetime or the cap, whichever is shorter.
pub clamp_ttl-seconds :
    (s : Service) (n : ℕ)
    → 0 < n
    → (n * second < 2 ^ 63 → clamp_ttl s (seconds (pos n)) ≡ up_to s.max_ttl (pos (n * second)))
      × (2 ^ 63 ≤ n * second
          → n * second < 2 ^ 64
          → clamp_ttl s (seconds (pos n)) ≡ up_to s.max_ttl s.default_ttl)
clamp_ttl-seconds s n positive = (
  λ h.
      ap (clamp_ttl s) (within n h) ∙ capped s (pos (n * second)) (pos (n * second)) (ground arith),
  λ h k. capped s (seconds (pos n)) s.default_ttl (rw (wrapped n h k) refl),
)

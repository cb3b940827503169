-- ===== src/Http/Limiter.antt =====
-- `rateLimiter` of internal/httpx/middleware.go: a token bucket for each client. The arithmetic of
-- float64, which rounds, is a parameter. A float64 that is not negative stands for the number of times
-- that it holds 2^-1074, the least one, so comparisons are those of these numbers; a difference is
-- taken only where it is not negative. A time is a reading of the monotonic clock in nanoseconds.
pub mod Level
pub mod Spent
pub mod Tests
use tonpayment.Base.{
  ℕ, ◌+◌, ◌-◌, ◌*◌, Bool, true, false, Option, none, some, List, [], ◌∷◌, ltb, leb, if◌then◌else◌,
}
use tonpayment.Base.Text.{Text}
use tonpayment.Base.Dict.{Dict, lookup, insert}

-- What the code uses of float64: constants, `+`, `*` and `-`, and `Seconds` of a duration.
pub record Float64 : Type 0 where
  pub of_nat : ℕ → ℕ
  pub add : ℕ → ℕ → ℕ
  pub mul : ℕ → ℕ → ℕ
  pub sub : ℕ → ℕ → ℕ
  pub seconds : ℕ → ℕ

abbrev pub minute : ℕ
minute = 60_000_000_000

pub record Bucket : Type 0 where
  pub tokens : ℕ
  pub last : ℕ

-- The struct, and the arithmetic that it computes with.
pub record RateLimiter : Type 0 where
  pub float : Float64
  pub buckets : Dict Bucket
  pub rate : ℕ
  pub burst : ℕ
  pub trust_proxy : Bool
  -- none is the zero time, at any distance
  pub last_sweep : Option ℕ

unfoldable pub new_rate_limiter : Float64 → ℕ → ℕ → Bool → RateLimiter
new_rate_limiter float rate burst trust_proxy = record {
  float = float;
  buckets = [];
  rate = rate;
  burst = burst;
  trust_proxy = trust_proxy;
  last_sweep = none;
}

-- `1`
abbrev pub token : Float64 → ℕ
token float = float.of_nat 1

-- `b.tokens + now.Sub(b.last).Seconds()*rl.rate`
abbrev pub refilled : Float64 → ℕ → ℕ → Bucket → ℕ
refilled float rate now b = float.add b.tokens (float.mul (float.seconds (now - b.last)) rate)

-- The buckets that have not refilled to `burst`.
pub drop_full : Float64 → ℕ → ℕ → ℕ → Dict Bucket → Dict Bucket
drop_full float rate burst now [] = []
drop_full float rate burst now ((k, b) ∷ rest) =
    let kept = drop_full float rate burst now rest in
    if leb burst (refilled float rate now b) then kept else (k, b) ∷ kept

is_swept : Option ℕ → ℕ → Bool
is_swept none now = false
is_swept (some t) now = ltb (now - t) minute

pub sweep : ℕ → RateLimiter → RateLimiter
unfolding drop_full is_swept
sweep now rl = if is_swept rl.last_sweep now then rl else record rl {
  buckets = drop_full rl.float rl.rate rl.burst now rl.buckets;
  last_sweep = some now;
}

-- A known client's bucket is refilled up to `burst`, and gives a token if it has one.
take_token : Text → ℕ → Bucket → RateLimiter → Bool × RateLimiter
take_token key now b rl =
    let full = refilled rl.float rl.rate now b in
    let tokens = if ltb rl.burst full then rl.burst else full in
    if ltb tokens (token rl.float)
    then (
      false,
      record rl { buckets = insert key (record { tokens = tokens; last = now }) rl.buckets },
    )
    else (
      true,
      record rl {
        buckets =
            insert key (record { tokens = rl.float.sub tokens (token rl.float); last = now })
              rl.buckets;
      },
    )

spend : Text → ℕ → Option Bucket → RateLimiter → Bool × RateLimiter
unfolding take_token
spend key now none rl = (
  true,
  record rl {
    buckets =
        insert key (record { tokens = rl.float.sub rl.burst (token rl.float); last = now })
          rl.buckets;
  },
)
spend key now (some b) rl = take_token key now b rl

unfoldable pub allow : Text → ℕ → RateLimiter → Bool × RateLimiter
unfolding spend sweep
allow key now rl = let swept = sweep now rl in spend key now (lookup key swept.buckets) swept

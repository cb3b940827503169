-- ===== src/Http/Limiter/Tests.antt =====
-- The limiter of the server: bursts of 40, 5 tokens a second.
use tonpayment.Base.{ℕ, ◌/◌, ◌+◌, ◌-◌, ◌*◌, ◌≤◌, false, none, some, [], ◌∷◌, ◌≡◌, refl, arith}
use tonpayment.Base.Text.{Text, codes, text_eq}
use tonpayment.Base.Dict.{lookup, insert}
use tonpayment.Http.Limiter.{Float64, RateLimiter, new_rate_limiter, allow, sweep}
use tonpayment.Http.Limiter.Spent.{IsSpent, allow-IsSpent}
use tonpayment.Http.Limiter.Level.{IsMonotone}

-- Numbers of billionths, of which a product keeps as many as fit.
abbrev pub billionths : Float64
billionths = record {
  of_nat = λ n. n * 1_000_000_000;
  add = λ a b. a + b;
  mul = λ a b. a * b / 1_000_000_000;
  sub = λ a b. a - b;
  seconds = λ n. n;
}

product_mono : (a b c : ℕ) → a ≤ b → a * c ≤ b * c
product_mono a b c h = grind arith

billionths-IsMonotone : IsMonotone billionths
billionths-IsMonotone = record {
  add_mono = λ a b c h. omega (arith, h);
  mul_mono = λ a b c h. omega (arith, product_mono a b c h);
  seconds_mono = λ a b h. h;
}

abbrev pub limiter : RateLimiter
limiter = record {
  float = billionths;
  buckets = [];
  rate = 5_000_000_000;
  burst = 40_000_000_000;
  trust_proxy = false;
  last_sweep = none;
}

is_new : new_rate_limiter billionths 5_000_000_000 40_000_000_000 false ≡ limiter
unfolding new_rate_limiter
is_new = refl

abbrev client : Text
client = codes "10.0.0.7"

-- A bucket with one token left, a minute after the last sweep.
abbrev late : RateLimiter
late = record limiter {
  buckets = (client, record { tokens = 1_000_000_000; last = 5 }) ∷ [];
  last_sweep = some 5;
}

allow-IsSpent_example : IsSpent client 9 late (allow client 9 late)
unfolding lookup
allow-IsSpent_example = allow-IsSpent client 9 late billionths-IsMonotone (omega arith) (refl, tt)

-- The last token is spent, and the next request must wait.
spent : (allow client 5 (allow client 5 late).1).0 ≡ false
unfolding allow sweep lookup insert text_eq
spent = refl

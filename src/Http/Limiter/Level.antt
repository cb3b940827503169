-- ===== src/Http/Limiter/Level.antt =====
-- What a client has to spend, and what a sweep leaves of it.
use tonpayment.Base.{
  ℕ, ◌-◌, ◌≤◌, Option, none, some, [], ◌∷◌, ◌≡◌, ltb, leb, refl, arith, if◌then◌else◌, Bool-cases,
  inl, inr,
}
use tonpayment.Base.Text.{Text, text_eq_iff}
use tonpayment.Base.Dict.{Dict, lookup}
use tonpayment.Http.Limiter.{Float64, RateLimiter, Bucket, refilled, drop_full, sweep, is_swept}

-- The tokens of a bucket at a time; a client without a bucket has a full one.
abbrev pub bucket_level : Float64 → ℕ → ℕ → ℕ → Option Bucket → ℕ
bucket_level float rate burst now none = burst
bucket_level float rate burst now (some b) =
    if ltb burst (refilled float rate now b) then burst else refilled float rate now b

abbrev pub level : Text → ℕ → RateLimiter → ℕ
level k now rl = bucket_level rl.float rl.rate rl.burst now (lookup k rl.buckets)

-- No key stands twice.
abbrev pub IsDistinct : Dict Bucket → Type 0
IsDistinct [] = Unit
IsDistinct ((k, b) ∷ rest) = (lookup k rest ≡ none) × IsDistinct rest

lookup-drop_full-none :
    (float : Float64) (rate burst now : ℕ) (k : Text) (d : Dict Bucket)
    → lookup k d ≡ none
    → lookup k (drop_full float rate burst now d) ≡ none
unfolding drop_full lookup
lookup-drop_full-none float rate burst now k [] h = refl
lookup-drop_full-none float rate burst now k ((j, b) ∷ rest) h =
    ground (arith, lookup-drop_full-none float rate burst now k rest)

drop_full-IsDistinct :
    (float : Float64) (rate burst now : ℕ) (d : Dict Bucket)
    → IsDistinct d
    → IsDistinct (drop_full float rate burst now d)
unfolding drop_full
drop_full-IsDistinct float rate burst now [] h = tt
drop_full-IsDistinct float rate burst now ((j, b) ∷ rest) h =
    elim (Bool-cases (leb burst (refilled float rate now b))) [
      | inl e ↦ rw e (drop_full-IsDistinct float rate burst now rest h.1)
      | inr e ↦ rw e (
        lookup-drop_full-none float rate burst now j rest h.0,
        drop_full-IsDistinct float rate burst now rest h.1,
      )
    ]

-- Rounding keeps the order: a later reading of the clock never gives fewer tokens.
pub record IsMonotone (float : Float64) : Type 0 where
  pub add_mono : (a b c : ℕ) → b ≤ c → float.add a b ≤ float.add a c
  pub mul_mono : (a b c : ℕ) → a ≤ b → float.mul a c ≤ float.mul b c
  pub seconds_mono : (a b : ℕ) → a ≤ b → float.seconds a ≤ float.seconds b

refilled_mono :
    (float : Float64)
    → IsMonotone float
    → (rate now t : ℕ) (b : Bucket) → now ≤ t
    → refilled float rate now b ≤ refilled float rate t b
refilled_mono float mono rate now t b h =
    mono.add_mono b.tokens _ _
      (mono.mul_mono _ _ rate (mono.seconds_mono (now - b.last) (t - b.last) (omega (arith, h))))

-- A full bucket that is dropped is worth what none is, then and later.
level-drop_full :
    (float : Float64) (mono : IsMonotone float) (rate burst now t : ℕ) (k : Text) (d : Dict Bucket)
    → now ≤ t
    → IsDistinct d
    → bucket_level float rate burst t (lookup k (drop_full float rate burst now d))
      ≡ bucket_level float rate burst t (lookup k d)
unfolding drop_full lookup
level-drop_full float mono rate burst now t k [] later h = refl
level-drop_full float mono rate burst now t k ((j, b) ∷ rest) later h = ground (
  arith,
  level-drop_full float mono rate burst now t k rest,
  refilled_mono float mono rate now t b,
  text_eq_iff j k,
  lookup-drop_full-none float rate burst now k rest,
)

-- What never changes.
abbrev pub SameTerms : RateLimiter → RateLimiter → Type 0
SameTerms rl rl' = (rl'.float ≡ rl.float) × (rl'.rate ≡ rl.rate) × (rl'.burst ≡ rl.burst)

pub sweep-level :
    (k : Text) (now t : ℕ) (rl : RateLimiter)
    → IsMonotone rl.float
    → now ≤ t
    → IsDistinct rl.buckets
    → level k t (sweep now rl) ≡ level k t rl
unfolding sweep
sweep-level k now t rl mono later h = elim (Bool-cases (is_swept rl.last_sweep now)) [
  | inl e ↦ rw e refl
  | inr e ↦ rw e (level-drop_full rl.float mono rl.rate rl.burst now t k rl.buckets later h)
]

pub sweep-IsDistinct :
    (now : ℕ) (rl : RateLimiter) → IsDistinct rl.buckets → IsDistinct (sweep now rl).buckets
unfolding sweep
sweep-IsDistinct now rl h = elim (Bool-cases (is_swept rl.last_sweep now)) [
  | inl e ↦ rw e h
  | inr e ↦ rw e (drop_full-IsDistinct rl.float rl.rate rl.burst now rl.buckets h)
]

pub sweep-SameTerms : (now : ℕ) (rl : RateLimiter) → SameTerms rl (sweep now rl)
unfolding sweep
sweep-SameTerms now rl = elim (Bool-cases (is_swept rl.last_sweep now)) [
  | inl e ↦ rw e (refl, refl, refl)
  | inr e ↦ rw e (refl, refl, refl)
]

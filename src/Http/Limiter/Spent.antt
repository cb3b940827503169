-- ===== src/Http/Limiter/Spent.antt =====
-- What one request does to what the clients have to spend.
use tonpayment.Base.{
  ℕ, ◌≤◌, Bool, true, false, Option, none, some, [], ◌∷◌, ◌≡◌, ◌≢◌, ltb, leb, refl, sym, ap, ◌∙◌,
  arith, if◌then◌else◌, subst, Bool-cases, inl, inr,
}
use tonpayment.Base.Text.{Text, text_eq, text_eq_iff, text_eq_ne}
use tonpayment.Base.Dict.{Dict, lookup, insert, lookup-insert, lookup-insert_self}
use tonpayment.Http.Limiter.{Float64, RateLimiter, Bucket, token, sweep, take_token, spend, allow}
use tonpayment.Http.Limiter.Level.{
  level, bucket_level, IsMonotone, IsDistinct, SameTerms, sweep-level, sweep-IsDistinct,
  sweep-SameTerms,
}

insert-IsDistinct :
    (k : Text) (b : Bucket) (d : Dict Bucket) → IsDistinct d → IsDistinct (insert k b d)
unfolding insert lookup
insert-IsDistinct k b [] h = (refl, tt)
insert-IsDistinct k b ((j, c) ∷ rest) h = elim (Bool-cases (text_eq j k)) [
  | inl e ↦ rw e (rw (sym ((text_eq_iff j k).0 e)) h.0, h.1)
  | inr e ↦ rw e (
    ground (arith, lookup-insert k j b rest, h.0, text_eq_iff j k, text_eq_iff k j),
    insert-IsDistinct k b rest h.1,
  )
]

-- A bucket that one request leaves behind.
abbrev left_over : Float64 → ℕ → Bool → ℕ → Bucket
left_over float now ok had = record {
  tokens = if ok then float.sub had (token float) else had;
  last = now;
}

-- What one request does to the limiter `rl`: the verdict, and the limiter after it.
pub record IsSpent (key : Text) (now : ℕ) (rl : RateLimiter) (r : Bool × RateLimiter) : Type 0 where
  pub verdict : r.0 ≡ leb (token rl.float) (level key now rl)
  pub cost : lookup key r.1.buckets ≡ some (left_over rl.float now r.0 (level key now rl))
  pub others : (j : Text) (t : ℕ) → j ≢ key → now ≤ t → level j t r.1 ≡ level j t rl
  pub terms : SameTerms rl r.1
  pub distinct : IsDistinct r.1.buckets

with_bucket : Text → Bucket → RateLimiter → RateLimiter
with_bucket key b rl = record rl { buckets = insert key b rl.buckets }

others-with_bucket :
    (key j : Text) (t : ℕ) (b : Bucket) (rl : RateLimiter)
    → j ≢ key
    → level j t (with_bucket key b rl) ≡ level j t rl
unfolding with_bucket
others-with_bucket key j t b rl n =
    ap (bucket_level rl.float rl.rate rl.burst t)
      (lookup-insert key j b rl.buckets ∙ rw (text_eq_ne key j n) refl)

with_bucket-IsSpent :
    (key : Text) (now : ℕ) (rl : RateLimiter) (ok : Bool)
    → IsDistinct rl.buckets
    → ok ≡ leb (token rl.float) (level key now rl)
    → IsSpent key now rl (ok, with_bucket key (left_over rl.float now ok (level key now rl)) rl)
with_bucket-IsSpent key now rl ok distinct verdict = record {
  verdict = verdict;
  cost = unfold with_bucket in lookup-insert_self key _ rl.buckets;
  others = λ j t n later. others-with_bucket key j t _ rl n;
  terms = unfold with_bucket in (refl, refl, refl);
  distinct = unfold with_bucket in insert-IsDistinct key _ rl.buckets distinct;
}

paid-IsSpent :
    (key : Text) (now : ℕ) (rl : RateLimiter)
    → IsDistinct rl.buckets
    → (n : ℕ) → n ≡ level key now rl
    → IsSpent key now rl (
        if ltb n (token rl.float)
        then (false, with_bucket key (record { tokens = n; last = now }) rl)
        else (
          true,
          with_bucket key (record { tokens = rl.float.sub n (token rl.float); last = now }) rl,
        ))
paid-IsSpent key now rl h n same =
    subst
      (λ m. IsSpent key now rl (
        if ltb m (token rl.float)
        then (false, with_bucket key (record { tokens = m; last = now }) rl)
        else (
          true,
          with_bucket key (record { tokens = rl.float.sub m (token rl.float); last = now }) rl,
        )))
      (sym same)
      (elim (Bool-cases (ltb (level key now rl) (token rl.float))) [
        | inl e ↦ rw e (with_bucket-IsSpent key now rl false h (ground (arith, e)))
        | inr e ↦ rw e (with_bucket-IsSpent key now rl true h (ground (arith, e)))
      ])

spend-IsSpent :
    (key : Text) (now : ℕ) (rl : RateLimiter)
    → token rl.float ≤ rl.burst
    → IsDistinct rl.buckets
    → (o : Option Bucket) → lookup key rl.buckets ≡ o
    → IsSpent key now rl (spend key now o rl)
unfolding spend take_token with_bucket
spend-IsSpent key now rl enough h none e =
    subst
      (λ n. IsSpent key now rl (
        true,
        with_bucket key (record { tokens = rl.float.sub n (token rl.float); last = now }) rl,
      ))
      (rw e refl) (with_bucket-IsSpent key now rl true h (rw e (ground (arith, enough))))
spend-IsSpent key now rl enough h (some b) e =
    paid-IsSpent key now rl h (bucket_level rl.float rl.rate rl.burst now (some b)) (rw e refl)

-- A limiter whose bursts let a request through, on a consistent table and with float64 arithmetic that
-- keeps the order, decides by the level of the client alone, what its own bucket would hold if none
-- were ever swept, in the same arithmetic: the request is let through if and only if the level is a
-- token at least, and the client's bucket then holds what is left of the level behind the request; what
-- the other clients have to spend, then and later, is untouched, by the sweep of full buckets too; and
-- the table stays consistent.
pub allow-IsSpent :
    (key : Text) (now : ℕ) (rl : RateLimiter)
    → IsMonotone rl.float
    → token rl.float ≤ rl.burst
    → IsDistinct rl.buckets
    → IsSpent key now rl (allow key now rl)
unfolding allow
allow-IsSpent key now rl mono enough h =
    let swept = sweep now rl in
    let terms = sweep-SameTerms now rl in
    let same = sweep-level key now now rl mono (omega arith) h in
    let s =
      spend-IsSpent key now swept (rw (terms.0, terms.2) enough) (sweep-IsDistinct now rl h)
        (lookup key swept.buckets) refl in
    record {
      verdict = s.verdict ∙ (λ i. leb (token (terms.0 i)) (same i));
      cost = s.cost ∙ (λ i.
          some (
            left_over (terms.0 i) now (spend key now (lookup key swept.buckets) swept).0 (same i)));
      others = λ j t n later. s.others j t n later ∙ sweep-level j now t rl mono later h;
      terms = (s.terms.0 ∙ terms.0, s.terms.1 ∙ terms.1, s.terms.2 ∙ terms.2);
      distinct = s.distinct;
    }

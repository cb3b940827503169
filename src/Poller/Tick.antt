-- ===== src/Poller/Tick.antt =====
-- One tick, whatever the order in which its goroutines end.
use tonpayment.Base.{
  ℕ, suc, ◌+◌, ◌*◌, ◌<◌, ◌≤◌, Bool, true, false, List, [], ◌∷◌, map, length, ◌≡◌, ◌⊎◌, inl, inr,
  refl, ap, ◌∙◌, arith, if◌then◌else◌,
}
use tonpayment.Base.Text.{Text}
use tonpayment.Base.Times.{times, times_middle, length_middle}
use tonpayment.Store.Invoices.{Invoice}
use tonpayment.Base.Int.{ℤ, pos}
use tonpayment.Poller.{
  new, Ticking, tick, Step, launches, ends, stops, IsOver, Reach, here, then_step,
}

abbrev all_times : Text → Ticking → ℕ
all_times id t = times id t.waiting + times id t.running + times id t.ended

step_keeps :
    (places : ℕ) (t u : Ticking) (id : Text) → Step places t u → all_times id u ≡ all_times id t
step_keeps places t u id (launches _ j rest s w l) = omega (arith, ap (times id) w)
step_keeps places t u id (ends _ before j behind r) =
    omega (arith, ap (times id) r, times_middle id j before behind)
step_keeps places t u id (stops _ j rest s w) = refl

step_fits :
    (places : ℕ) (t u : Ticking)
    → Step places t u
    → length t.running ≤ places
    → length u.running ≤ places
step_fits places t u (launches _ j rest s w l) h = omega (arith, l)
step_fits places t u (ends _ before j behind r) h =
    omega (arith, ap length r, length_middle j before behind)
step_fits places t u (stops _ j rest s w) h = h

-- What is left to do: two steps for a waiting invoice, one for a running one, and the cancellation.
abbrev pub work : Ticking → ℕ
work t = 2 * length t.waiting + length t.running + (if t.stopped then 0 else 1)

step_works : (places : ℕ) (t u : Ticking) → Step places t u → suc (work u) ≡ work t
step_works places t u (launches _ j rest s w l) = omega (arith, ap length w)
step_works places t u (ends _ before j behind r) =
    omega (arith, ap length r, length_middle j before behind)
step_works places t u (stops _ j rest s w) = ground (arith, s)

-- What holds of a tick that is under way.
pub record IsOrderly (places : ℕ) (ids : List Text) (t : Ticking) : Type 0 where
  pub fits : length t.running ≤ places
  pub accounted :
      (id : Text) → times id t.waiting + times id t.running + times id t.ended ≡ times id ids

abbrev pub listed : List Invoice → List Text
listed pending = map (λ (inv : Invoice). inv.id) pending

start-IsOrderly :
    (places : ℕ) (pending : List Invoice) → IsOrderly places (listed pending) (tick pending)
unfolding tick
start-IsOrderly places pending = record { fits = omega arith; accounted = λ id. omega arith }

Reach-IsOrderly :
    (places : ℕ) (ids : List Text) (t u : Ticking)
    → IsOrderly places ids t
    → Reach places t u
    → IsOrderly places ids u
Reach-IsOrderly places ids t u o (here _) = o
Reach-IsOrderly places ids t u o (then_step _ v _ r s) =
    let p = Reach-IsOrderly places ids t v o r in
    record {
      fits = step_fits places v u s p.fits;
      accounted = λ id. step_keeps places v u id s ∙ p.accounted id;
    }

-- The tick has returned, or a goroutine can be started or can end.
Goes : ℕ → Ticking → Type 0
Goes places t = IsOver t ⊎ ((u : Ticking) × Step places t u)

goes :
    (places : ℕ) (t : Ticking) (waiting running : List Text) (b : Bool)
    → 0 < places
    → t.waiting ≡ waiting
    → t.running ≡ running
    → t.stopped ≡ b
    → Goes places t
unfolding Goes
goes places t waiting (id ∷ behind) b h w r s = inr (_, ends t [] id behind r)
goes places t waiting [] true h w r s = inl (record { over = inr s; none_left = r })
goes places t [] [] false h w r s = inl (record { over = inl w; none_left = r })
goes places t (id ∷ rest) [] false h w r s =
    inr (_, launches t id rest s w (omega (arith, ap length r)))

pub new_places :
    (interval concurrency : ℤ) (places : ℕ)
    → (new interval concurrency).concurrency ≡ pos places
    → 0 < places
unfolding new
new_places interval concurrency places h = ground (arith, h)

-- A tick over the pending invoices, at any moment of any order of events.
pub record IsFair (places : ℕ) (pending : List Invoice) (t : Ticking) : Type 0 where
  pub fits : length t.running ≤ places
  pub complete :
      IsOver t → t.stopped ≡ false → (id : Text) → times id t.ended ≡ times id (listed pending)
  pub once : (id : Text) → times id t.running + times id t.ended ≤ times id (listed pending)
  pub moves : IsOver t ⊎ ((u : Ticking) × Step places t u)
  pub shrinks : (u : Ticking) → Step places t u → suc (work u) ≡ work t

returned_complete :
    (t : Ticking) (id : Text) (n : ℕ)
    → IsOver t
    → t.stopped ≡ false
    → times id t.waiting + times id t.running + times id t.ended ≡ n
    → times id t.ended ≡ n
returned_complete t id n r s h = none_waits r.over
  where
    none_waits : (t.waiting ≡ []) ⊎ (t.stopped ≡ true) → times id t.ended ≡ n
    none_waits (inl w) = omega (arith, ap (times id) w, ap (times id) r.none_left, h)
    none_waits (inr c) = absurd (ground (arith, c, s))

-- A tick of a poller as `New` makes it, with the places of its concurrency, whatever the order in which its goroutines end and whenever the
-- context is cancelled: never are more checks under way than there are places, an invoice is never
-- checked more often than the list names it, and a tick that returns with its context alive has
-- checked every invoice of the list exactly as often. Until it has returned it can move, and every
-- step leaves less to do, so it returns.
pub tick-IsFair :
    (interval concurrency : ℤ) (places : ℕ) (pending : List Invoice) (t : Ticking)
    → (new interval concurrency).concurrency ≡ pos places
    → Reach places (tick pending) t
    → IsFair places pending t
unfolding Goes
tick-IsFair interval concurrency places pending t h r =
    let o =
      Reach-IsOrderly places (listed pending) (tick pending) t (start-IsOrderly places pending) r in
    record {
      fits = o.fits;
      complete = λ done alive id.
          returned_complete t id (times id (listed pending)) done alive (o.accounted id);
      once = λ id. omega (arith, o.accounted id);
      moves =
          goes places t t.waiting t.running t.stopped (new_places interval concurrency places h)
            refl refl refl;
      shrinks = λ u s. step_works places t u s;
    }

-- ===== src/Poller/Loop.antt =====
-- `Run` of internal/poller/poller.go: the loop around the ticks, until the context is cancelled.
use tonpayment.Base.{
  ℕ, ◌<◌, Bool, true, false, List, [], ◌∷◌, length, ◌≡◌, ◌⊎◌, inl, inr, refl, ap, subst, arith,
}
use tonpayment.Base.Int.{ℤ, pos}
use tonpayment.Base.Text.{Text}
use tonpayment.Base.Times.{times}
use tonpayment.Store.Invoices.{Invoice}
use tonpayment.Poller.{new, Ticking, tick, IsOver}
use tonpayment.Poller
use tonpayment.Poller.Tick.{IsFair, listed, tick-IsFair, new_places}

-- Where the loop stands: at its `select`, in a tick over the invoices that `ListPending` gave, or
-- behind its return.
pub data Loop : Type 0 where
  selecting returned : Loop
  within : List Invoice → Ticking → Loop

-- The loop, and whether its context is cancelled.
pub record Polling : Type 0 where
  pub cancelled : Bool
  pub loop : Loop

abbrev pub begun : Polling
begun = record { cancelled = false; loop = selecting }

-- The ticker fires; a step of the tick, which sees the cancellation of the context only once it is
-- cancelled; the return of the tick; the cancellation; and the return of `Run`. Where the ticker has
-- fired and the context is cancelled, `select` takes either.
pub data Turn (places : ℕ) : Polling → Polling → Type 0 where
  ticks :
      (p : Polling) (pending : List Invoice)
      → p.loop ≡ selecting
      → Turn places p (record p { loop = within pending (tick pending) })
  works :
      (p : Polling) (pending : List Invoice) (t u : Ticking)
      → p.loop ≡ within pending t
      → Poller.Step places t u
      → (u.stopped ≡ true → p.cancelled ≡ true)
      → Turn places p (record p { loop = within pending u })
  finishes :
      (p : Polling) (pending : List Invoice) (t : Ticking)
      → p.loop ≡ within pending t
      → IsOver t
      → Turn places p (record p { loop = selecting })
  cancels : (p : Polling) → Turn places p (record p { cancelled = true })
  leaves :
      (p : Polling)
      → p.loop ≡ selecting
      → p.cancelled ≡ true
      → Turn places p (record p { loop = returned })

pub data Turns (places : ℕ) : Polling → Type 0 where
  starts : Turns places begun
  then_turn : (p q : Polling) → Turns places p → Turn places p q → Turns places q

-- What holds where the loop stands.
abbrev Sound : ℕ → Bool → Loop → Type 0
Sound places cancelled selecting = Unit
Sound places cancelled returned = cancelled ≡ true
Sound places cancelled (within pending t) =
    Poller.Reach places (tick pending) t × (t.stopped ≡ true → cancelled ≡ true)

cancelled-Sound : (places : ℕ) (c : Bool) (l : Loop) → Sound places c l → Sound places true l
cancelled-Sound places c selecting h = tt
cancelled-Sound places c returned h = refl
cancelled-Sound places c (within pending t) h = (h.0, λ _. refl)

Turns-Sound : (places : ℕ) (p : Polling) → Turns places p → Sound places p.cancelled p.loop
unfolding tick
Turns-Sound places _ starts = tt
Turns-Sound places _ (then_turn p _ r (ticks _ pending e)) =
    (Poller.here (tick pending), λ h. absurd (ground (arith, h)))
Turns-Sound places _ (then_turn p _ r (works _ pending t u e st seen)) =
    let h = subst (Sound places p.cancelled) e (Turns-Sound places p r) in
    (Poller.then_step _ t u h.0 st, seen)
Turns-Sound places _ (then_turn p _ r (finishes _ pending t e over)) = tt
Turns-Sound places _ (then_turn p _ r (cancels _)) =
    cancelled-Sound places p.cancelled p.loop (Turns-Sound places p r)
Turns-Sound places _ (then_turn p _ r (leaves _ e c)) = c

-- A turn that the loop takes by itself, before it has returned.
abbrev GoesOn : ℕ → Polling → Type 0
GoesOn places p = (q : Polling) × Turn places p q × (q.cancelled ≡ p.cancelled)

tick_goes :
    (places : ℕ) (p : Polling) (pending : List Invoice) (t : Ticking) (waiting running : List Text)
    (stopped : Bool)
    → 0 < places
    → p.loop ≡ within pending t
    → (t.stopped ≡ true → p.cancelled ≡ true)
    → t.waiting ≡ waiting
    → t.running ≡ running
    → t.stopped ≡ stopped
    → GoesOn places p
tick_goes places p pending t waiting (id ∷ behind) stopped room e seen w r s =
    (_, works p pending t _ e (Poller.ends t [] id behind r) seen, refl)
tick_goes places p pending t waiting [] true room e seen w r s =
    (_, finishes p pending t e (record { over = inr s; none_left = r }), refl)
tick_goes places p pending t [] [] false room e seen w r s =
    (_, finishes p pending t e (record { over = inl w; none_left = r }), refl)
tick_goes places p pending t (id ∷ rest) [] false room e seen w r s = (
  _,
  works p pending t _ e (Poller.launches t id rest s w (omega (arith, ap length r))) seen,
  refl,
)

-- The background checks, from the start of the loop on.
pub record IsPolling (places : ℕ) (p : Polling) : Type 0 where
  pub fair :
      (pending : List Invoice) (t : Ticking) → p.loop ≡ within pending t → IsFair places pending t
  pub complete :
      (pending : List Invoice) (t : Ticking)
      → p.loop ≡ within pending t
      → IsOver t
      → p.cancelled ≡ false
      → (id : Text) → times id t.ended ≡ times id (listed pending)
  pub lasts : p.loop ≡ returned → p.cancelled ≡ true
  pub goes : (p.loop ≡ returned) ⊎ GoesOn places p

goes_on :
    (places : ℕ) (p : Polling) (l : Loop)
    → 0 < places
    → Sound places p.cancelled l
    → p.loop ≡ l
    → (p.loop ≡ returned) ⊎ GoesOn places p
goes_on places p selecting room h e = inr (_, ticks p [] e, refl)
goes_on places p returned room h e = inl e
goes_on places p (within pending t) room h e =
    inr (tick_goes places p pending t t.waiting t.running t.stopped room e h.1 refl refl refl)

not_stopped : (b c : Bool) → (b ≡ true → c ≡ true) → c ≡ false → b ≡ false
not_stopped false c h e = refl
not_stopped true c h e = absurd (ground (arith, h refl, e))

-- The loop of a poller as `New` makes it, whenever the ticker fires, in whatever order the goroutines
-- end and whenever the context is cancelled: at every moment the tick that is under way is fair; a tick
-- that ends while the context is alive has checked every invoice that `ListPending` gave exactly as
-- often as it names it; `Run` returns only once the context is cancelled, and until then it can go on.
pub Turns-IsPolling :
    (interval concurrency : ℤ) (places : ℕ) (p : Polling)
    → (new interval concurrency).concurrency ≡ pos places
    → Turns places p
    → IsPolling places p
Turns-IsPolling interval concurrency places p h r =
    let s = Turns-Sound places p r in
    let inner = λ (pending : List Invoice) (t : Ticking) (e : p.loop ≡ within pending t).
      subst (Sound places p.cancelled) e s in
    let fair = λ (pending : List Invoice) (t : Ticking) (e : p.loop ≡ within pending t).
      tick-IsFair interval concurrency places pending t h (inner pending t e).0 in
    record {
      fair = fair;
      complete = λ pending t e over alive.
          (fair pending t e).complete over
            (not_stopped t.stopped p.cancelled (inner pending t e).1 alive);
      lasts = λ e. subst (Sound places p.cancelled) e s;
      goes = goes_on places p p.loop (new_places interval concurrency places h) s refl;
    }

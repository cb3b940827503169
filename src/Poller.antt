-- ===== src/Poller.antt =====
-- internal/poller/poller.go: the background checks of the pending invoices. `Run` calls `tick` at each
-- reading of its ticker until the context is cancelled; the steps below are those of one tick, whose
-- goroutines run the status checks that Service/Interleave interleaves.
pub mod Tick
pub mod Loop
pub mod Tests
use tonpayment.Base.{
  ℕ, suc, ◌<◌, Bool, true, false, List, [], ◌∷◌, ◌++◌, map, length, ◌≡◌, ◌⊎◌, if◌then◌else◌,
}
use tonpayment.Base.Int.{ℤ, pos, ltb_ℤ, leb_ℤ}
use tonpayment.Base.Text.{Text}
use tonpayment.Store.Invoices.{Invoice}

pub record Poller : Type 0 where
  pub interval : ℤ
  pub concurrency : ℤ

-- `New`
unfoldable pub new : ℤ → ℤ → Poller
new interval concurrency = record {
  interval = if leb_ℤ interval (pos 0) then pos 10_000_000_000 else interval;
  concurrency = if ltb_ℤ concurrency (pos 1) then pos 4 else concurrency;
}

-- A tick that is under way: the invoices that the loop has yet to come to, those whose goroutines run
-- `CheckStatus` and hold a place in `sem`, those whose goroutines have ended, and whether the loop has
-- seen the context cancelled.
pub record Ticking : Type 0 where
  pub waiting : List Text
  pub running : List Text
  pub ended : List Text
  pub stopped : Bool

unfoldable pub tick : List Invoice → Ticking
tick pending = record {
  waiting = map (λ (inv : Invoice). inv.id) pending;
  running = [];
  ended = [];
  stopped = false;
}

-- `sem <- struct{}{}` and `go`, while a place is free; the end of a goroutine, in any order, which
-- frees its place; and `<-ctx.Done()`.
pub data Step (places : ℕ) : Ticking → Ticking → Type 0 where
  launches :
      (t : Ticking) (id : Text) (rest : List Text)
      → t.stopped ≡ false
      → t.waiting ≡ id ∷ rest
      → length t.running < places
      → Step places t (record t { waiting = rest; running = id ∷ t.running })
  ends :
      (t : Ticking) (before : List Text) (id : Text) (behind : List Text)
      → t.running ≡ before ++ id ∷ behind
      → Step places t (record t { running = before ++ behind; ended = id ∷ t.ended })
  stops :
      (t : Ticking) (id : Text) (rest : List Text)
      → t.stopped ≡ false
      → t.waiting ≡ id ∷ rest
      → Step places t (record t { stopped = true })

-- The tick returns: the loop is over, and `wg.Wait()` has no goroutine to wait for.
pub record IsOver (t : Ticking) : Type 0 where
  pub over : (t.waiting ≡ []) ⊎ (t.stopped ≡ true)
  pub none_left : t.running ≡ []

pub data Reach (places : ℕ) : Ticking → Ticking → Type 0 where
  here : (t : Ticking) → Reach places t t
  then_step : (t u v : Ticking) → Reach places t u → Step places u v → Reach places t v

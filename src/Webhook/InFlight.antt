-- ===== src/Webhook/InFlight.antt =====
-- The deliveries of one sender: `Fire` starts a goroutine, which waits for a place in `sem`, delivers
-- and ends; `Wait` returns when none is left. What a delivery does is `deliver` of Webhook.
pub mod Drain
pub mod Tests
use tonpayment.Base.{ℕ, ◌<◌, List, [], ◌∷◌, ◌++◌, length, ◌≡◌}
use tonpayment.Base.Text.{Text}

-- `make(chan struct{}, 32)`
abbrev pub places : ℕ
places = 32

-- The ids of the invoices that goroutines wait with, deliver and have dealt with.
pub record InFlight : Type 0 where
  pub waiting : List Text
  pub sending : List Text
  pub ended : List Text

-- A new sender.
abbrev pub idle : InFlight
idle = record { waiting = []; sending = []; ended = [] }

-- The ids that have been fired are an index of the steps, the latest first.
pub data Flow : List Text → InFlight → Type 0 where
  begins : Flow [] idle
  fires :
      {log : List Text} {t : InFlight} (id : Text)
      → Flow log t
      → Flow (id ∷ log) (record t { waiting = id ∷ t.waiting })
  -- `s.sem <- struct{}{}`
  sends :
      {log : List Text} {t : InFlight} (before : List Text) (id : Text) (behind : List Text)
      → Flow log t
      → t.waiting ≡ before ++ id ∷ behind
      → length t.sending < places
      → Flow log (record t { waiting = before ++ behind; sending = id ∷ t.sending })
  -- `deliver` has returned.
  ends :
      {log : List Text} {t : InFlight} (before : List Text) (id : Text) (behind : List Text)
      → Flow log t
      → t.sending ≡ before ++ id ∷ behind
      → Flow log (record t { sending = before ++ behind; ended = id ∷ t.ended })

-- `s.wg.Wait()` returns.
pub record IsDrained (t : InFlight) : Type 0 where
  pub none_waits : t.waiting ≡ []
  pub none_sends : t.sending ≡ []

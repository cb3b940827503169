-- ===== src/Poller/Tests.antt =====
-- A tick over one invoice, with one place.
use tonpayment.Base.{false, true, [], ◌∷◌, ◌≡◌, refl, arith}
use tonpayment.Base.Int.{pos, negsuc}
use tonpayment.Base.Text.{codes}
use tonpayment.Store.Memory.Tests.{open_invoice}
use tonpayment.Poller.{new, Ticking, tick, launches, Reach, here, then_step}
use tonpayment.Poller.Loop.{
  Polling, begun, within, ticks, works, cancels, Turns, starts, then_turn, IsPolling,
  Turns-IsPolling,
}

defaults : new (pos 0) (negsuc 2) ≡ record { interval = pos 10_000_000_000; concurrency = pos 4 }
unfolding new
defaults = refl

abbrev under_way : Ticking
under_way = record { waiting = []; running = codes "inv_1" ∷ []; ended = []; stopped = false }

under_way_reached : Reach 1 (tick (open_invoice ∷ [])) under_way
unfolding tick
under_way_reached =
    then_step _ (tick (open_invoice ∷ [])) _ (here _)
      (launches (tick (open_invoice ∷ [])) (codes "inv_1") [] refl refl (omega arith))

one_place : (new (pos 5) (pos 1)).concurrency ≡ pos 1
unfolding new
one_place = refl

-- The context is cancelled while the check is under way.
abbrev cancelled_tick : Polling
cancelled_tick = record { cancelled = true; loop = within (open_invoice ∷ []) under_way }

cancelled_reached : Turns 1 cancelled_tick
unfolding tick
cancelled_reached =
    then_turn _ _
      (then_turn _ _ (then_turn _ _ starts (ticks begun (open_invoice ∷ []) refl)) (
        works _ (open_invoice ∷ []) _ under_way refl
          (launches (tick (open_invoice ∷ [])) (codes "inv_1") [] refl refl (omega arith))
          (λ h. absurd (ground (arith, h)))))
      (cancels _)

Turns-IsPolling_example : IsPolling 1 cancelled_tick
Turns-IsPolling_example =
    Turns-IsPolling (pos 5) (pos 1) 1 cancelled_tick one_place cancelled_reached

-- ===== src/Startup/Shutdown/Tests.antt =====
-- A process that is stopped while a delivery is under way.
use tonpayment.Base.{◌<◌, true, false, [], ◌∷◌, refl, arith}
use tonpayment.Base.Text.{Text, codes}
use tonpayment.Webhook.InFlight.{places}
use tonpayment.Startup.Shutdown.{
  exited, Process, launched, accepts, answers, request_fires, sends, delivered, signalled,
  shut_down, waited, drain_seen, closes, Reach, starts, next, serving_lives, stopping_lives,
  draining_lives,
}
use tonpayment.Startup.Shutdown.Exit.{IsSettled, exit-IsSettled}

abbrev id : Text
id = codes "inv_1"

-- One request settled an invoice, which was delivered after the signal.
abbrev stopped : Process
stopped = record (launched false) {
  phase = exited;
  fired = id ∷ [];
  deliveries = record { waiting = []; sending = []; ended = id ∷ [] };
  drained = true;
  pool_open = false;
}

room : 0 < places
room = omega arith

stopped_reached : Reach false 4 stopped
stopped_reached =
    let fired = next (next starts (accepts refl)) (request_fires id serving_lives (omega arith)) in
    let stopping = next (next fired (signalled refl)) (answers 0 stopping_lives refl) in
    let sending =
      next (next stopping (shut_down refl refl)) (sends [] id [] draining_lives refl room) in
    let quiet = next sending (delivered [] id [] draining_lives refl) in
    next
      (next (next quiet (waited refl (record { none_waits = refl; none_sends = refl })))
        (drain_seen refl refl))
      (closes refl)

exit-IsSettled_example : IsSettled stopped
exit-IsSettled_example = exit-IsSettled stopped_reached refl refl

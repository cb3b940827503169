-- ===== src/Webhook/InFlight/Drain.antt =====
-- The deliveries in flight, whatever the order in which they go on.
use tonpayment.Base.{
  ℕ, suc, ◌+◌, ◌*◌, ◌≤◌, List, [], ◌∷◌, length, ◌≡◌, ◌⊎◌, inl, inr, refl, ap, arith,
}
use tonpayment.Base.Text.{Text}
use tonpayment.Base.Times.{times, times_middle, length_middle}
use tonpayment.Webhook.InFlight.{InFlight, places, Flow, begins, fires, sends, ends, IsDrained}

record IsTracked (log : List Text) (t : InFlight) : Type 0 where
  fits : length t.sending ≤ places
  counted : length t.waiting + length t.sending + length t.ended ≡ length log
  accounted :
      (id : Text) → times id t.waiting + times id t.sending + times id t.ended ≡ times id log

Flow-IsTracked : (log : List Text) (t : InFlight) → Flow log t → IsTracked log t
Flow-IsTracked _ _ begins = record {
  fits = omega arith;
  counted = omega arith;
  accounted = λ id. omega arith;
}
Flow-IsTracked _ _ (fires {log = log} {t = t} j f) =
    let h = Flow-IsTracked log t f in
    record {
      fits = h.fits;
      counted = omega (arith, h.counted);
      accounted = λ id. omega (arith, h.accounted id);
    }
Flow-IsTracked log _ (sends {t = t} before j behind f w l) =
    let h = Flow-IsTracked log t f in
    record {
      fits = omega (arith, l);
      counted = omega (arith, h.counted, ap length w, length_middle j before behind);
      accounted =
          λ id. omega (arith, h.accounted id, ap (times id) w, times_middle id j before behind);
    }
Flow-IsTracked log _ (ends {t = t} before j behind f w) =
    let h = Flow-IsTracked log t f in
    record {
      fits = omega (arith, h.fits, ap length w, length_middle j before behind);
      counted = omega (arith, h.counted, ap length w, length_middle j before behind);
      accounted =
          λ id. omega (arith, h.accounted id, ap (times id) w, times_middle id j before behind);
    }

-- Two steps for each delivery that has ended, and one for each that is under way.
abbrev pub handled : InFlight → ℕ
handled t = 2 * length t.ended + length t.sending

-- The deliveries of a sender to which the ids of `log` have been fired.
pub record IsDelivering (log : List Text) (t : InFlight) : Type 0 where
  pub fits : length t.sending ≤ places
  pub once : (id : Text) → times id t.ended ≤ times id log
  pub drained : IsDrained t → (id : Text) → times id t.ended ≡ times id log
  pub moves : IsDrained t ⊎ ((u : InFlight) × Flow log u × (handled u ≡ suc (handled t)))
  pub bounded : handled t ≤ 2 * length log

goes :
    (log : List Text) (t : InFlight) (waiting sending : List Text)
    → Flow log t
    → t.waiting ≡ waiting
    → t.sending ≡ sending
    → IsDrained t ⊎ ((u : InFlight) × Flow log u × (handled u ≡ suc (handled t)))
goes log t waiting (id ∷ behind) f w s = inr (_, ends [] id behind f s, omega (arith, ap length s))
goes log t [] [] f w s = inl (record { none_waits = w; none_sends = s })
goes log t (id ∷ behind) [] f w s =
    inr (_, sends [] id behind f w (omega (arith, ap length s)), omega arith)

-- Whatever is fired and in whatever order the deliveries go on: never are more of them under way than
-- there are places, none ends for an invoice that has not been fired or more often than it has, and
-- once `Wait` can return a delivery has ended for every firing. Until then a delivery can begin or
-- end, and without further firings that comes to an end.
pub Flow-IsDelivering : (log : List Text) (t : InFlight) → Flow log t → IsDelivering log t
Flow-IsDelivering log t f =
    let h = Flow-IsTracked log t f in
    record {
      fits = h.fits;
      once = λ id. omega (arith, h.accounted id);
      drained = λ d id.
          omega (arith, h.accounted id, ap (times id) d.none_waits, ap (times id) d.none_sends);
      moves = goes log t t.waiting t.sending f refl refl;
      bounded = omega (arith, h.counted);
    }

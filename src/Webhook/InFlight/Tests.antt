-- ===== src/Webhook/InFlight/Tests.antt =====
-- Two firings, of which one is being delivered.
use tonpayment.Base.{[], ◌∷◌, refl, arith, List}
use tonpayment.Base.Text.{Text, codes}
use tonpayment.Webhook.InFlight.{InFlight, Flow, begins, fires, sends}
use tonpayment.Webhook.InFlight.Drain.{IsDelivering, Flow-IsDelivering}

abbrev one_sent : InFlight
one_sent = record { waiting = codes "inv_2" ∷ []; sending = codes "inv_1" ∷ []; ended = [] }

abbrev log : List Text
log = codes "inv_2" ∷ codes "inv_1" ∷ []

flow : Flow log one_sent
flow =
    sends (codes "inv_2" ∷ []) (codes "inv_1") []
      (fires (codes "inv_2") (fires (codes "inv_1") begins)) refl (omega arith)

Flow-IsDelivering_example : IsDelivering log one_sent
Flow-IsDelivering_example = Flow-IsDelivering log one_sent flow

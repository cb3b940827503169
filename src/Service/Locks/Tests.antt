-- ===== src/Service/Locks/Tests.antt =====
-- Two goroutines that lock one key: the second finds the mutex of the first, and waits.
use tonpayment.Base.{false, true, some, [], ◌∷◌, refl}
use tonpayment.Base.Text.{Text, codes, text_eq}
use tonpayment.Base.Dict.{lookup, insert}
use tonpayment.Service.Interleave.{here}
use tonpayment.Service.Locks.{
  waiting, inside, calls, looks, finds, makes, leaves, locks, System, set_locked, moves, spawns,
  Reach, begins, next,
}
use tonpayment.Service.Locks.Exclusion.{IsExclusive, Reach-IsExclusive}

abbrev key : Text
key = codes "inv_1"

abbrev contended : System
contended = record {
  locks = record {
    busy = false;
    table = some ((key, 0) ∷ []);
    allocated = 1;
    locked = set_locked 0 true (λ l. false);
  };
  threads = waiting key 0 ∷ inside key 0 ∷ [];
}

contended_reached : Reach contended
unfolding lookup insert text_eq
contended_reached =
    let first_waits =
      next
        (next
          (next (next (next begins spawns) (moves here (calls key refl))) (moves here (looks key)))
          (moves here (makes key)))
        (moves here (leaves key 0)) in
    let first_inside = next first_waits (moves here (locks key 0 refl)) in
    next
      (next
        (next (next (next first_inside spawns) (moves here (calls key refl)))
          (moves here (looks key)))
        (moves here (finds key 0)))
      (moves here (leaves key 0))

Reach-IsExclusive_example : IsExclusive contended
Reach-IsExclusive_example = Reach-IsExclusive contended_reached

-- ===== src/Startup/Shutdown/Exit.antt =====
-- What a clean exit means.
use tonpayment.Base.{
  ℕ, Bool, true, false, Option, none, some, List, [], ◌∷◌, ◌++◌, length, ◌≡◌, refl, sym, subst, ap,
  arith,
}
use tonpayment.Base.Text.{Text}
use tonpayment.Base.Times.{times, length_middle}
use tonpayment.Poller.Loop.{Polling}
use tonpayment.Webhook.InFlight
use tonpayment.Webhook.InFlight.{Flow, IsDrained}
use tonpayment.Webhook.InFlight.Drain.{Flow-IsDelivering}
use tonpayment.Startup.Shutdown.{
  Phase, serving, stopping, draining, closing, exited, Process, Step, accepts, answers,
  request_fires, check_fires, polls, sends, delivered, server_fails, signalled, shut_down,
  shutdown_times_out, waited, drain_seen, drain_times_out, closes, Reach, starts, next,
}

-- `main` is behind the shutdown of the server.
abbrev after_server : Phase → Bool
after_server serving = false
after_server stopping = false
after_server draining = true
after_server closing = true
after_server exited = true

-- `main` is behind the drain.
abbrev after_drain : Phase → Bool
after_drain serving = false
after_drain stopping = false
after_drain draining = false
after_drain closing = true
after_drain exited = true

-- What holds without a poller.
record IsQuiet (p : Process) : Type 0 where
  unpolled : p.polling ≡ none
  flow : Flow p.fired p.deliveries
  unserved : p.clean ≡ true → after_server p.phase ≡ true → p.requests ≡ 0
  waited_for : p.clean ≡ true → after_drain p.phase ≡ true → p.drained ≡ true
  behind : p.drained ≡ true → after_server p.phase ≡ true
  empty : p.clean ≡ true → p.drained ≡ true → IsDrained p.deliveries
  closed : p.clean ≡ true → p.phase ≡ exited → p.pool_open ≡ false

none-ne-some : {o : Option Polling} {l : Polling} → o ≡ none → ¬ (o ≡ some l)
none-ne-some h e = ground (arith, h, e)

not_empty :
    {l : List Text} (before : List Text) (id : Text) (behind : List Text)
    → l ≡ before ++ id ∷ behind
    → ¬ (l ≡ [])
not_empty before id behind w e =
    absurd (omega (arith, ap length w, ap length e, length_middle id before behind))

Step-IsQuiet : {checks : ℕ} {p q : Process} → Step checks p q → IsQuiet p → IsQuiet q
Step-IsQuiet (accepts at) o = ground arith
Step-IsQuiet (answers n alive more) o = grind arith
Step-IsQuiet (request_fires id alive some_request) o = grind (arith, InFlight.fires id o.flow)
Step-IsQuiet (check_fires id l pending t alive e at running) o = absurd (none-ne-some o.unpolled e)
Step-IsQuiet (polls l l' alive e turn same) o = absurd (none-ne-some o.unpolled e)
Step-IsQuiet (sends before id behind alive w room) o =
    grind (arith, InFlight.sends before id behind o.flow w room, not_empty before id behind w)
Step-IsQuiet (delivered before id behind alive w) o =
    grind (arith, InFlight.ends before id behind o.flow w, not_empty before id behind w)
Step-IsQuiet (server_fails at) o = ground arith
Step-IsQuiet {p} (signalled at) o = grind arith
Step-IsQuiet (shut_down at idle) o = grind arith
Step-IsQuiet (shutdown_times_out at) o = ground arith
Step-IsQuiet (waited at done) o = grind arith
Step-IsQuiet (drain_seen at drained) o = grind arith
Step-IsQuiet (drain_times_out at) o = ground arith
Step-IsQuiet (closes at) o = grind arith

Reach-IsQuiet : {checks : ℕ} {p : Process} → Reach false checks p → IsQuiet p
Reach-IsQuiet starts = record {
  unpolled = refl;
  flow = InFlight.begins;
  unserved = λ c a. refl;
  waited_for = λ c a. absurd (ground (arith, a));
  behind = λ d. absurd (ground (arith, d));
  empty = λ c d. absurd (ground (arith, d));
  closed = λ c a. absurd (ground (arith, a));
}
Reach-IsQuiet (next r st) = Step-IsQuiet st (Reach-IsQuiet r)

-- Every request has been answered, every firing's delivery has ended, and the pool is closed.
pub record IsSettled (p : Process) : Type 0 where
  pub answered : p.requests ≡ 0
  pub delivered_all : (id : Text) → times id p.deliveries.ended ≡ times id p.fired
  pub pool_closed : p.pool_open ≡ false

-- A process without the poller that has exited, with no deadline passed and no failure of the server:
-- whatever requests came and settled invoices, and in whatever order they and the deliveries went on,
-- every request has been answered, a delivery has ended for every firing, and the pool is closed.
pub exit-IsSettled :
    {checks : ℕ} {p : Process}
    → Reach false checks p
    → p.phase ≡ exited
    → p.clean ≡ true
    → IsSettled p
exit-IsSettled {p} r at c =
    let o = Reach-IsQuiet r in
    let over = λ (f : Phase → Bool) (h : f exited ≡ true). subst (λ x. f x ≡ true) (sym at) h in
    record {
      answered = o.unserved c (over after_server refl);
      delivered_all =
          (Flow-IsDelivering p.fired p.deliveries o.flow).drained
            (o.empty c (o.waited_for c (over after_drain refl)));
      pool_closed = o.closed c at;
    }

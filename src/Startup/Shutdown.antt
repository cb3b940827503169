-- ===== src/Startup/Shutdown.antt =====
-- The end of `main` in cmd/server/main.go: what runs once the program is wired, and the shutdown. The
-- HTTP server is known by the requests that it serves, the poller by its loop (Poller/Loop), and the
-- webhook sender by its deliveries (Webhook/InFlight). `Shutdown` of net/http closes the listeners
-- and returns once no request is served, or at its deadline, as it documents.
pub mod Exit
pub mod Tests
use tonpayment.Base.{
  ℕ, suc, ◌<◌, Bool, true, false, Option, none, some, List, [], ◌∷◌, ◌++◌, length, ◌≡◌, ◌≢◌,
  if◌then◌else◌, arith,
}
use tonpayment.Base.Text.{Text}
use tonpayment.Base.Times.{times}
use tonpayment.Store.Invoices.{Invoice}
use tonpayment.Poller.{Ticking}
use tonpayment.Poller.Loop.{Polling, Turn, begun, within}
use tonpayment.Webhook.InFlight.{InFlight, places, idle, IsDrained}

-- Where the goroutine of `main` stands: at `<-stop`, in `srv.Shutdown`, at the `select` of the drain,
-- before the close of the pool, and behind its return, which ends every goroutine.
pub data Phase : Type 0 where
  serving stopping draining closing exited : Phase

pub record Process : Type 0 where
  pub phase : Phase
  -- Neither the server has failed nor a deadline has passed.
  pub clean : Bool
  -- The poller, if it is enabled.
  pub polling : Option Polling
  -- how many requests are served
  pub requests : ℕ
  -- the ids of the invoices that the sender was handed, the latest first, and its deliveries
  pub fired : List Text
  pub deliveries : InFlight
  -- The channel `drained` is closed.
  pub drained : Bool
  pub pool_open : Bool

-- The program with its server started, and with the poller if `cfg.PollEnabled`.
abbrev pub launched : Bool → Process
launched poll = record {
  phase = serving;
  clean = true;
  polling = if poll then some begun else none;
  requests = 0;
  fired = [];
  deliveries = idle;
  drained = false;
  pool_open = true;
}

abbrev hand_over : Text → Process → Process
hand_over id p = record p {
  fired = id ∷ p.fired;
  deliveries = record p.deliveries { waiting = id ∷ p.deliveries.waiting };
}

-- `stopPoller()`
abbrev stop_poller : Option Polling → Option Polling
stop_poller none = none
stop_poller (some l) = some (record l { cancelled = true })

-- One step of the process, with the concurrency of its poller. The store and the replies of the
-- verifier are left open: a request or a check may hand any invoice to the sender at any time that it
-- runs, so that the steps take in every run of the program and more.
pub data Step (checks : ℕ) (p : Process) : Process → Type 0 where
  accepts : p.phase ≡ serving → Step checks p (record p { requests = suc p.requests })
  answers :
      (n : ℕ) → p.phase ≢ exited → p.requests ≡ suc n → Step checks p (record p { requests = n })
  -- A status request may settle an invoice and hand it to the sender.
  request_fires : (id : Text) → p.phase ≢ exited → 0 < p.requests → Step checks p (hand_over id p)
  -- So may a check of the poller.
  check_fires :
      (id : Text) (l : Polling) (pending : List Invoice) (t : Ticking)
      → p.phase ≢ exited
      → p.polling ≡ some l
      → l.loop ≡ within pending t
      → 0 < times id t.running
      → Step checks p (hand_over id p)
  polls :
      (l l' : Polling)
      → p.phase ≢ exited
      → p.polling ≡ some l
      → Turn checks l l'
      → l'.cancelled ≡ l.cancelled
      → Step checks p (record p { polling = some l' })
  sends :
      (before : List Text) (id : Text) (behind : List Text)
      → p.phase ≢ exited
      → p.deliveries.waiting ≡ before ++ id ∷ behind
      → length p.deliveries.sending < places
      → Step checks p (record p {
        deliveries = record p.deliveries {
          waiting = before ++ behind;
          sending = id ∷ p.deliveries.sending;
        };
      })
  delivered :
      (before : List Text) (id : Text) (behind : List Text)
      → p.phase ≢ exited
      → p.deliveries.sending ≡ before ++ id ∷ behind
      → Step checks p (record p {
        deliveries = record p.deliveries {
          sending = before ++ behind;
          ended = id ∷ p.deliveries.ended;
        };
      })
  -- `log.Fatalf` once `ListenAndServe` fails
  server_fails : p.phase ≡ serving → Step checks p (record p { phase = exited; clean = false })
  signalled :
      p.phase ≡ serving
      → Step checks p (record p { phase = stopping; polling = stop_poller p.polling })
  shut_down : p.phase ≡ stopping → p.requests ≡ 0 → Step checks p (record p { phase = draining })
  shutdown_times_out :
      p.phase ≡ stopping → Step checks p (record p { phase = draining; clean = false })
  -- `sender.Wait(); close(drained)`
  waited : p.phase ≡ draining → IsDrained p.deliveries → Step checks p (record p { drained = true })
  drain_seen : p.phase ≡ draining → p.drained ≡ true → Step checks p (record p { phase = closing })
  drain_times_out : p.phase ≡ draining → Step checks p (record p { phase = closing; clean = false })
  -- `pg.Close()`, and the return of `main`
  closes : p.phase ≡ closing → Step checks p (record p { phase = exited; pool_open = false })

pub serving_lives : serving ≢ exited
serving_lives e = ground (arith, e)

pub stopping_lives : stopping ≢ exited
stopping_lives e = ground (arith, e)

pub draining_lives : draining ≢ exited
draining_lives e = ground (arith, e)

-- What a process of the configuration comes to.
pub data Reach (poll : Bool) (checks : ℕ) : Process → Type 0 where
  starts : Reach poll checks (launched poll)
  next : {p q : Process} → Reach poll checks p → Step checks p q → Reach poll checks q

-- ===== src/Service/Interleave.antt =====
-- Many callers at once (the HTTP handlers and the poller goroutines of any number of processes, over
-- one store): each takes one command at a time, in any order; the environment chooses the verdicts of the
-- chain, the clock and the random draws. An id that is drawn is not in use when
-- its invoice is stored.
pub mod Owes
pub mod OwesCreate
pub mod Balance
pub mod Once
use tonpayment.Base.{ℕ, Option, none, List, [], ◌∷◌, ◌++◌, ◌≡◌, All, ◌≢◌}
use tonpayment.Base.Text.{Text}
use tonpayment.Store.Invoices.{Invoice, Time}
use tonpayment.Store.Contract.{Store}
use tonpayment.Service.Program.{
  Prog, get_invoice, create_invoice, claim_invoice, expire_invoice, pending_counts, verify, fire,
  now, lock, unlock, random, Verdict, Service, Reply,
}

pub record Shared (S : Type 0) : Type 0 where
  pub state : S
  -- what the webhook was handed, the latest first
  pub fired : List Invoice
  -- the invoice ids whose lock is held
  pub held : List Text

module _ {S : Type 0} (store : Store S) where
  -- One command of one program.
  pub data Act {A : Type 0} : Prog A → Shared S → Prog A → Shared S → Type 0 where
    gets :
        (id : Text) (k : Option Invoice → Prog A) (s : Shared S)
        → Act (get_invoice id k) s (k (store.get_invoice id s.state)) s
    creates :
        (inv : Invoice) (k : _ → Prog A) (s : Shared S)
        → store.get_invoice inv.id s.state ≡ none
        → Act
            (create_invoice inv k)
            s
            (k (store.create_invoice inv s.state).0)
            (record s { state = (store.create_invoice inv s.state).1 })
    claims :
        (id tx : Text) (at : Time) (k : _ → Prog A) (s : Shared S)
        → Act
            (claim_invoice id tx at k)
            s
            (k (store.claim_invoice_for_settlement id tx at s.state).0)
            (record s { state = (store.claim_invoice_for_settlement id tx at s.state).1 })
    expires :
        (id : Text) (k : _ → Prog A) (s : Shared S)
        → Act
            (expire_invoice id k)
            s
            (k (store.expire_invoice id s.state).0)
            (record s { state = (store.expire_invoice id s.state).1 })
    counts :
        (a : Text) (k : _ → Prog A) (s : Shared S)
        → Act (pending_counts a k) s (k (store.pending_counts a s.state)) s
    verifies :
        (inv : Invoice) (k : Verdict → Prog A) (s : Shared S) (v : Verdict)
        → Act (verify inv k) s (k v) s
    fires :
        (inv : Invoice) (k : Prog A) (s : Shared S)
        → Act (fire inv k) s k (record s { fired = inv ∷ s.fired })
    reads_clock : (k : Time → Prog A) (s : Shared S) (t : Time) → Act (now k) s (k t) s
    -- `Lock` waits until the lock is free.
    locks :
        (id : Text) (k : Prog A) (s : Shared S)
        → All (λ l. l ≢ id) s.held
        → Act (lock id k) s k (record s { held = id ∷ s.held })
    unlocks :
        (id : Text) (k : Prog A) (s : Shared S) (before after : List Text)
        → s.held ≡ before ++ id ∷ after
        → Act (unlock id k) s k (record s { held = before ++ after })
    -- A caller in another process over the same store has locks of its own.
    locks_apart : (id : Text) (k : Prog A) (s : Shared S) → Act (lock id k) s k s
    unlocks_apart : (id : Text) (k : Prog A) (s : Shared S) → Act (unlock id k) s k s
    draws :
        (n : ℕ) (k : List ℕ → Prog A) (s : Shared S) (bytes : List ℕ)
        → Act (random n k) s (k bytes) s

-- The callers that run, and what they share.
pub record Config (S : Type 0) : Type 0 where
  pub callers : List (Prog Reply)
  pub shared : Shared S

-- One element of a list is replaced.
pub data Replaced {A : Type 0} : List A → A → A → List A → Type 0 where
  here : {a b : A} {l : List A} → Replaced (a ∷ l) a b (b ∷ l)
  there : {a b c : A} {l l' : List A} → Replaced l a b l' → Replaced (c ∷ l) a b (c ∷ l')

-- A caller of the service, or none of its calls, may start at any time: `Call` says which programs.
module _ {S : Type 0} (store : Store S) (Call : Prog Reply → Type 0) where
  pub data Step : Config S → Config S → Type 0 where
    act :
        {ps ps' : List (Prog Reply)} {p p' : Prog Reply} {s s' : Shared S}
        → Replaced ps p p' ps'
        → Act store p s p' s'
        → Step (record { callers = ps; shared = s }) (record { callers = ps'; shared = s' })
    start :
        {ps : List (Prog Reply)} {s : Shared S} (p : Prog Reply)
        → Call p
        → Step (record { callers = ps; shared = s }) (record { callers = p ∷ ps; shared = s })

  pub data Reach (c : Config S) : Config S → Type 0 where
    begin : Reach c c
    next : {d e : Config S} → Reach c d → Step d e → Reach c e

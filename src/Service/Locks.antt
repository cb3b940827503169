-- ===== src/Service/Locks.antt =====
-- `keyedLocks` of internal/service/service.go: the locks behind `lock` and `unlock` of
-- Service/Program, one access of the shared memory at a time. Service/Interleave takes them as one
-- step each: a lock is had once nobody holds it.
mod Counts
mod Orderly
pub mod Exclusion
pub mod Tests
use tonpayment.Base.{
  ℕ, suc, Bool, true, false, Option, none, some, List, [], ◌∷◌, ◌==◌, ◌≡◌, if◌then◌else◌,
}
use tonpayment.Base.Text.{Text}
use tonpayment.Base.Dict.{Dict, lookup, insert}
use tonpayment.Service.Interleave.{Replaced}

-- A pointer to a mutex is the number of its allocation.
pub record KeyedLocks : Type 0 where
  -- `mu` is locked.
  pub busy : Bool
  -- `m`, which is nil at first
  pub table : Option (Dict ℕ)
  pub allocated : ℕ
  -- by allocation; a new mutex is not locked
  pub locked : ℕ → Bool

-- The zero value of the struct.
abbrev pub no_locks : KeyedLocks
no_locks = record { busy = false; table = none; allocated = 0; locked = λ l. false }

-- `if k.m == nil { k.m = map[string]*sync.Mutex{} }`
abbrev pub made : Option (Dict ℕ) → Dict ℕ
made none = []
made (some table) = table

-- `l.locked` is set to `b`.
abbrev pub set_locked : ℕ → Bool → (ℕ → Bool) → ℕ → Bool
set_locked l b locked j = if l == j then b else locked j

-- Where a goroutine stands, with its local variables: before the call of `lock`, before the test for
-- nil, behind the look-up, before `k.mu.Unlock()`, before `l.Lock()`, and until it calls the
-- function that `lock` returns.
pub data Pc : Type 0 where
  outside : Pc
  entered : Text → Pc
  looked : Text → Option ℕ → Pc
  chosen waiting inside : Text → ℕ → Pc

-- One step of one goroutine.
pub data Move (k : KeyedLocks) : Pc → KeyedLocks → Pc → Type 0 where
  calls : (key : Text) → k.busy ≡ false → Move k outside (record k { busy = true }) (entered key)
  looks :
      (key : Text)
      → Move k
          (entered key)
          (record k { table = some (made k.table) })
          (looked key (lookup key (made k.table)))
  finds : (key : Text) (l : ℕ) → Move k (looked key (some l)) k (chosen key l)
  makes :
      (key : Text)
      → Move k
          (looked key none)
          (record k {
            table = some (insert key k.allocated (made k.table));
            allocated = suc k.allocated;
          })
          (chosen key k.allocated)
  leaves : (key : Text) (l : ℕ) → Move k (chosen key l) (record k { busy = false }) (waiting key l)
  locks :
      (key : Text) (l : ℕ)
      → k.locked l ≡ false
      → Move k (waiting key l) (record k { locked = set_locked l true k.locked }) (inside key l)
  unlocks :
      (key : Text) (l : ℕ)
      → Move k (inside key l) (record k { locked = set_locked l false k.locked }) outside

pub record System : Type 0 where
  pub locks : KeyedLocks
  pub threads : List Pc

-- A goroutine takes a step, or a new one starts.
pub data Step : System → System → Type 0 where
  moves :
      {ts ts' : List Pc} {p p' : Pc} {k k' : KeyedLocks}
      → Replaced ts p p' ts'
      → Move k p k' p'
      → Step (record { locks = k; threads = ts }) (record { locks = k'; threads = ts' })
  spawns :
      {ts : List Pc} {k : KeyedLocks}
      → Step (record { locks = k; threads = ts }) (record { locks = k; threads = outside ∷ ts })

pub data Reach : System → Type 0 where
  begins : Reach (record { locks = no_locks; threads = [] })
  next : {s t : System} → Reach s → Step s t → Reach t

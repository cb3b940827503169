-- ===== src/Service/Locks/Exclusion.antt =====
-- One goroutine at a time has the lock of a key, and the locks of different keys are different.
use tonpayment.Base.{
  ℕ, zero, suc, ◌≤◌, ◌<◌, false, Option, none, some, List, ◌≡◌, ◌⊎◌, inl, inr, refl, ◌∙◌, ◌↔◌,
  Bool-cases, arith, if◌then◌else◌,
}
use tonpayment.Base.Text.{Text, text_eq, text_eq_iff}
use tonpayment.Base.Dict.{lookup}
use tonpayment.Service.Interleave.{Replaced}
use tonpayment.Service.Locks.{
  KeyedLocks, made, Pc, outside, entered, looked, chosen, waiting, inside, Move, looks, finds,
  makes, leaves, locks, unlocks, System, Reach,
}
use tonpayment.Service.Locks.Counts.{total, total-eq, total-zero, found, own}
use tonpayment.Service.Locks.Orderly.{holds_mu, owns, number, Knows, IsOrderly, Reach-IsOrderly}

-- 1 for a goroutine that has the lock of the key.
abbrev pub has_lock : Text → Pc → ℕ
has_lock key (inside key' l) = if text_eq key' key then 1 else 0
has_lock key outside = 0
has_lock key (entered key') = 0
has_lock key (looked key' o) = 0
has_lock key (chosen key' l) = 0
has_lock key (waiting key' l) = 0

module _ {k : KeyedLocks} {ts : List Pc} (o : IsOrderly k ts) where
  -- Whoever has the lock of the key has locked the mutex of its entry.
  held_entry :
      (key : Text) (l : ℕ)
      → lookup key (made k.table) ≡ some l
      → (p : Pc) → Knows (made k.table) p
      → has_lock key p ≡ owns l p
  held_entry key l h (inside j i) known =
      ground (arith, text_eq_iff j key, o.distinct j key l, h, known)
  held_entry key l h outside known = refl
  held_entry key l h (entered j) known = refl
  held_entry key l h (looked j a) known = refl
  held_entry key l h (chosen j i) known = refl
  held_entry key l h (waiting j i) known = refl

  unheld :
      (key : Text)
      → lookup key (made k.table) ≡ none
      → (p : Pc) → Knows (made k.table) p
      → has_lock key p ≡ 0
  unheld key h (inside j i) known = ground (arith, text_eq_iff j key, h, known)
  unheld key h outside known = refl
  unheld key h (entered j) known = refl
  unheld key h (looked j a) known = refl
  unheld key h (chosen j i) known = refl
  unheld key h (waiting j i) known = refl

  -- The goroutines that have the lock of a key with an entry.
  holders :
      (key : Text) (l : ℕ)
      → lookup key (made k.table) ≡ some l
      → total (has_lock key) ts ≡ number (k.locked l)
  holders key l h =
      total-eq (Knows (made k.table)) (has_lock key) (owns l) ts (held_entry key l h) o.known
      ∙ o.owners l

  one_holder :
      (key : Text) (a : Option ℕ) → lookup key (made k.table) ≡ a → total (has_lock key) ts ≤ 1
  one_holder key none h = omega (
    arith,
    total-eq (Knows (made k.table)) (has_lock key) (λ p. 0) ts (unheld key h) o.known,
    total-zero ts,
  )
  one_holder key (some l) h = ground (arith, holders key l h)

-- 1 for a goroutine that has called `lock` and not yet unlocked.
abbrev pub at_work : Pc → ℕ
at_work outside = 0
at_work (entered key) = 1
at_work (looked key o) = 1
at_work (chosen key l) = 1
at_work (waiting key l) = 1
at_work (inside key l) = 1

-- A goroutine that is at work takes a step.
abbrev pub GoesOn : System → Type 0
GoesOn s =
    (p : Pc) × (p' : Pc) × (k' : KeyedLocks) × (ts' : List Pc) × (at_work p ≡ 1)
    × Replaced s.threads p p' ts'
    × Move s.locks p k' p'

module _ (s : System) where
  -- A holder of `mu`, or of a mutex, can go on.
  holder_goes :
      (p : Pc)
      → ((p' : Pc) → (ts' : List Pc) × Replaced s.threads p p' ts')
      → 0 < holds_mu p
      → GoesOn s
  holder_goes (entered key) r h = (_, _, _, (r _).0, refl, (r _).1, looks key)
  holder_goes (looked key (some l)) r h = (_, _, _, (r _).0, refl, (r _).1, finds key l)
  holder_goes (looked key none) r h = (_, _, _, (r _).0, refl, (r _).1, makes key)
  holder_goes (chosen key l) r h = (_, _, _, (r _).0, refl, (r _).1, leaves key l)
  holder_goes outside r h = absurd (omega (arith, h))
  holder_goes (waiting key l) r h = absurd (omega (arith, h))
  holder_goes (inside key l) r h = absurd (omega (arith, h))

  owner_goes :
      (l : ℕ) (p : Pc)
      → ((p' : Pc) → (ts' : List Pc) × Replaced s.threads p p' ts')
      → 0 < owns l p
      → GoesOn s
  owner_goes l (inside key i) r h = (_, _, _, (r _).0, refl, (r _).1, unlocks key i)
  owner_goes l outside r h = absurd (omega (arith, h))
  owner_goes l (entered key) r h = absurd (omega (arith, h))
  owner_goes l (looked key o) r h = absurd (omega (arith, h))
  owner_goes l (chosen key i) r h = absurd (omega (arith, h))
  owner_goes l (waiting key i) r h = absurd (omega (arith, h))

  waiting_goes :
      (o : IsOrderly s.locks s.threads) (key : Text) (l : ℕ)
      → ((p' : Pc) → (ts' : List Pc) × Replaced s.threads (waiting key l) p' ts')
      → GoesOn s
  waiting_goes o key l r = elim (Bool-cases (s.locks.locked l)) [
    | inl busy ↦
        let (p, pos, rep) = found (owns l) s.threads (ground (arith, o.owners l, busy)) in
        owner_goes l p rep pos
    | inr free ↦ (_, _, _, (r _).0, refl, (r _).1, locks key l free)
  ]

  worker_goes :
      (o : IsOrderly s.locks s.threads) (p : Pc)
      → ((p' : Pc) → (ts' : List Pc) × Replaced s.threads p p' ts')
      → 0 < at_work p
      → GoesOn s
  worker_goes o outside r h = absurd (omega (arith, h))
  worker_goes o (entered key) r h = holder_goes (entered key) r (omega arith)
  worker_goes o (looked key a) r h = holder_goes (looked key a) r (omega arith)
  worker_goes o (chosen key l) r h = holder_goes (chosen key l) r (omega arith)
  worker_goes o (waiting key l) r h = waiting_goes o key l r
  worker_goes o (inside key l) r h = (_, _, _, (r _).0, refl, (r _).1, unlocks key l)

  goes_on :
      (o : IsOrderly s.locks s.threads) (n : ℕ)
      → total at_work s.threads ≡ n
      → (total at_work s.threads ≡ 0) ⊎ GoesOn s
  goes_on o zero e = inl e
  goes_on o (suc n) e =
      let (p, pos, rep) = found at_work s.threads (omega (arith, e)) in
      inr (worker_goes o p rep pos)

-- What the locks of the service are for.
pub record IsExclusive (s : System) : Type 0 where
  pub one_inside : (key : Text) → total (has_lock key) s.threads ≤ 1
  pub opens :
      (key : Text) (l : ℕ) (p' : Pc) (ts' : List Pc)
      → Replaced s.threads (waiting key l) p' ts'
      → (s.locks.locked l ≡ false) ↔ (total (has_lock key) s.threads ≡ 0)
  pub goes : (total at_work s.threads ≡ 0) ⊎ GoesOn s

-- However the goroutines that lock and unlock interleave, the making of the table and of its mutexes
-- included: at most one has the lock of a key; one that waits for the lock of a key can have it exactly
-- when no goroutine has the lock of that key, whatever other keys are locked; and unless no call is
-- under way, some goroutine with a call under way can take a step.
pub Reach-IsExclusive : {s : System} → Reach s → IsExclusive s
Reach-IsExclusive {s} r =
    let o = Reach-IsOrderly r in
    record {
      one_inside = λ key. one_holder o key (lookup key (made s.locks.table)) refl;
      opens = λ key l p' ts' at.
          let e = holders o key l (own (Knows (made s.locks.table)) at o.known) in
          (λ free. ground (arith, e, free), λ nobody. ground (arith, e, nobody));
      goes = goes_on s o (total at_work s.threads) refl;
    }

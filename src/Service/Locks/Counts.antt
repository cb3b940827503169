-- ===== src/Service/Locks/Counts.antt =====
-- How many goroutines count, as they move one at a time.
use tonpayment.Base.{ℕ, zero, suc, ◌+◌, ◌≤◌, ◌<◌, List, [], ◌∷◌, ◌≡◌, refl, All, arith}
use tonpayment.Service.Interleave.{Replaced, here, there}
use tonpayment.Service.Locks.{Pc}

abbrev pub total : (Pc → ℕ) → List Pc → ℕ
total f [] = 0
total f (p ∷ ts) = f p + total f ts

pub total-Replaced :
    {ts ts' : List Pc} {p p' : Pc} (f : Pc → ℕ)
    → Replaced ts p p' ts'
    → total f ts' + f p ≡ total f ts + f p'
total-Replaced f here = omega arith
total-Replaced f (there r) = omega (arith, total-Replaced f r)

pub total-eq :
    (P : Pc → Type 0) (f g : Pc → ℕ) (ts : List Pc)
    → ((p : Pc) → P p → f p ≡ g p)
    → All P ts
    → total f ts ≡ total g ts
total-eq P f g [] h a = refl
total-eq P f g (p ∷ ts) h a = omega (arith, h p a.0, total-eq P f g ts h a.1)

pub total-zero : (ts : List Pc) → total (λ p. 0) ts ≡ 0
total-zero [] = refl
total-zero (p ∷ ts) = omega (arith, total-zero ts)

-- Some goroutine counts, and it can be replaced.
pub found :
    (f : Pc → ℕ) (ts : List Pc)
    → 0 < total f ts
    → (p : Pc) × (0 < f p) × ((p' : Pc) → (ts' : List Pc) × Replaced ts p p' ts')
found f [] h = absurd (omega (arith, h))
found f (p ∷ ts) h = split (f p) refl (λ h'. found f ts h')
  where
    split :
        (n : ℕ)
        → f p ≡ n
        → (0 < total f ts
            → (q : Pc) × (0 < f q) × ((p' : Pc) → (ts' : List Pc) × Replaced ts q p' ts'))
        → (q : Pc) × (0 < f q) × ((p' : Pc) → (ts' : List Pc) × Replaced (p ∷ ts) q p' ts')
    split (suc n) e rest = (p, omega (arith, e), λ p'. (p' ∷ ts, here))
    split zero e rest =
        let (q, pos, rep) = rest (omega (arith, e, h)) in
        (q, pos, λ p'. let (ts', r) = rep p' in (p ∷ ts', there r))

pub own : {ts ts' : List Pc} {p p' : Pc} (P : Pc → Type 0) → Replaced ts p p' ts' → All P ts → P p
own P here a = a.0
own P (there r) a = own P r a.1

pub own_total :
    {ts ts' : List Pc} {p p' : Pc} (f : Pc → ℕ) → Replaced ts p p' ts' → f p ≤ total f ts
own_total f here = omega arith
own_total f (there r) = omega (arith, own_total f r)

pub All-Replaced :
    {ts ts' : List Pc} {p p' : Pc} (P : Pc → Type 0)
    → Replaced ts p p' ts'
    → All P ts
    → P p'
    → All P ts'
All-Replaced P here a h = (h, a.1)
All-Replaced P (there r) a h = (a.0, All-Replaced P r a.1 h)

module _ (f : Pc → ℕ) (P Q : Pc → Type 0) (keeps : (p : Pc) → f p ≡ 0 → P p → Q p) where
  All-quiet : (ts : List Pc) → total f ts ≡ 0 → All P ts → All Q ts
  All-quiet [] h a = tt
  All-quiet (p ∷ ts) h a = (keeps p (omega (arith, h)) a.0, All-quiet ts (omega (arith, h)) a.1)

  -- Only the goroutine that moves counts, so the others keep what they know.
  pub All-others :
      {ts ts' : List Pc} {p p' : Pc}
      → Replaced ts p p' ts'
      → total f ts ≤ f p
      → All P ts
      → Q p'
      → All Q ts'
  All-others (here {l = l}) h a q = (q, All-quiet l (omega (arith, h)) a.1)
  All-others (there {c = c} {l = l} r) h a q =
      (keeps c (omega (arith, h, own_total f r)) a.0, All-others r (omega (arith, h)) a.1 q)

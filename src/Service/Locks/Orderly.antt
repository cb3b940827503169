-- ===== src/Service/Locks/Orderly.antt =====
-- The invariant of the locks: `mu` guards the table, and a mutex has as many owners as it is locked.
use tonpayment.Base.{
  ℕ, suc, ◌<◌, Bool, none, some, List, ◌==◌, ◌≡◌, refl, All, arith, if◌then◌else◌,
}
use tonpayment.Base.Text.{Text, text_eq_iff}
use tonpayment.Base.Dict.{Dict, lookup, insert, lookup-insert, lookup-insert_self}
use tonpayment.Service.Interleave.{Replaced}
use tonpayment.Service.Locks.{
  KeyedLocks, made, Pc, outside, entered, looked, chosen, waiting, inside, Move, calls, looks,
  finds, makes, leaves, locks, unlocks, System, moves, spawns, Reach, begins, next,
}
use tonpayment.Service.Locks.Counts.{
  total, total-Replaced, own, own_total, All-Replaced, All-others,
}

-- 1 for a goroutine that holds `mu`.
abbrev pub holds_mu : Pc → ℕ
holds_mu outside = 0
holds_mu (entered key) = 1
holds_mu (looked key o) = 1
holds_mu (chosen key l) = 1
holds_mu (waiting key l) = 0
holds_mu (inside key l) = 0

-- 1 for a goroutine that has locked the mutex `l`.
abbrev pub owns : ℕ → Pc → ℕ
owns l (inside key l') = if l' == l then 1 else 0
owns l outside = 0
owns l (entered key) = 0
owns l (looked key o) = 0
owns l (chosen key l') = 0
owns l (waiting key l') = 0

abbrev pub number : Bool → ℕ
number b = if b then 1 else 0

-- What the local variables of a goroutine say of the table.
abbrev pub Knows : Dict ℕ → Pc → Type 0
Knows m outside = Unit
Knows m (entered key) = Unit
Knows m (looked key o) = lookup key m ≡ o
Knows m (chosen key l) = lookup key m ≡ some l
Knows m (waiting key l) = lookup key m ≡ some l
Knows m (inside key l) = lookup key m ≡ some l

pub record IsOrderly (k : KeyedLocks) (ts : List Pc) : Type 0 where
  pub in_section : total holds_mu ts ≡ number k.busy
  pub owners : (l : ℕ) → total (owns l) ts ≡ number (k.locked l)
  pub known : All (Knows (made k.table)) ts
  pub distinct :
      (i j : Text) (l : ℕ)
      → lookup i (made k.table) ≡ some l
      → lookup j (made k.table) ≡ some l
      → i ≡ j
  pub below : (i : Text) (l : ℕ) → lookup i (made k.table) ≡ some l → l < k.allocated

-- A new entry of the table leaves the others as they are.
Knows-insert :
    (m : Dict ℕ) (key : Text) (l : ℕ)
    → lookup key m ≡ none
    → (p : Pc) → holds_mu p ≡ 0
    → Knows m p
    → Knows (insert key l m) p
Knows-insert m key l h outside z k = tt
Knows-insert m key l h (entered j) z k = tt
Knows-insert m key l h (looked j o) z k = absurd (omega (arith, z))
Knows-insert m key l h (chosen j i) z k = absurd (omega (arith, z))
Knows-insert m key l h (waiting j i) z k =
    ground (arith, lookup-insert key j l m, text_eq_iff key j)
Knows-insert m key l h (inside j i) z k = ground (arith, lookup-insert key j l m, text_eq_iff key j)

module _ (m : Dict ℕ) (key : Text) (l : ℕ)
    (bound : (i : Text) (j : ℕ) → lookup i m ≡ some j → j < l) where
  insert-below : (i : Text) (j : ℕ) → lookup i (insert key l m) ≡ some j → j < suc l
  insert-below i j h = ground (arith, lookup-insert key i l m, bound i j, h)

  insert-distinct :
      ((i j : Text) (n : ℕ) → lookup i m ≡ some n → lookup j m ≡ some n → i ≡ j)
      → (i j : Text) (n : ℕ) → lookup i (insert key l m) ≡ some n
      → lookup j (insert key l m) ≡ some n
      → i ≡ j
  insert-distinct one i j n hi hj = ground (
    arith,
    lookup-insert key i l m,
    lookup-insert key j l m,
    text_eq_iff key i,
    text_eq_iff key j,
    bound i n,
    bound j n,
    one i j n,
  )

Move-IsOrderly :
    {k k' : KeyedLocks} {ts ts' : List Pc} {p p' : Pc}
    → Replaced ts p p' ts'
    → Move k p k' p'
    → IsOrderly k ts
    → IsOrderly k' ts'
Move-IsOrderly r (calls key free) o = record {
  in_section = ground (arith, total-Replaced holds_mu r, o.in_section);
  owners = λ l. omega (arith, total-Replaced (owns l) r, o.owners l);
  known = All-Replaced _ r o.known tt;
  distinct = o.distinct;
  below = o.below;
}
Move-IsOrderly r (looks key) o = record {
  in_section = omega (arith, total-Replaced holds_mu r, o.in_section);
  owners = λ l. omega (arith, total-Replaced (owns l) r, o.owners l);
  known = All-Replaced _ r o.known refl;
  distinct = o.distinct;
  below = o.below;
}
Move-IsOrderly r (finds key l) o = record {
  in_section = omega (arith, total-Replaced holds_mu r, o.in_section);
  owners = λ l. omega (arith, total-Replaced (owns l) r, o.owners l);
  known = All-Replaced _ r o.known (own _ r o.known);
  distinct = o.distinct;
  below = o.below;
}
Move-IsOrderly {k} r (makes key) o = record {
  in_section = omega (arith, total-Replaced holds_mu r, o.in_section);
  owners = λ l. omega (arith, total-Replaced (owns l) r, o.owners l);
  known =
      All-others holds_mu _ _ (Knows-insert _ key _ (own _ r o.known)) r
        (ground (arith, o.in_section)) o.known (lookup-insert_self _ _ _);
  distinct = insert-distinct _ key _ o.below o.distinct;
  below = insert-below _ key _ o.below;
}
Move-IsOrderly r (leaves key l) o = record {
  in_section = ground (arith, total-Replaced holds_mu r, own_total holds_mu r, o.in_section);
  owners = λ l. omega (arith, total-Replaced (owns l) r, o.owners l);
  known = All-Replaced _ r o.known (own _ r o.known);
  distinct = o.distinct;
  below = o.below;
}
Move-IsOrderly r (locks key l free) o = record {
  in_section = omega (arith, total-Replaced holds_mu r, o.in_section);
  owners = λ j. ground (arith, total-Replaced (owns j) r, o.owners j);
  known = All-Replaced _ r o.known (own _ r o.known);
  distinct = o.distinct;
  below = o.below;
}
Move-IsOrderly r (unlocks key l) o = record {
  in_section = omega (arith, total-Replaced holds_mu r, o.in_section);
  owners = λ j. ground (arith, total-Replaced (owns j) r, own_total (owns j) r, o.owners j);
  known = All-Replaced _ r o.known tt;
  distinct = o.distinct;
  below = o.below;
}

none-ne-some : {l : ℕ} → ¬ (none ≡ some l)
none-ne-some h = ground (arith, h)

pub Reach-IsOrderly : {s : System} → Reach s → IsOrderly s.locks s.threads
unfolding lookup
Reach-IsOrderly begins = record {
  in_section = refl;
  owners = λ l. refl;
  known = tt;
  distinct = λ i j l h h'. absurd (none-ne-some h);
  below = λ i l h. absurd (none-ne-some h);
}
Reach-IsOrderly (next r (moves at m)) = Move-IsOrderly at m (Reach-IsOrderly r)
Reach-IsOrderly (next r spawns) =
    let o = Reach-IsOrderly r in
    record {
      in_section = omega (arith, o.in_section);
      owners = λ l. omega (arith, o.owners l);
      known = (tt, o.known);
      distinct = o.distinct;
      below = o.below;
    }

-- ===== src/Base/Sort.antt =====
-- `sort.Slice`: the elements in the order of `less`; ties keep their places.
use Prim.Native.Nat.{ℕ, ◌+◌}
use mathlib.Core.Path.{◌≡◌, refl}
use mathlib.Core.Bool.{Bool, true, false}
use mathlib.Core.List.{List, [], ◌∷◌, Perm}
use mathlib.Core.List.Perm
use native.Mathlib.Omega.{arith}
use tonpayment.Base.Tests.{if◌then◌else◌, Bool-cases}
use mathlib.Core.Logic.{inl, inr}

-- How many elements of a list pass a test.
abbrev pub count_by {ℓ} : {A : Type ℓ} → (A → Bool) → List A → ℕ
count_by test [] = 0
count_by test (x ∷ xs) = (if test x then 1 else 0) + count_by test xs

module _ {ℓ} {A : Type ℓ} (less : A → A → Bool) where
  insert_by : A → List A → List A
  insert_by x [] = x ∷ []
  insert_by x (y ∷ ys) = if less y x then y ∷ insert_by x ys else x ∷ y ∷ ys

  unfoldable pub sort_by : List A → List A
  unfolding insert_by
  sort_by [] = []
  sort_by (x ∷ xs) = insert_by x (sort_by xs)

  insert_by-perm : (x : A) (ys : List A) → Perm (insert_by x ys) (x ∷ ys)
  unfolding insert_by
  insert_by-perm x [] = Perm.refl (x ∷ [])
  insert_by-perm x (y ∷ ys) = elim (Bool-cases (less y x)) [
    | inl e ↦ rw e (Perm.trans (Perm.cons y (insert_by-perm x ys)) (Perm.swap x y ys))
    | inr e ↦ rw e (Perm.refl (x ∷ y ∷ ys))
  ]

  pub sort_by-perm : (xs : List A) → Perm (sort_by xs) xs
  unfolding sort_by
  sort_by-perm [] = Perm.refl []
  sort_by-perm (x ∷ xs) = Perm.trans (insert_by-perm x (sort_by xs)) (Perm.cons x (sort_by-perm xs))

  count_by-insert_by :
      (test : A → Bool) (x : A) (ys : List A)
      → count_by test (insert_by x ys) ≡ count_by test (x ∷ ys)
  unfolding insert_by
  count_by-insert_by test x [] = refl
  count_by-insert_by test x (y ∷ ys) = elim (Bool-cases (less y x)) [
    | inl e ↦ rw e (omega (arith, count_by-insert_by test x ys))
    | inr e ↦ rw e refl
  ]

  pub count_by-sort_by :
      (test : A → Bool) (xs : List A) → count_by test (sort_by xs) ≡ count_by test xs
  unfolding sort_by
  count_by-sort_by test [] = refl
  count_by-sort_by test (x ∷ xs) =
      omega (arith, count_by-insert_by test x (sort_by xs), count_by-sort_by test xs)

  -- No element is less than the one before it.
  abbrev pub NotLess : A → List A → Type 0
  NotLess x [] = Unit
  NotLess x (y ∷ ys) = less y x ≡ false

  abbrev pub IsSorted : List A → Type 0
  IsSorted [] = Unit
  IsSorted (x ∷ xs) = NotLess x xs × IsSorted xs

  module _ (asym : (x y : A) → less x y ≡ true → less y x ≡ false) where
    NotLess-insert_by :
        (y x : A) (ys : List A) → less y x ≡ true → NotLess y ys → NotLess y (insert_by x ys)
    unfolding insert_by
    NotLess-insert_by y x [] h n = asym y x h
    NotLess-insert_by y x (z ∷ zs) h n = ground (arith, asym y x)

    insert_by-IsSorted : (x : A) (ys : List A) → IsSorted ys → IsSorted (insert_by x ys)
    unfolding insert_by
    insert_by-IsSorted x [] s = (tt, tt)
    insert_by-IsSorted x (y ∷ ys) s = elim (Bool-cases (less y x)) [
      | inl e ↦ rw e (NotLess-insert_by y x ys e s.0, insert_by-IsSorted x ys s.1)
      | inr e ↦ rw e (e, s)
    ]

    pub sort_by-IsSorted : (xs : List A) → IsSorted (sort_by xs)
    unfolding sort_by
    sort_by-IsSorted [] = tt
    sort_by-IsSorted (x ∷ xs) = insert_by-IsSorted x (sort_by xs) (sort_by-IsSorted xs)

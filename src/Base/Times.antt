-- ===== src/Base/Times.antt =====
-- How often a text stands in a list, and lists with an element taken out of the middle.
use Prim.Native.Nat.{ℕ, suc}
use mathlib.Core.Path.{◌≡◌}
use mathlib.Core.List.{List, [], ◌∷◌, ◌++◌}
use native.Mathlib.Omega.{arith}
use tonpayment.Base.Lists.{length}
use tonpayment.Base.Text.{Text, text_eq}
use tonpayment.Base.Sort.{count_by}

abbrev pub times : Text → List Text → ℕ
times id ids = count_by (λ j. text_eq j id) ids

pub times_middle :
    (id j : Text) (before behind : List Text)
    → times id (before ++ j ∷ behind) ≡ times id (j ∷ before ++ behind)
times_middle id j [] behind = omega arith
times_middle id j (x ∷ before) behind = omega (arith, times_middle id j before behind)

pub length_middle {ℓ} :
    {A : Type ℓ} (j : A) (before behind : List A)
    → length (before ++ j ∷ behind) ≡ suc (length (before ++ behind))
length_middle j [] behind = omega arith
length_middle j (x ∷ before) behind = omega (arith, length_middle j before behind)

-- ===== src/Prelude/Sort.antt =====
-- `slice::sort_by`: a stable sort by a comparison.
use Prim.Native.Nat.{Ordering}
use mathlib.Core.Path.{◌≡◌}
use mathlib.Core.Logic.{◌⊎◌, inr, ◌↔◌}
use mathlib.Core.List.{List, [], ◌∷◌}
use native.Mathlib.Omega.{arith}
use luchta.Prelude.Lists.{In, Distinct}

-- Lexicographic comparison.
abbrev pub then_with : Ordering → Ordering → Ordering
then_with Ordering.eq r = r
then_with o r = o

module _ {A : Type 0} (cmp : A → A → Ordering) where
  -- `x` goes before the first element that is not smaller.
  unfoldable pub insert_by : A → List A → List A
  insert_by x [] = x ∷ []
  insert_by x (y ∷ ys) = elim (cmp x y) [ Ordering.gt ↦ y ∷ insert_by x ys | _ ↦ x ∷ y ∷ ys ]

  unfoldable pub sort_by : List A → List A
  unfolding insert_by
  sort_by [] = []
  sort_by (x ∷ xs) = insert_by x (sort_by xs)

  In-insert_by : (a x : A) (ys : List A) → In a (insert_by x ys) ↔ ((a ≡ x) ⊎ In a ys)
  unfolding insert_by
  In-insert_by a x [] = (λ m. m, λ m. m)
  In-insert_by a x (y ∷ ys) = ground (arith, In-insert_by a x ys)

  pub In-sort_by : (a : A) (xs : List A) → In a (sort_by xs) ↔ In a xs
  unfolding sort_by
  In-sort_by a [] = (λ m. m, λ m. m)
  In-sort_by a (x ∷ xs) = ground (arith, In-insert_by a x (sort_by xs), In-sort_by a xs)

  insert_by-Distinct : (x : A) (ys : List A) → ¬ In x ys → Distinct ys → Distinct (insert_by x ys)
  unfolding insert_by
  insert_by-Distinct x [] n d = (n, tt)
  insert_by-Distinct x (y ∷ ys) n d =
      ground (arith, In-insert_by y x ys, insert_by-Distinct x ys (λ m. n (inr m)))

  pub sort_by-Distinct : (xs : List A) → Distinct xs → Distinct (sort_by xs)
  unfolding sort_by
  sort_by-Distinct [] d = tt
  sort_by-Distinct (x ∷ xs) d =
      insert_by-Distinct x (sort_by xs) (λ m. d.0 ((In-sort_by x xs).0 m)) (sort_by-Distinct xs d.1)

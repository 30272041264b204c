-- ===== src/PackageGraph/Sets.antt =====
-- The sets that the package graph and the pipeline fill
-- (crates/luchta-workspace/src/package_graph.rs).
use luchta.Prelude.{
  ◌≡◌, ◌↔◌, ◌⊎◌, inl, inr, sym, subst, arith, List, [], ◌∷◌, PartialEq, contains, contains-In, In,
  In-append, Bool-cases,
}
use luchta.PackageGraph.{set_insert, set_extend}

module _ {A : Type 0} ⦃e : PartialEq A⦄ where
  pub In-set_insert : (a : A) (xs : List A) (x : A) → In a (set_insert xs x) ↔ (In a xs ⊎ (a ≡ x))
  In-set_insert a xs x = elim (Bool-cases (contains xs x)) [
    | inl there ↦ rw there (
      inl,
      λ i. elim i [ inl k ↦ k | inr q ↦ subst (λ y. In y xs) (sym q) (contains-In x xs there) ],
    )
    | inr new ↦ rw new (ground (arith, In-append a xs (x ∷ [])))
  ]

  pub In-set_extend : (a : A) (xs ys : List A) → In a (set_extend xs ys) ↔ (In a xs ⊎ In a ys)
  In-set_extend a xs [] = (inl, λ i. elim i [ inl k ↦ k | inr n ↦ absurd n ])
  In-set_extend a xs (y ∷ ys) =
      ground (arith, In-set_extend a (set_insert xs y) ys, In-set_insert a xs y)

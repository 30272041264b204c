-- ===== src/PackageGraph/Search/Work.antt =====
-- The work of a search: each element is put on the list at most once
-- (crates/luchta-workspace/src/package_graph.rs).
use luchta.Prelude.{
  ℕ, suc, ◌+◌, ◌≤◌, ◌≡◌, refl, ap, ◌∙◌, subst, false, inl, inr, List, [], ◌∷◌, Result, PartialEq,
  ◌==◌, eq_of_beq, beq_of_eq, arith, contains, In, Distinct, length, Bool-cases, if◌then◌else◌,
}
use luchta.PackageGraph.Search.{Search, offer, offer_all}

module _ {A : Type 0} ⦃e : PartialEq A⦄ where
  -- How many elements of the list are not visited.
  abbrev pub unseen : (visited : List A) → List A → ℕ
  unseen visited [] = 0
  unseen visited (u ∷ us) =
      if contains visited u then unseen visited us else suc (unseen visited us)

  pub unseen_le_length : (visited us : List A) → unseen visited us ≤ length us
  unseen_le_length visited [] = omega arith
  unseen_le_length visited (u ∷ us) = ground (arith, unseen_le_length visited us)

  unseen-other :
      (x : A) (visited us : List A) → (¬ In x us) → unseen (x ∷ visited) us ≡ unseen visited us
  unseen-other x visited [] n = refl
  unseen-other x visited (u ∷ us) n = elim (Bool-cases (x == u)) [
    | inl same ↦ absurd (n (inl (eq_of_beq x u same)))
    | inr other ↦ rw other (ground (arith, unseen-other x visited us (λ i. n (inr i))))
  ]

  pub unseen-visit :
      (x : A) (visited us : List A)
      → Distinct us
      → In x us
      → contains visited x ≡ false
      → suc (unseen (x ∷ visited) us) ≡ unseen visited us
  unseen-visit x visited [] d i new = absurd i
  unseen-visit x visited (u ∷ us) d (inl q) new =
      let n : ¬ In x us = λ i. d.0 (subst (λ z. In z us) q i) in
      rw (beq_of_eq x u q, subst (λ z. contains visited z ≡ false) q new)
        (ap suc (unseen-other x visited us n))
  unseen-visit x visited (u ∷ us) d (inr i) new = elim (Bool-cases (x == u)) [
    | inl same ↦ absurd (d.0 (subst (λ z. In z us) (eq_of_beq x u same) i))
    | inr other ↦ rw other (ground (arith, unseen-visit x visited us d.1 i new))
  ]

module _ {A E : Type 0} ⦃e : PartialEq A⦄ (push : List A → A → List A)
    (next : A → Result (List A) E)
    (grows : (x : A) (pending : List A) → length (push pending x) ≡ suc (length pending))
    (us : List A) (distinct : Distinct us) where
  -- Elements to visit, and elements on the list.
  abbrev pub work : Search A → ℕ
  work s = unseen s.visited us + length s.pending

  work-offer : (s : Search A) (x : A) → In x us → work (offer push next s x) ≡ work s
  unfolding offer
  work-offer s x i = elim (Bool-cases (contains s.visited x)) [
    | inl old ↦ rw old refl
    | inr new ↦
        rw new (omega (arith, grows x s.pending, unseen-visit x s.visited us distinct i new))
  ]

  pub work-offer_all :
      (s : Search A) (xs : List A)
      → ((x : A) → In x xs → In x us)
      → work (offer_all push next s xs) ≡ work s
  unfolding offer_all
  work-offer_all s [] h = refl
  work-offer_all s (x ∷ xs) h =
      work-offer_all (offer push next s x) xs (λ y i. h y (inr i)) ∙ work-offer s x (h x (inl refl))

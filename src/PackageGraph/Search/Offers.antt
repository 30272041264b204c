-- ===== src/PackageGraph/Search/Offers.antt =====
-- What a step of a search marks and lists (crates/luchta-workspace/src/package_graph.rs and
-- crates/luchta-engine/src/task_graph.rs).
use luchta.Prelude.{
  ◌≡◌, refl, sym, subst, false, inl, inr, ◌⊎◌, ◌↔◌, Result, ok, List, [], ◌∷◌, PartialEq, contains,
  contains-In, In, Bool-cases,
}
use luchta.PackageGraph.Search.{Search, offer, offer_all}
use luchta.PackageGraph.Search.Chain.{IsPush}

-- One step of what is searched.
abbrev pub Next : {A E : Type 0} → (A → Result (List A) E) → A → A → Type 0
Next {A} next a b = (found : List A) × (next a ≡ ok found) × In b found

module _ {A E : Type 0} ⦃e : PartialEq A⦄ (push : List A → A → List A)
    (next : A → Result (List A) E) (laws : IsPush push) where
  In-offer :
      (s : Search A) (x y : A)
      → (In y (offer push next s x).visited ↔ ((y ≡ x) ⊎ In y s.visited))
        × (In y (offer push next s x).pending
            ↔ (In y s.pending ⊎ ((y ≡ x) × (contains s.visited x ≡ false))))
  unfolding offer
  In-offer s x y = elim (Bool-cases (contains s.visited x)) [
    | inl old ↦
        let i = contains-In x s.visited old in
        rw old (
          (inr, λ j. elim j [ inl q ↦ subst (λ z. In z s.visited) (sym q) i | inr k ↦ k ]),
          (inl, λ j. elim j [ inl k ↦ k | inr (q, c) ↦ cc ]),
        )
    | inr new ↦ rw new (
      (λ j. j, λ j. j),
      (
        λ j. elim ((laws.holds y x s.pending).0 j) [ inl q ↦ inr (q, refl) | inr k ↦ inl k ],
        λ j. (laws.holds y x s.pending).1 (elim j [ inl k ↦ inr k | inr (q, c) ↦ inl q ]),
      ),
    )
  ]

  pub In-offer_all :
      (s : Search A) (xs : List A) (y : A)
      → (In y (offer_all push next s xs).visited ↔ (In y xs ⊎ In y s.visited))
        × (In y s.pending → In y (offer_all push next s xs).pending)
        × (In y (offer_all push next s xs).pending → In y s.pending ⊎ In y xs)
        × (In y xs → In y s.visited ⊎ In y (offer_all push next s xs).pending)
  unfolding offer_all
  In-offer_all s [] y =
      ((inr, λ i. elim i [ inl a ↦ absurd a | inr k ↦ k ]), λ i. i, inl, λ i. absurd i)
  In-offer_all s (x ∷ xs) y =
      let (one_visited, one_pending) = In-offer s x y in
      let (visited, kept, only, listed) = In-offer_all (offer push next s x) xs y in
      (
        (
          λ i. elim (visited.0 i) [
            | inl later ↦ inl (inr later)
            | inr k ↦ elim (one_visited.0 k) [ inl q ↦ inl (inl q) | inr old ↦ inr old ]
          ],
          λ i. elim i [
            | inl (inl q) ↦ visited.1 (inr (one_visited.1 (inl q)))
            | inl (inr later) ↦ visited.1 (inl later)
            | inr old ↦ visited.1 (inr (one_visited.1 (inr old)))
          ],
        ),
        λ i. kept (one_pending.1 (inl i)),
        λ i. elim (only i) [
          | inl k ↦ elim (one_pending.0 k) [ inl old ↦ inl old | inr (q, c) ↦ inr (inl q) ]
          | inr later ↦ inr (inr later)
        ],
        λ i. elim i [
          | inl q ↦ elim (Bool-cases (contains s.visited x)) [
            | inl old ↦ inl (subst (λ z. In z s.visited) (sym q) (contains-In x s.visited old))
            | inr new ↦ inr (kept (one_pending.1 (inr (q, new))))
          ]
          | inr later ↦ elim (listed later) [
            | inl k ↦ elim (one_visited.0 k) [
              | inr old ↦ inl old
              | inl q ↦ elim (Bool-cases (contains s.visited x)) [
                | inl old ↦ inl (subst (λ z. In z s.visited) (sym q) (contains-In x s.visited old))
                | inr new ↦ inr (kept (one_pending.1 (inr (q, new))))
              ]
            ]
            | inr k ↦ inr k
          ]
        ],
      )

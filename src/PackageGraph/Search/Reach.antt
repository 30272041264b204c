-- ===== src/PackageGraph/Search/Reach.antt =====
-- A search returns what can be reached (`PackageGraph::transitive_neighbors` of
-- crates/luchta-workspace/src/package_graph.rs and `transitive_upstream_packages` of
-- crates/luchta-engine/src/task_graph.rs).
use luchta.Prelude.{
  ℕ, zero, suc, ◌≤◌, ◌≡◌, refl, sym, subst, ◌∙◌, ap, inl, inr, ◌⊎◌, ◌↔◌, Result, ok, List, [], ◌∷◌,
  PartialEq, arith, List-cases, ok-injective, In, Distinct, length,
}
use luchta.PackageGraph.Search.Work.{work, work-offer_all, unseen_le_length}
use luchta.PackageGraph.Search.{Search, offer_all, explore}
use luchta.PackageGraph.Search.Chain.{Chain, Chain-append, IsPush, link, stop}
use luchta.PackageGraph.Search.Offers.{Next, In-offer_all}

module _ {A E : Type 0} ⦃e : PartialEq A⦄ (push : List A → A → List A)
    (next : A → Result (List A) E) (laws : IsPush push) (us : List A) (distinct : Distinct us)
    (closed : (a : A)
      → In a us
      → (found : List A) × (next a ≡ ok found) × ((b : A) → In b found → In b us)) where
  -- What is off the list has its neighbours visited.
  pub record IsSearch (s : Search A) : Type 0 where
    pub within : (a : A) → In a s.visited → In a us
    pub marked : (a : A) → In a s.pending → In a s.visited
    pub settled :
        (a : A) → In a s.visited → In a s.pending ⊎ ((b : A) → Next next a b → In b s.visited)

  module _ (s : Search A) (x : A) (rest found : List A) (p : s.pending ≡ x ∷ rest)
      (n : next x ≡ ok found) (v : IsSearch s) where
    abbrev stepped : Search A
    stepped = offer_all push next (record s { pending = rest }) found

    settled_before :
        (a : A)
        → In a s.visited
        → In a stepped.pending ⊎ ((b : A) → Next next a b → In b stepped.visited)
    settled_before a k = elim (v.settled a k) [
      | inr done ↦ inr (λ b t.
          (In-offer_all push next laws (record s { pending = rest }) found b).0.1 (inr (done b t)))
      | inl waiting ↦ elim (subst (λ l. In a l) p waiting) [
        | inr r ↦ inl ((In-offer_all push next laws (record s { pending = rest }) found a).1 r)
        | inl q ↦ inr (λ b (found', m, j).
            let same = ok-injective found found' (sym n ∙ (ap next (sym q) ∙ m)) in
            (In-offer_all push next laws (record s { pending = rest }) found b).0.1
              (inl (subst (λ l. In b l) (sym same) j)))
      ]
    ]

    step-IsSearch : ((b : A) → In b found → In b us) → IsSearch stepped
    step-IsSearch f =
        let after = λ (y : A). In-offer_all push next laws (record s { pending = rest }) found y in
        record {
          within = λ a i. elim ((after a).0.0 i) [ inl k ↦ f a k | inr k ↦ v.within a k ];
          marked = λ a i. (after a).0.1 (elim ((after a).2 i) [
            | inl old ↦ inr (v.marked a (subst (λ l. In a l) (sym p) (inr old)))
            | inr k ↦ inl k
          ]);
          settled = λ a i. elim ((after a).0.0 i) [
            | inr k ↦ settled_before a k
            | inl k ↦ elim ((after a).3 k) [ inl old ↦ settled_before a old | inr j ↦ inl j ]
          ];
        }

  -- The elements that a search starts from.
  start-IsSearch :
      (xs : List A)
      → ((x : A) → In x xs → In x us)
      → IsSearch (offer_all push next (record { visited = []; pending = [] }) xs)
  start-IsSearch xs f =
      let after =
        λ (y : A). In-offer_all push next laws (record { visited = []; pending = [] }) xs y in
      record {
        within = λ a i. elim ((after a).0.0 i) [ inl k ↦ f a k | inr k ↦ absurd k ];
        marked = λ a i. (after a).0.1 (elim ((after a).2 i) [ inl k ↦ absurd k | inr k ↦ inl k ]);
        settled = λ a i. elim ((after a).0.0 i) [
          | inr k ↦ absurd k
          | inl k ↦ elim ((after a).3 k) [ inl old ↦ absurd old | inr j ↦ inl j ]
        ];
      }

  -- What the search has when it ends: all that can be reached from what was visited, and no more.
  abbrev pub Reached : (start : List A) → Result (List A) E → Type 0
  Reached start r =
      (visited : List A) × (r ≡ ok visited)
      × ((a : A) → In a visited ↔ ((b : A) × In b start × Chain (Next next) b a))

  Chain-In :
      (s : Search A)
      → s.pending ≡ []
      → IsSearch s
      → {a b : A} → Chain (Next next) b a
      → In b s.visited
      → In a s.visited
  Chain-In s p v stop i = i
  Chain-In s p v (link {b = c} {c = a} r t) i = elim (v.settled c (Chain-In s p v r i)) [
    | inl waiting ↦ absurd (subst (λ l. In c l) p waiting)
    | inr done ↦ done a t
  ]

  Reached-ended : (s : Search A) → s.pending ≡ [] → IsSearch s → Reached s.visited (ok s.visited)
  Reached-ended s p v = (s.visited, refl, λ a. (λ i. (a, i, stop), λ (b, i, r). Chain-In s p v r i))

  Reached-step :
      (s : Search A) (x : A) (rest found : List A) (p : s.pending ≡ x ∷ rest)
      (n : next x ≡ ok found) (v : IsSearch s) (r : Result (List A) E)
      → Reached (stepped s x rest found p n v).visited r
      → Reached s.visited r
  Reached-step s x rest found p n v r (visited, q, exact) =
      let before : In x s.visited = v.marked x (subst (λ l. In x l) (sym p) (inl refl)) in
      let after =
        λ (b : A). (In-offer_all push next laws (record s { pending = rest }) found b).0 in
      (
        visited,
        q,
        λ a. (
          λ i.
              let (b, j, c) = (exact a).0 i in
              elim ((after b).0 j) [
                | inl new ↦ (x, before, Chain-append (link stop (found, n, new)) c)
                | inr old ↦ (b, old, c)
              ],
          λ (b, j, c). (exact a).1 (b, (after b).1 (inr j), c),
        ),
      )

  explore_pending :
      (visited pending : List A) (x : A) (rest found : List A) (fuel : ℕ)
      → pending ≡ x ∷ rest
      → next x ≡ ok found
      → explore push next (suc fuel) (record { visited = visited; pending = pending })
        ≡ explore push next fuel
            (offer_all push next (record { visited = visited; pending = rest }) found)
  unfolding explore
  explore_pending visited pending x rest found fuel q n = rw (q, n) refl

  pub Reached-explore :
      (fuel : ℕ) (s : Search A)
      → work push next laws.grows us distinct s ≤ fuel
      → IsSearch s
      → Reached s.visited (explore push next fuel s)
  unfolding explore
  Reached-explore zero s w v = elim (List-cases s.pending) [
    | inl empty ↦ Reached-ended s empty v
    | inr (x, rest, p) ↦ absurd (omega (arith, ap length p))
  ]
  Reached-explore (suc fuel) s w v = elim (List-cases s.pending) [
    | inl empty ↦ rw (empty, explore) (Reached-ended s empty v)
    | inr (x, rest, p) ↦
        let (found, n, f) =
          closed x (v.within x (v.marked x (subst (λ l. In x l) (sym p) (inl refl)))) in
        let next_search = stepped s x rest found p n v in
        let ih =
          Reached-explore fuel next_search
            (omega (
              arith,
              ap length p,
              work-offer_all push next laws.grows us distinct (record s { pending = rest }) found f,
            ))
            (step-IsSearch s x rest found p n v f) in
        subst (Reached s.visited) (sym (explore_pending s.visited s.pending x rest found fuel p n))
          (Reached-step s x rest found p n v (explore push next fuel next_search) ih)
  ]

  -- With fuel for every element, a search returns what can be reached from where it starts.
  pub search-Reached :
      (start : List A)
      → ((x : A) → In x start → In x us)
      → (visited : List A) × (explore push next
            (length us)
            (offer_all push next (record { visited = []; pending = [] }) start)
          ≡ ok visited)
        × ((a : A) → In a visited ↔ ((b : A) × In b start × Chain (Next next) b a))
  search-Reached start f =
      let first = offer_all push next (record { visited = []; pending = [] }) start in
      let (visited, q, exact) =
        Reached-explore (length us) first
          (omega (
            arith,
            work-offer_all push next laws.grows us distinct (record { visited = []; pending = [] })
                start f,
            unseen_le_length [] us,
          ))
          (start-IsSearch start f) in
      let after = λ (b : A).
        (In-offer_all push next laws (record { visited = []; pending = [] }) start b).0 in
      (
        visited,
        q,
        λ a. (
          λ i.
              let (b, j, c) = (exact a).0 i in
              (b, elim ((after b).0 j) [ inl k ↦ k | inr k ↦ absurd k ], c),
          λ (b, j, c). (exact a).1 (b, (after b).1 (inl j), c),
        ),
      )

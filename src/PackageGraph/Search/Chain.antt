-- ===== src/PackageGraph/Search/Chain.antt =====
-- Walks, and what a search asks of its work list (crates/luchta-workspace/src/package_graph.rs and
-- crates/luchta-engine/src/task_graph.rs).
use luchta.Prelude.{
  suc, ◌≡◌, refl, inl, inr, ◌⊎◌, ◌↔◌, List, [], ◌∷◌, arith, In, In-append, length, length-append,
}
use luchta.PackageGraph.Search.{push_front, push_back}

-- The walks along a relation, of no step or more.
pub data Chain {A : Type 0} (R : A → A → Type 0) : A → A → Type 0 where
  stop : {a : A} → Chain R a a
  link : {a b c : A} → Chain R a b → R b c → Chain R a c

pub Chain-append :
    {A : Type 0} {R : A → A → Type 0} {a b c : A} → Chain R a b → Chain R b c → Chain R a c
Chain-append r stop = r
Chain-append r (link s e) = link (Chain-append r s) e

-- A relation that follows another one step by step follows its walks.
pub Chain-simulated :
    {A B : Type 0} {R : A → A → Type 0} {S : B → B → Type 0} (Same : A → B → Type 0)
    → ((a b : A) (n : B) → R a b → Same a n → (m : B) × Same b m × S n m)
    → {a b : A} {n : B} → Chain R a b
    → Same a n
    → (m : B) × Same b m × Chain S n m
Chain-simulated Same follow stop i = (_, i, stop)
Chain-simulated Same follow (link c t) i =
    let (m, j, c') = Chain-simulated Same follow c i in
    let (m', j', t') = follow _ _ m t j in (m', j', link c' t')

-- What the search asks of its work list.
pub record IsPush {A : Type 0} (push : List A → A → List A) : Type 0 where
  pub holds : (y x : A) (pending : List A) → In y (push pending x) ↔ ((y ≡ x) ⊎ In y pending)
  pub grows : (x : A) (pending : List A) → length (push pending x) ≡ suc (length pending)

pub push_front-IsPush : {A : Type 0} → IsPush (push_front {A = A})
push_front-IsPush = record { holds = λ y x pending. (λ i. i, λ i. i); grows = λ x pending. refl }

pub push_back-IsPush : {A : Type 0} → IsPush (push_back {A = A})
push_back-IsPush = record {
  holds = λ y x pending. (
    λ i. elim ((In-append y pending (x ∷ [])).0 i) [
      | inl old ↦ inr old
      | inr (inl q) ↦ inl q
      | inr (inr e) ↦ absurd e
    ],
    λ i. (In-append y pending (x ∷ [])).1 (elim i [ inl q ↦ inr (inl q) | inr old ↦ inl old ]),
  );
  grows = λ x pending. omega (arith, length-append pending (x ∷ []));
}

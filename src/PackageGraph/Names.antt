-- ===== src/PackageGraph/Names.antt =====
-- A package graph is built of packages with different names
-- (crates/luchta-workspace/src/package_graph.rs).
use luchta.Prelude.{
  ℕ, ◌≡◌, inl, inr, ◌⊎◌, ◌↔◌, Result, ok, err, List, [], ◌∷◌, string_eq, arith, map, contains,
  contains-In, In-contains, In, Distinct, Bool-cases,
}
use luchta.Prelude.Maps.{Map, insert, keys, In-keys-insert}
use luchta.Petgraph.{Digraph}
use luchta.Types.{PackageName}
use luchta.PackageGraph.{PackageNode, WorkspaceError, insert_nodes}

abbrev pub package_names : List PackageNode → List PackageName
package_names packages = map (λ (p : PackageNode). p.name) packages

-- The names are different, and none is taken.
abbrev IsFree : List PackageName → List PackageName → Type 0
IsFree [] taken = Unit
IsFree (n ∷ names) taken = (¬ In n taken) × (¬ In n names) × IsFree names taken

abbrev pub IsOk : {A : Type 0} → Result A WorkspaceError → Type 0
IsOk (ok a) = Unit
IsOk (err e) = ⊥

IsFree-more :
    (names taken taken' : List PackageName) (k : PackageName)
    → ((n : PackageName) → In n taken' ↔ ((n ≡ k) ⊎ In n taken))
    → IsFree names taken' ↔ (IsFree names taken × (¬ In k names))
IsFree-more [] taken taken' k h = (λ _. (tt, λ i. i), λ _. tt)
IsFree-more (n ∷ names) taken taken' k h = ground (arith, h n, IsFree-more names taken taken' k h)

IsFree-Distinct : (names : List PackageName) → IsFree names [] ↔ Distinct names
IsFree-Distinct [] = (λ _. tt, λ _. tt)
IsFree-Distinct (n ∷ names) = ground (arith, IsFree-Distinct names)

module _ (d : Digraph PackageNode) where
  insert_nodes-IsFree :
      (packages : List PackageNode) (g : d.Graph) (indices : Map PackageName ℕ)
      → IsOk (insert_nodes d packages g indices) ↔ IsFree (package_names packages) (keys indices)
  unfolding insert_nodes
  insert_nodes-IsFree [] g indices = (λ _. tt, λ _. tt)
  insert_nodes-IsFree (p ∷ packages) g indices =
      let (g', index) = d.add_node g p in
      let ih = insert_nodes-IsFree packages g' (insert p.name index indices) in
      let more =
        IsFree-more (package_names packages) (keys indices) (keys (insert p.name index indices))
          p.name (λ n. In-keys-insert n p.name index indices) in
      elim (Bool-cases (contains (keys indices) p.name)) [
        | inl taken ↦
            rw taken (λ h. absurd h, λ h. absurd (h.0 (contains-In p.name (keys indices) taken)))
        | inr free ↦ rw free (
          λ h.
              let (f, n) = more.0 (ih.0 h) in
              ((λ i. absurd (ground (arith, In-contains p.name (keys indices) i))), n, f),
          λ (a, n, f). ih.1 (more.1 (f, n)),
        )
      ]

  -- The nodes are inserted when, and only when, no two packages have the same name.
  pub insert_nodes-Distinct :
      (packages : List PackageNode)
      → IsOk (insert_nodes d packages d.empty []) ↔ Distinct (package_names packages)
  insert_nodes-Distinct packages =
      let first = insert_nodes-IsFree packages d.empty [] in
      let second = IsFree-Distinct (package_names packages) in
      (λ h. second.0 (first.0 h), λ h. first.1 (second.1 h))

-- ===== src/PackageGraph/Neighbors.antt =====
-- `dependencies_of` and `dependents_of` by names (crates/luchta-workspace/src/package_graph.rs).
use luchta.Prelude.{
  ℕ, ◌≡◌, refl, sym, subst, ap, ◌∙◌, inl, inr, ◌↔◌, Option-cases, Result, ok, err_not_ok, List,
  string_eq, nat_eq, map, In, In-map, map-In,
}
use luchta.Prelude.Maps.{lookup}
use luchta.Petgraph.{Digraph, IsPetgraph}
use luchta.Types.{PackageName}
use luchta.PackageGraph.{
  PackageNode, PackageGraph, WorkspaceError, package_at, node_index, dependencies_of, dependents_of,
}
use luchta.PackageGraph.Names.{package_names}
use luchta.PackageGraph.Edges.{Read, IsBuilt}
use luchta.PackageGraph.Depends.{
  Depends, Named, Named-name, Named-of_listed, listed_of_Named, edge-Depends,
}

-- The packages that `found` has are those that `R` leads to.
abbrev pub Finds : Result (List PackageNode) WorkspaceError → (PackageName → Type 0) → Type 0
Finds found R =
    (nodes : List PackageNode) × (found ≡ ok nodes)
    × ((m : PackageName) → In m (package_names nodes) ↔ R m)

module _ (d : Digraph PackageNode) (laws : IsPetgraph d) (read : Read) (packages : List PackageNode)
    (g : PackageGraph d) (v : IsBuilt d laws read packages g) where
  pub Named-of_name :
      (n : PackageName)
      → In n (package_names packages)
      → (i : ℕ) × Named d laws read packages g v i n
  Named-of_name n i =
      let (p, j, q) = map-In (λ (p : PackageNode). p.name) n packages i in
      let (index, k, l) = Named-of_listed d laws read packages g v p j in
      (index, ap (λ z. lookup z g.indices_by_name) q ∙ l)

  node_index-Named :
      (n : PackageName) (i : ℕ) → Named d laws read packages g v i n → node_index d g n ≡ ok i
  unfolding node_index
  node_index-Named n i h = rw (h, node_index) refl

  -- The neighbours at an index, by their names.
  at-Finds :
      (neighbors : List ℕ) (R : PackageName → Type 0)
      → ((b : ℕ) → In b neighbors ↔ ((m : PackageName) × Named d laws read packages g v b m × R m))
      → ((m : PackageName) → R m → In m (package_names packages))
      → Finds (ok (map (package_at d g.graph) neighbors)) R
  at-Finds neighbors R h listed = (
    map (package_at d g.graph) neighbors,
    refl,
    λ m. (
      λ i.
          let (p, j, q) =
            map-In (λ (p : PackageNode). p.name) m (map (package_at d g.graph) neighbors) i in
          let (b, k, e) = map-In (package_at d g.graph) p neighbors j in
          let (m', l, r) = (h b).0 k in
          let same : m' ≡ m =
            sym (Named-name d laws read packages g v b m' l)
            ∙ (ap (λ (p : PackageNode). p.name) (sym e) ∙ sym q) in
          subst R same r,
      λ r.
          let (b, l) = Named-of_name m (listed m r) in
          subst (λ z. In z (package_names (map (package_at d g.graph) neighbors)))
            (Named-name d laws read packages g v b m l)
            (In-map (λ (p : PackageNode). p.name) (package_at d g.graph b)
              (map (package_at d g.graph) neighbors)
              (In-map (package_at d g.graph) b neighbors ((h b).1 (m, l, r)))),
    ),
  )

  same_name :
      (a : ℕ) (n n' : PackageName)
      → Named d laws read packages g v a n
      → Named d laws read packages g v a n'
      → n ≡ n'
  same_name a n n' h h' =
      sym (Named-name d laws read packages g v a n h) ∙ Named-name d laws read packages g v a n' h'

  pub dependencies_of-Finds :
      (n : PackageName)
      → In n (package_names packages)
      → Finds (dependencies_of d g n) (Depends read packages n)
  unfolding dependencies_of
  dependencies_of-Finds n i =
      let (a, h) = Named-of_name n i in
      rw (node_index-Named n a h) (
        at-Finds (d.neighbors_outgoing g.graph a) (Depends read packages n)
          (λ b. (
            λ j.
                let (n', m, h', l, t) =
                  (edge-Depends d laws read packages g v a b).0
                    ((laws.outgoing_iff g.graph a b).0 j) in
                (m, l, subst (λ z. Depends read packages z m) (same_name a n' n h' h) t),
            λ (m, l, t).
                (laws.outgoing_iff g.graph a b).1
                  ((edge-Depends d laws read packages g v a b).1 (n, m, h, l, t)),
          ))
          (λ m t. t.4))

  pub dependents_of-Finds :
      (n : PackageName)
      → In n (package_names packages)
      → Finds (dependents_of d g n) (λ m. Depends read packages m n)
  unfolding dependents_of
  dependents_of-Finds n i =
      let (a, h) = Named-of_name n i in
      rw (node_index-Named n a h) (
        at-Finds (d.neighbors_incoming g.graph a) (λ m. Depends read packages m n)
          (λ b. (
            λ j.
                let (m, n', l, h', t) =
                  (edge-Depends d laws read packages g v b a).0
                    ((laws.incoming_iff g.graph b a).0 j) in
                (m, l, subst (λ z. Depends read packages m z) (same_name a n' n h' h) t),
            λ (m, l, t).
                (laws.incoming_iff g.graph b a).1
                  ((edge-Depends d laws read packages g v b a).1 (m, n, l, h, t)),
          ))
          (λ m (p, j, q, t, k).
            subst (λ z. In z (package_names packages)) q
              (In-map (λ (p : PackageNode). p.name) p packages j)))

  -- No package of another name has neighbours.
  pub dependencies_of_unknown :
      (n : PackageName) (nodes : List PackageNode)
      → dependencies_of d g n ≡ ok nodes
      → In n (package_names packages)
  unfolding dependencies_of node_index
  dependencies_of_unknown n nodes h = elim (Option-cases (lookup n g.indices_by_name)) [
    | inl missing ↦ absurd (err_not_ok (rw (node_index, missing, dependencies_of) at h))
    | inr (i, found) ↦ listed_of_Named d laws read packages g v i n found
  ]

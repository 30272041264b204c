-- ===== src/PackageGraph/Depends.antt =====
-- Which package of the workspace depends on which, by their names and manifests
-- (crates/luchta-workspace/src/package_graph.rs).
use luchta.Prelude.{
  ℕ, ◌≡◌, refl, sym, subst, ap, ◌∙◌, ◌↔◌, some, some-injective, List, string_eq, nat_eq, In, In-map,
  map-In,
}
use luchta.Prelude.Maps.{lookup, keys}
use luchta.Petgraph.{Digraph, IsPetgraph}
use luchta.Petgraph.Indexed.{key-lookup_or}
use luchta.Types.{PackageName}
use luchta.PackageGraph.{PackageNode, PackageGraph, package_at}
use luchta.PackageGraph.Names.{package_names}
use luchta.PackageGraph.Indexed.{name_of}
use luchta.PackageGraph.Edges.{Read, Declares, IsBuilt}

-- The manifest of package `n` declares `m`, and both are packages of the workspace.
abbrev pub Depends : Read → List PackageNode → PackageName → PackageName → Type 0
Depends read packages n m =
    (p : PackageNode) × In p packages
    × (p.name ≡ n)
    × Declares read p m
    × In m (package_names packages)

module _ (d : Digraph PackageNode) (laws : IsPetgraph d) (read : Read) (packages : List PackageNode)
    (g : PackageGraph d) (v : IsBuilt d laws read packages g) where
  open d use {Graph, node_references, edge_references}

  abbrev pub Named : ℕ → PackageName → Type 0
  Named i n = lookup n g.indices_by_name ≡ some i

  pub Named-name : (i : ℕ) (n : PackageName) → Named i n → (package_at d g.graph i).name ≡ n
  Named-name i n h =
      key-lookup_or name_of (node_references g.graph) g.indices_by_name _ n i v.indexed h

  pub Named-In : (i : ℕ) (n : PackageName) → Named i n → In i (keys (node_references g.graph))
  Named-In i n h =
      let (node, m, q) = v.indexed.node_of n i h in
      In-map (λ (e : ℕ × PackageNode). e.0) (i, node) (node_references g.graph) m

  pub In-Named : (i : ℕ) → In i (keys (node_references g.graph)) → (n : PackageName) × Named i n
  In-Named i m =
      let ((j, node), k, q) = map-In (λ (e : ℕ × PackageNode). e.0) i (node_references g.graph) m in
      (
        node.name,
        v.indexed.index_of i node
            (subst (λ l. In {A = ℕ × PackageNode} (l, node) (node_references g.graph)) (sym q) k),
      )

  -- The names in the table are the packages'.
  pub Named-of_listed :
      (p : PackageNode)
      → In p packages
      → (i : ℕ) × In (i, p) (node_references g.graph) × Named i p.name
  Named-of_listed p m =
      let ((i, node), k, q) =
        map-In (λ (e : ℕ × PackageNode). e.1) p (node_references g.graph)
          (subst (In p) (sym v.listed) m) in
      let k' = subst (λ l. In {A = ℕ × PackageNode} (i, l) (node_references g.graph)) (sym q) k in
      (i, k', v.indexed.index_of i p k')

  pub listed_of_Named : (i : ℕ) (n : PackageName) → Named i n → In n (package_names packages)
  listed_of_Named i n h =
      let (node, m, q) = v.indexed.node_of n i h in
      subst (λ l. In l (package_names packages)) q
        (In-map (λ (p : PackageNode). p.name) node packages
          (subst (In node) v.listed
            (In-map (λ (e : ℕ × PackageNode). e.1) (i, node) (node_references g.graph) m)))

  pub edge-Depends :
      (a b : ℕ)
      → In (a, b) (edge_references g.graph)
        ↔ ((n m : PackageName) × Named a n × Named b m × Depends read packages n m)
  edge-Depends a b = (
    λ i.
        let (p, k, (m, t, l)) = (v.edges_iff a b).0 i in
        let listed =
          subst (In p) v.listed
            (In-map (λ (e : ℕ × PackageNode). e.1) (a, p) (node_references g.graph) k) in
        (p.name, m, v.indexed.index_of a p k, l, (p, listed, refl, t, listed_of_Named b m l)),
    λ (n, m, h, l, (p, k, q, t, r)).
        let (i, j, s) = Named-of_listed p k in
        let same : i ≡ a =
          some-injective i a (sym s ∙ (ap (λ z. lookup z g.indices_by_name) q ∙ h)) in
        (v.edges_iff a b).1 (
          p,
          subst (λ z. In {A = ℕ × PackageNode} (z, p) (node_references g.graph)) same j,
          (m, t, l),
        ),
  )

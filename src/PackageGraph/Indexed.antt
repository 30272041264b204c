-- ===== src/PackageGraph/Indexed.antt =====
-- The table of indices of a package graph (crates/luchta-workspace/src/package_graph.rs).
use luchta.Prelude.{
  ℕ, ◌≡◌, sym, subst, ap, ◌∙◌, inl, inr, ok, err_not_ok, ok-injective, List, [], ◌∷◌, ◌++◌,
  append_nil, append_assoc, string_eq, arith, contains, In-contains, Bool-cases,
}
use luchta.Prelude.Maps.{Map, insert, keys, values}
use luchta.Petgraph.{Digraph, IsPetgraph}
use luchta.Petgraph.Indexed.{IsTable, empty-IsTable, add_node-IsTable}
use luchta.Types.{PackageName}
use luchta.PackageGraph.{PackageNode, insert_nodes}

abbrev pub name_of : PackageNode → PackageName
name_of p = p.name

module _ (d : Digraph PackageNode) (laws : IsPetgraph d) where
  open d use {Graph, empty, add_node, node_references}

  insert_nodes_extends :
      (packages : List PackageNode) (g g' : Graph) (indices indices' : Map PackageName ℕ)
      → IsTable name_of d laws g indices
      → insert_nodes d packages g indices ≡ ok (g', indices')
      → IsTable name_of d laws g' indices'
        × (values (node_references g') ≡ values (node_references g) ++ packages)
  unfolding insert_nodes
  insert_nodes_extends [] g g' indices indices' t h =
      let q = ok-injective (g, indices) (g', indices') h in
      (
        subst (λ (e : Graph × Map PackageName ℕ). IsTable name_of d laws (e.0) (e.1)) q t,
        ap (λ (e : Graph × Map PackageName ℕ). values (node_references (e.0))) (sym q)
            ∙ sym (append_nil (values (node_references g))),
      )
  insert_nodes_extends (p ∷ packages) g g' indices indices' t h =
      let (g1, index) = add_node g p in
      elim (Bool-cases (contains (keys indices) p.name)) [
        | inl taken ↦ absurd (err_not_ok (rw taken at h))
        | inr free ↦
            let (next, extended) =
              add_node-IsTable name_of d laws g indices p t
                (λ i. absurd (ground (arith, In-contains p.name (keys indices) i))) in
            let (table, listed) =
              insert_nodes_extends packages g1 g' (insert p.name index indices) indices' next
                (rw free at h) in
            (
              table,
              listed
                  ∙ (ap (λ l. l ++ packages) extended
                      ∙ append_assoc (values (node_references g)) p packages),
            )
      ]

  -- The nodes of a graph that is built are the packages, in order, and its table finds them.
  pub insert_nodes-IsTable :
      (packages : List PackageNode) (g : Graph) (indices : Map PackageName ℕ)
      → insert_nodes d packages empty [] ≡ ok (g, indices)
      → IsTable name_of d laws g indices × (values (node_references g) ≡ packages)
  insert_nodes-IsTable packages g indices h =
      let (table, listed) =
        insert_nodes_extends packages empty g [] indices (empty-IsTable name_of d laws) h in
      (table, listed ∙ ap (λ l. values l ++ packages) laws.empty_nodes)

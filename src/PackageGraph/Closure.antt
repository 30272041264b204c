-- ===== src/PackageGraph/Closure.antt =====
-- The transitive dependencies and dependents of packages
-- (crates/luchta-workspace/src/package_graph.rs).
pub mod Reached
use luchta.Prelude.{
  ℕ, Option, none, some, Result, ok, err, ◌>>=◌, List, [], ◌∷◌, map, length, String, string_eq,
  nat_eq, PartialEq,
}
use luchta.Prelude.Maps.{Map, lookup}
use luchta.Petgraph.{Digraph}
use luchta.Types.{PackageName}
use luchta.PackageGraph.{PackageNode, PackageGraph, WorkspaceError, package_at}
use luchta.PackageGraph.Search.{Search, offer_all, explore, push_front}

-- petgraph's `Direction`.
pub data Direction : Type 0 where
  outgoing incoming : Direction

-- The indices of the seeds that are packages of the workspace.
abbrev pub seed_indices : Map PackageName ℕ → List PackageName → List ℕ
seed_indices indices [] = []
seed_indices indices (seed ∷ seeds) = elim (lookup seed indices) [
  | some index ↦ index ∷ seed_indices indices seeds
  | none ↦ seed_indices indices seeds
]

module _ (d : Digraph PackageNode) where
  open d use {Graph, node_references, neighbors_outgoing, neighbors_incoming}

  abbrev pub neighbors_directed : Graph → Direction → ℕ → Result (List ℕ) WorkspaceError
  neighbors_directed g outgoing index = ok (neighbors_outgoing g index)
  neighbors_directed g incoming index = ok (neighbors_incoming g index)

  -- The fuel is the number of packages: each is taken off the stack at most once.
  unfoldable pub transitive_neighbors :
      PackageGraph d → List PackageName → Direction → Result (List PackageName) WorkspaceError
  unfolding explore offer_all
  transitive_neighbors g seeds direction = do
    let start =
        offer_all push_front (neighbors_directed g.graph direction)
          (record { visited = []; pending = [] }) (seed_indices g.indices_by_name seeds)
    visited ←
        explore push_front (neighbors_directed g.graph direction) (length (node_references g.graph))
          start
    ok (map (λ index. (package_at d g.graph index).name) visited)

  unfoldable pub transitive_dependents_of :
      PackageGraph d → List PackageName → Result (List PackageName) WorkspaceError
  unfolding transitive_neighbors
  transitive_dependents_of g seeds = transitive_neighbors g seeds incoming

  unfoldable pub transitive_dependencies_of :
      PackageGraph d → PackageName → Result (List PackageName) WorkspaceError
  unfolding transitive_neighbors
  transitive_dependencies_of g name = transitive_neighbors g (name ∷ []) outgoing

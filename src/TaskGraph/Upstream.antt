-- ===== src/TaskGraph/Upstream.antt =====
-- Which packages are upstream of a task's package (crates/luchta-engine/src/task_graph.rs).
pub mod Meaning
use luchta.Prelude.{
  Bool, false, Option, none, some, Result, ok, err, ◌>>=◌, List, [], map, any, length, String,
  string_eq, PartialEq, ◌==◌, if◌then◌else◌,
}
use luchta.Petgraph.{Digraph}
use luchta.Types.{PackageName, TaskId, task_is_root}
use luchta.PackageGraph.{PackageNode, PackageGraph, WorkspaceError, dependencies_of}
use luchta.PackageGraph.Search.{Search, offer_all, explore, push_back}

module _ (d : Digraph PackageNode) where
  unfoldable pub dependency_names :
      PackageGraph d → PackageName → Result (List PackageName) WorkspaceError
  dependency_names g name = do
    dependencies ← dependencies_of d g name
    ok (map (λ (p : PackageNode). p.name) dependencies)

  -- The fuel is the number of packages: each is taken off the queue at most once.
  unfoldable pub transitive_upstream_packages :
      PackageGraph d → PackageName → Result (List PackageName) WorkspaceError
  unfolding explore offer_all dependency_names
  transitive_upstream_packages g name = do
    found ← dependency_names g name
    explore push_back (dependency_names g) (length (d.node_references g.graph))
        (offer_all push_back (dependency_names g) (record { visited = []; pending = [] }) found)

  unfoldable pub upstream_source_package : PackageGraph d → TaskId → PackageName
  upstream_source_package g source =
      if task_is_root source
      then elim g.root_package [ none ↦ source.pkg | some name ↦ name ]
      else source.pkg

  unfoldable pub is_direct_upstream :
      PackageGraph d → (root_package : PackageName) (source dependency : TaskId) → Bool
  unfolding upstream_source_package
  is_direct_upstream g root_package source dependency =
      if dependency.pkg == root_package
      then false
      else elim (dependencies_of d g (upstream_source_package g source)) [
        | ok dependencies ↦ any (λ (p : PackageNode). p.name == dependency.pkg) dependencies
        | err e ↦ false
      ]

  unfoldable pub is_transitive_upstream :
      PackageGraph d → (root_package : PackageName) (source dependency : TaskId) → Bool
  unfolding upstream_source_package transitive_upstream_packages
  is_transitive_upstream g root_package source dependency =
      if dependency.pkg == root_package
      then false
      else elim (transitive_upstream_packages g (upstream_source_package g source)) [
        | ok names ↦ any (λ name. name == dependency.pkg) names
        | err e ↦ false
      ]

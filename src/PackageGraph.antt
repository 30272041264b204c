-- ===== src/PackageGraph.antt =====
-- crates/luchta-workspace/src/package_graph.rs: the packages of the workspace and which depends on
-- which. A set of the source is a list that holds each element once; its order means nothing.
pub mod Names
pub mod Neighbors
pub mod Closure
pub mod Depends
pub mod Edges
pub mod Indexed
pub mod Search
pub mod Sets
mod Samples
use mathlib.Core.List.{reverse}
use luchta.Prelude.{
  ℕ, Bool, Option, none, some, Result, ok, err, ◌>>=◌, List, [], ◌∷◌, ◌++◌, String, string_eq,
  nat_eq, pair_eq, PartialEq, map, filter, contains, if◌then◌else◌,
}
use luchta.Prelude.Maps.{Map, lookup, lookup_or, insert, keys}
use luchta.Text.{append}
use luchta.Petgraph.{Digraph}
use luchta.Types.{PackageName}

pub record PackageNode : Type 0 where
  pub name : PackageName
  pub path : String
  pub scripts : List String

abbrev pub has_script : PackageNode → String → Bool
has_script node name = contains node.scripts name

-- The error of the graph operations.
pub data WorkspaceError : Type 0 where
  graph_error : (message : String) → WorkspaceError

-- `HashSet::insert` without its result.
abbrev pub set_insert : {A : Type 0} ⦃e : PartialEq A⦄ → List A → A → List A
set_insert xs x = if contains xs x then xs else xs ++ x ∷ []

abbrev pub set_extend : {A : Type 0} ⦃e : PartialEq A⦄ → List A → List A → List A
set_extend xs [] = xs
set_extend xs (y ∷ ys) = set_extend (set_insert xs y) ys

abbrev no_package : PackageNode
no_package = record { name = ""; path = ""; scripts = [] }

-- `read` is the reading and parsing of a `package.json`: the keys of its two tables.
unfoldable pub read_workspace_dependency_names :
    (read : String → Result (List String × List String) WorkspaceError) (package_path : String)
    (workspace_names : List PackageName)
    → Result (List PackageName) WorkspaceError
read_workspace_dependency_names read package_path workspace_names = do
  (dependencies, dev_dependencies) ← read package_path
  ok (set_extend [] (filter (contains workspace_names) (dependencies ++ dev_dependencies)))

module _ (d : Digraph PackageNode) where
  open d use {
    Graph, empty, add_node, add_edge, node_references, neighbors_outgoing, neighbors_incoming,
    toposort,
  }

  pub record PackageGraph : Type 0 where
    pub graph : Graph
    pub indices_by_name : Map PackageName ℕ
    pub root_package : Option PackageName

  abbrev pub package_at : Graph → ℕ → PackageNode
  package_at g n = lookup_or no_package n (node_references g)

  unfoldable pub insert_nodes :
      List PackageNode
      → Graph
      → Map PackageName ℕ
      → Result (Graph × Map PackageName ℕ) WorkspaceError
  insert_nodes [] g indices = ok (g, indices)
  insert_nodes (package_ ∷ packages) g indices =
      let (g', index) = add_node g package_ in
      let rest = insert_nodes packages g' (insert package_.name index indices) in
      if contains (keys indices) package_.name
      then err (graph_error (append "duplicate package name in workspace graph: " package_.name))
      else rest

  -- The indices of the names that a package depends on.
  unfoldable pub resolve_names :
      Map PackageName ℕ → PackageName → List PackageName → Result (List ℕ) WorkspaceError
  resolve_names indices source [] = ok []
  resolve_names indices source (name ∷ names) = elim (lookup name indices) [
    | none ↦ err (
        graph_error (
          append "workspace dependency '"
            (append name (append "' referenced by '" (append source "' was not discovered")))))
    | some index ↦ do rest ← resolve_names indices source names; ok (index ∷ rest)
  ]

  unfoldable pub collect_dependency_edges :
      (read : String → Result (List String × List String) WorkspaceError)
      → List (ℕ × PackageNode)
      → Map PackageName ℕ
      → List (ℕ × ℕ)
      → Result (List (ℕ × ℕ)) WorkspaceError
  unfolding read_workspace_dependency_names resolve_names
  collect_dependency_edges read [] indices edges = ok edges
  collect_dependency_edges read ((source, node) ∷ nodes) indices edges = do
    names ← read_workspace_dependency_names read node.path (keys indices)
    targets ← resolve_names indices node.name names
    collect_dependency_edges read nodes indices
        (set_extend edges (map (λ target. (source, target)) targets))

  unfoldable pub add_edges : List (ℕ × ℕ) → Graph → Graph
  add_edges [] g = g
  add_edges ((source, target) ∷ edges) g = add_edges edges (add_edge g source target)

  unfoldable pub build :
      (read : String → Result (List String × List String) WorkspaceError)
      → List PackageNode
      → Result PackageGraph WorkspaceError
  unfolding insert_nodes collect_dependency_edges add_edges
  build read packages = do
    (g, indices) ← insert_nodes packages empty []
    edges ← collect_dependency_edges read (node_references g) indices []
    ok (record { graph = add_edges edges g; indices_by_name = indices; root_package = none })

  abbrev pub with_root_package : PackageGraph → PackageName → PackageGraph
  with_root_package g name = record g { root_package = some name }

  unfoldable pub node_index : PackageGraph → PackageName → Result ℕ WorkspaceError
  node_index g name = elim (lookup name g.indices_by_name) [
    | some index ↦ ok index
    | none ↦ err (graph_error (append "package '" (append name "' not found in graph")))
  ]

  unfoldable pub dependencies_of :
      PackageGraph → PackageName → Result (List PackageNode) WorkspaceError
  unfolding node_index
  dependencies_of g name = do
    index ← node_index g name
    ok (map (package_at g.graph) (neighbors_outgoing g.graph index))

  unfoldable pub dependents_of :
      PackageGraph → PackageName → Result (List PackageNode) WorkspaceError
  unfolding node_index
  dependents_of g name = do
    index ← node_index g name
    ok (map (package_at g.graph) (neighbors_incoming g.graph index))

  unfoldable pub package_order : PackageGraph → Result (List PackageNode) WorkspaceError
  package_order g = elim (toposort g.graph) [
    | err n ↦
        err (graph_error (append "package graph cycle detected at " (package_at g.graph n).name))
    | ok order ↦ ok (map (package_at g.graph) (reverse order))
  ]

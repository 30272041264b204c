-- ===== src/TaskGraph/Edges.antt =====
-- How a task graph is built of a resolved pipeline (crates/luchta-engine/src/task_graph.rs).
pub mod Meaning
pub mod References
pub mod Tasks
use luchta.Prelude.{
  ℕ, Bool, not, Option, none, some, Result, ok, err, ◌>>=◌, List, [], ◌∷◌, filter, map, string_eq,
  ◌==◌, if◌then◌else◌,
}
use luchta.Prelude.Maps.{Map, lookup, insert, keys}
use luchta.Petgraph.{Digraph}
use luchta.Types.{
  PackageName, TaskName, TaskId, task_id, task_id_eq, root_package_name, TaskDefinition, DependsOn,
  same_package, specific, direct_upstream, transitive_upstream, root,
}
use luchta.PackageGraph.{PackageNode, PackageGraph}
use luchta.Pipeline.{ResolvedPipeline}
use luchta.TaskGraph.{TaskNode, TaskGraph, node_at, topological_order}
use luchta.TaskGraph.Upstream.{is_direct_upstream, is_transitive_upstream}

unfoldable pub task_definition_candidates : ResolvedPipeline → TaskName → List TaskId
task_definition_candidates p name = filter (λ (i : TaskId). i.task == name) (keys p.tasks_by_id)

module _ (d : Digraph TaskNode) where
  open d use {Graph, empty, add_node, add_edge, find_edge, neighbors_outgoing}

  unfoldable pub task_definition : TaskGraph d → TaskId → Option TaskDefinition
  task_definition g i = lookup i g.definitions_by_id

  -- `.map(|_| vec![candidate]).unwrap_or_default()`
  unfoldable pub if_defined : TaskGraph d → TaskId → List TaskId
  unfolding task_definition
  if_defined g i = elim (task_definition g i) [ some definition ↦ i ∷ [] | none ↦ [] ]

  unfoldable pub add_edge_if_present : TaskGraph d → TaskId → TaskId → TaskGraph d
  add_edge_if_present g source dependency = elim (lookup source g.indices_by_id) [
    | none ↦ g
    | some source_index ↦ elim (lookup dependency g.indices_by_id) [
      | none ↦ g
      | some dependency_index ↦
          if find_edge g.graph source_index dependency_index
          then g
          else record g { graph = add_edge g.graph source_index dependency_index }
    ]
  ]

  unfoldable pub add_edges_if_present : TaskGraph d → TaskId → List TaskId → TaskGraph d
  add_edges_if_present g source [] = g
  add_edges_if_present g source (dependency ∷ more) =
      add_edges_if_present (add_edge_if_present g source dependency) source more

  unfoldable pub add_tasks : Map TaskId TaskDefinition → Graph → Map TaskId ℕ → Graph × Map TaskId ℕ
  add_tasks [] g indices = (g, indices)
  add_tasks ((i, definition) ∷ tasks) g indices =
      let (g', index) = add_node g (record { id = i; weight = definition.weight }) in
      add_tasks tasks g' (insert i index indices)

  unfoldable pub node_index : TaskGraph d → TaskId → Option ℕ
  node_index g i = lookup i g.indices_by_id

  unfoldable pub dependencies_of : TaskGraph d → TaskId → List TaskNode
  unfolding node_index
  dependencies_of g i = elim (node_index g i) [
    | none ↦ []
    | some index ↦ map (node_at d g.graph) (neighbors_outgoing g.graph index)
  ]

  -- The error names a task on a cycle.
  unfoldable pub validate_acyclic : TaskGraph d → Result {0, 0} Unit TaskId
  validate_acyclic g = do order ← topological_order d g.graph; ok tt

  module _ (w : Digraph PackageNode) (packages : PackageGraph w) where
    unfoldable pub expand_dependency :
        TaskGraph d
        → ResolvedPipeline
        → (root_package : PackageName) (source : TaskId) → DependsOn
        → Result (List TaskId) TaskId
    unfolding if_defined
    expand_dependency g p root_package source (same_package name) =
        ok (if_defined g (task_id source.pkg name))
    expand_dependency g p root_package source (specific i) = ok (if_defined g i)
    expand_dependency g p root_package source (direct_upstream name) = ok (
        filter (is_direct_upstream w packages root_package source)
          (task_definition_candidates p name))
    expand_dependency g p root_package source (transitive_upstream name) = ok (
        filter (is_transitive_upstream w packages root_package source)
          (task_definition_candidates p name))
    expand_dependency g p root_package source (root name) =
        ok (filter (λ (i : TaskId). i.pkg == root_package) (task_definition_candidates p name))

    -- The loop over the references of one task.
    unfoldable pub add_references :
        TaskGraph d → ResolvedPipeline → TaskId → List DependsOn → Result (TaskGraph d) TaskId
    unfolding expand_dependency add_edges_if_present
    add_references g p source [] = ok g
    add_references g p source (dependency ∷ more) = do
      found ← expand_dependency g p root_package_name source dependency
      add_references (add_edges_if_present g source found) p source more

    unfoldable pub add_dependencies :
        TaskGraph d → ResolvedPipeline → Map TaskId TaskDefinition → Result (TaskGraph d) TaskId
    unfolding add_references
    add_dependencies g p [] = ok g
    add_dependencies g p ((source, definition) ∷ tasks) = do
      g' ← add_references g p source definition.depends_on
      add_dependencies g' p tasks

    unfoldable pub from_resolved_pipeline : ResolvedPipeline → Result (TaskGraph d) TaskId
    unfolding add_tasks add_dependencies validate_acyclic
    from_resolved_pipeline p = do
      let (g, indices) = add_tasks p.tasks_by_id empty []
      with_edges ←
          add_dependencies
            (record {
              graph = g;
              indices_by_id = indices;
              definitions_by_id = p.tasks_by_id;
              inputs_from_worker_by_id = p.inputs_from_worker_by_id;
            })
            p p.tasks_by_id
      done ← validate_acyclic with_edges
      ok with_edges

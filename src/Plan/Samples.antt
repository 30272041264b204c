-- ===== src/Plan/Samples.antt =====
-- A workspace of three packages, from the manifests to a run: `app` depends on `lib`, and `lib` on
-- `base` and on a package from outside; the test of `app` needs the build of what is upstream
-- (crates/luchta-workspace/src/package_graph.rs and crates/luchta-engine/src/task_graph.rs).
use luchta.Prelude.{
  ℕ, String, string_eq, ◌≡◌, refl, ◌↔◌, Bool, true, some, none, Result, ok, err, List, [], ◌∷◌, In,
  inl, inr, Distinct, PartialEq, contains, In-contains, false, ◌==◌, nat_eq, if◌then◌else◌, arith,
}
use luchta.Prelude.Maps.{Map, lookup, insert, keys}
use luchta.Petgraph.Concrete.{lists, lists-IsPetgraph}
use luchta.Types.{
  TaskId, task_id, task_id_eq, TaskDefinition, new_definition, transitive_upstream, direct_upstream,
}
use luchta.PackageGraph.{
  PackageNode, PackageGraph, WorkspaceError, read_workspace_dependency_names, resolve_names,
  insert_nodes, collect_dependency_edges, add_edges, build, with_root_package, node_index,
  dependencies_of,
}
use luchta.PackageGraph.Names.{package_names}
use luchta.PackageGraph.Depends.{Depends}
use luchta.PackageGraph.Neighbors.{Finds}
use luchta.PackageGraph.Search.{offer, offer_all, explore}
use luchta.PackageGraph.Search.Chain.{Chain}
use luchta.PackageGraph.Closure.{transitive_neighbors, transitive_dependents_of}
use luchta.Pipeline.{ResolvedPipeline}
use luchta.TaskGraph.{TaskNode, TaskGraph, topological_order}
use luchta.TaskGraph.Upstream.{
  dependency_names, transitive_upstream_packages, upstream_source_package, is_direct_upstream,
  is_transitive_upstream,
}
use luchta.TaskGraph.Upstream.Meaning.{Upstream}
use luchta.TaskGraph.Edges.{
  task_definition_candidates, task_definition, if_defined, add_edge_if_present,
  add_edges_if_present, add_tasks, expand_dependency, add_references, add_dependencies,
  validate_acyclic, from_resolved_pipeline,
}
use luchta.TaskGraph.Edges.Tasks.{Linked}
use luchta.TaskGraph.Edges.References.{Requires}
use luchta.Walker.{succeeded, WalkerState, run}
use luchta.Walker.Start.{from_graph}
use luchta.Walker.Driver.Finish.{IsFinished}
use luchta.Walker.Outcome.{run_schedule}
use luchta.Plan.{
  built_dependencies, built_dependents, built-Upstream, plan_edges, plan_finishes, plan_order,
}

abbrev package_node : String → PackageNode
package_node name = record { name = name; path = name; scripts = [] }

abbrev packages : List PackageNode
packages = package_node "base" ∷ package_node "app" ∷ package_node "lib" ∷ []

abbrev read : String → Result (List String × List String) WorkspaceError
read path =
    if path == "app"
    then ok ("lib" ∷ [], [])
    else if path == "lib"
    then ok ("left-pad" ∷ [], "base" ∷ [])
    else ok ([], [])

abbrev no_packages : PackageGraph (lists PackageNode)
no_packages = record {
  graph = (lists PackageNode).empty;
  indices_by_name = [];
  root_package = none;
}

abbrev plain_graph : PackageGraph (lists PackageNode)
plain_graph = elim (build (lists PackageNode) read packages) [ ok g ↦ g | err e ↦ no_packages ]

-- The root of the workspace is the package `app`.
abbrev package_graph : PackageGraph (lists PackageNode)
package_graph = with_root_package (lists PackageNode) plain_graph "app"

abbrev tasks : Map TaskId TaskDefinition
tasks =
    (task_id "app" "test", new_definition (transitive_upstream "build" ∷ []) 1)
    ∷ (task_id "lib" "build", new_definition (direct_upstream "build" ∷ []) 1)
    ∷ (task_id "base" "build", new_definition [] 1)
    ∷ (task_id "//root" "check", new_definition (transitive_upstream "build" ∷ []) 1)
    ∷ []

abbrev pipeline : ResolvedPipeline
pipeline = record {
  tasks_by_id = tasks;
  task_names_by_package = [];
  root_task_names = [];
  prune_reasons_by_id = [];
  inputs_from_worker_by_id = [];
}

abbrev no_graph : TaskGraph (lists TaskNode)
no_graph = record {
  graph = (lists TaskNode).empty;
  indices_by_id = [];
  definitions_by_id = [];
  inputs_from_worker_by_id = [];
}

abbrev task_graph : TaskGraph (lists TaskNode)
task_graph =
    elim (from_resolved_pipeline (lists TaskNode) (lists PackageNode) package_graph pipeline) [
      | ok g ↦ g
      | err e ↦ no_graph
    ]

program : Unit {0}
unfolding lists read_workspace_dependency_names resolve_names insert_nodes collect_dependency_edges
    add_edges build node_index dependencies_of offer offer_all explore transitive_neighbors
    transitive_dependents_of topological_order dependency_names transitive_upstream_packages
    upstream_source_package is_direct_upstream is_transitive_upstream task_definition_candidates
    task_definition if_defined add_edge_if_present add_edges_if_present add_tasks expand_dependency
    add_references add_dependencies validate_acyclic from_resolved_pipeline lookup insert
program = tt

plain_graph_built : build (lists PackageNode) read packages ≡ ok plain_graph
unfolding program
plain_graph_built = refl

task_graph_built :
    from_resolved_pipeline (lists TaskNode) (lists PackageNode) package_graph pipeline
    ≡ ok task_graph
unfolding program
task_graph_built = refl

-- The test of `app` has an edge to both builds, and so has the root task, since `app` is the root.
edges :
    (lists TaskNode).edge_references task_graph.graph
    ≡ (0, 1) ∷ (0, 2) ∷ (1, 2) ∷ (3, 1) ∷ (3, 2) ∷ []
unfolding program
edges = refl

dependents_of_base :
    transitive_dependents_of (lists PackageNode) package_graph ("base" ∷ "nothing" ∷ [])
    ≡ ok ("app" ∷ "lib" ∷ "base" ∷ [])
unfolding program
dependents_of_base = refl

absent : {A : Type 0} ⦃e : PartialEq A⦄ (a : A) (xs : List A) → contains xs a ≡ false → ¬ In a xs
absent a xs h i = ground (arith, In-contains a xs i)

tasks-Distinct : Distinct (keys tasks)
tasks-Distinct = (
  absent (task_id "app" "test")
      (task_id "lib" "build" ∷ task_id "base" "build" ∷ task_id "//root" "check" ∷ []) refl,
  (
    absent (task_id "lib" "build") (task_id "base" "build" ∷ task_id "//root" "check" ∷ []) refl,
    (
      absent (task_id "base" "build") (task_id "//root" "check" ∷ []) refl,
      (absent (task_id "//root" "check") [] refl, tt),
    ),
  ),
)

built_dependencies_example :
    Finds (dependencies_of (lists PackageNode) package_graph "lib") (Depends read packages "lib")
built_dependencies_example =
    built_dependencies (lists PackageNode) (lists-IsPetgraph PackageNode) read packages plain_graph
      plain_graph_built (some "app") "lib" (inr (inr (inl refl)))

built_dependents_example :
    (names : List String) × (transitive_dependents_of
        (lists PackageNode)
        package_graph
        ("base" ∷ "nothing" ∷ [])
      ≡ ok names)
    × ((m : String)
        → In m names ↔ (
            (seed : String) × In seed ("base" ∷ "nothing" ∷ [])
            × In seed (package_names packages)
            × Chain (λ n m. Depends read packages m n) seed m))
built_dependents_example =
    built_dependents (lists PackageNode) (lists-IsPetgraph PackageNode) read packages plain_graph
      plain_graph_built (some "app") ("base" ∷ "nothing" ∷ [])

built-Upstream_example :
    (names : List String) × (transitive_upstream_packages (lists PackageNode) package_graph "app"
      ≡ ok names)
    × ((m : String) → In m names ↔ Upstream read packages "app" m)
built-Upstream_example =
    built-Upstream (lists PackageNode) (lists-IsPetgraph PackageNode) read packages plain_graph
      plain_graph_built (some "app") "app" (inr (inl refl))

plan_edges_example :
    Linked
      (lists TaskNode)
      (lists-IsPetgraph TaskNode)
      task_graph
      (task_id "//root" "check")
      (task_id "base" "build")
    ↔ Requires
        (lists PackageNode)
        read
        packages
        package_graph
        pipeline
        (task_id "//root" "check")
        (task_id "base" "build")
plan_edges_example =
    plan_edges (lists PackageNode) (lists-IsPetgraph PackageNode) read packages plain_graph
      plain_graph_built (some "app") (lists TaskNode) (lists-IsPetgraph TaskNode) pipeline
      task_graph tasks-Distinct task_graph_built (task_id "//root" "check") (task_id "base" "build")

plan_finishes_example :
    (s : WalkerState) × (from_graph (lists TaskNode) task_graph.graph ≡ some s)
    × ((outcome accepts : ℕ → Bool)
        → ((n : ℕ) → accepts n ≡ true)
        → (next : List ℕ → ℕ) → ((js : List ℕ) (n : ℕ) → In n js → In (next js) js)
        → IsFinished (run accepts (run_schedule outcome accepts next s) s))
plan_finishes_example =
    plan_finishes (lists PackageNode) (lists-IsPetgraph PackageNode) read packages plain_graph
      plain_graph_built (some "app") (lists TaskNode) (lists-IsPetgraph TaskNode) pipeline
      task_graph tasks-Distinct task_graph_built

linked :
    Linked
      (lists TaskNode)
      (lists-IsPetgraph TaskNode)
      task_graph
      (task_id "//root" "check")
      (task_id "base" "build")
unfolding program
linked = (3, 2, refl, refl, inr (inr (inr (inr (inl refl)))))

needed :
    Requires
      (lists PackageNode)
      read
      packages
      package_graph
      pipeline
      (task_id "//root" "check")
      (task_id "base" "build")
needed =
    (plan_edges (lists PackageNode) (lists-IsPetgraph PackageNode) read packages plain_graph
        plain_graph_built (some "app") (lists TaskNode) (lists-IsPetgraph TaskNode) pipeline
        task_graph tasks-Distinct task_graph_built (task_id "//root" "check")
        (task_id "base" "build")).0
      linked

starts : (s : WalkerState) × (from_graph (lists TaskNode) task_graph.graph ≡ some s)
starts =
    let (s, started, rest) =
      plan_finishes (lists PackageNode) (lists-IsPetgraph PackageNode) read packages plain_graph
        plain_graph_built (some "app") (lists TaskNode) (lists-IsPetgraph TaskNode) pipeline
        task_graph tasks-Distinct task_graph_built in
    (s, started)

abbrev outcome : ℕ → Bool
outcome n = true

plan_order_example :
    (a b : ℕ) × (lookup (task_id "//root" "check") task_graph.indices_by_id ≡ some a)
    × (lookup (task_id "base" "build") task_graph.indices_by_id ≡ some b)
    × (In a (run outcome ((2, true) ∷ (1, true) ∷ []) starts.0).sent
        → lookup b (run outcome ((2, true) ∷ (1, true) ∷ []) starts.0).walker.states
          ≡ some succeeded)
plan_order_example =
    plan_order (lists PackageNode) (lists-IsPetgraph PackageNode) read packages plain_graph
      plain_graph_built (some "app") (lists TaskNode) (lists-IsPetgraph TaskNode) pipeline
      task_graph tasks-Distinct task_graph_built starts.0 starts.1 outcome outcome
      ((2, true) ∷ (1, true) ∷ []) (refl, (refl, tt)) (task_id "//root" "check")
      (task_id "base" "build") needed

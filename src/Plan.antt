-- ===== src/Plan.antt =====
-- A workspace from its manifests to the run of its tasks: the package graph
-- (crates/luchta-workspace/src/package_graph.rs), the task graph
-- (crates/luchta-engine/src/task_graph.rs) and the walker (crates/luchta-engine/src/walker.rs) together.
mod Samples
use luchta.Prelude.{
  ℕ, ◌≡◌, ◌↔◌, Bool, true, Option, none, some, Result, ok, err, bind-ok, List, [], In, Distinct,
  nat_eq, subst, sym,
}
use luchta.Prelude.Maps.{Map, lookup, keys}
use luchta.Petgraph.{Digraph, IsPetgraph}
use luchta.Types.{PackageName, TaskId, task_id_eq}
use luchta.PackageGraph.{
  PackageNode, PackageGraph, WorkspaceError, insert_nodes, build, with_root_package,
  dependencies_of, dependents_of,
}
use luchta.PackageGraph.Names.{IsOk, package_names, insert_nodes-Distinct}
use luchta.PackageGraph.Edges.{Read, IsBuilt, build-IsBuilt}
use luchta.PackageGraph.Depends.{Depends}
use luchta.PackageGraph.Neighbors.{Finds, dependencies_of-Finds, dependents_of-Finds}
use luchta.PackageGraph.Search.Chain.{Chain}
use luchta.PackageGraph.Closure.{
  Direction, outgoing, incoming, transitive_neighbors, transitive_dependents_of,
  transitive_dependencies_of,
}
use luchta.PackageGraph.Closure.Reached.{StepsTo, transitive_neighbors-Chain}
use luchta.Pipeline.{ResolvedPipeline}
use luchta.TaskGraph.{TaskNode, TaskGraph, topological_order}
use luchta.TaskGraph.Upstream.{transitive_upstream_packages}
use luchta.TaskGraph.Upstream.Meaning.{Upstream, transitive_upstream_packages-Upstream}
use luchta.TaskGraph.Edges.{from_resolved_pipeline}
use luchta.TaskGraph.Edges.Tasks.{Linked, IsTasks}
use luchta.TaskGraph.Edges.References.{Requires}
use luchta.TaskGraph.Edges.Meaning.{from_resolved_pipeline-Linked}
use luchta.Walker.{succeeded, WalkerState, run}
use luchta.Walker.Driver.Dispatch.{Agrees}
use luchta.Walker.Driver.Finish.{IsFinished}
use luchta.Walker.Outcome.{run_schedule}
use luchta.Walker.Start.{from_graph}
use luchta.Walker.Start.Total.{from_graph-some, toposort_of_order}
use luchta.Walker.Runs.{dispatch_order, run_finishes}

-- The graph as it is, or tagged with the name of the workspace's root package.
abbrev pub tagged : (w : Digraph PackageNode) → Option PackageName → PackageGraph w → PackageGraph w
tagged w none g = g
tagged w (some name) g = with_root_package w g name

module _ (w : Digraph PackageNode) (package_laws : IsPetgraph w) (read : Read)
    (packages : List PackageNode) (plain : PackageGraph w)
    (built : build w read packages ≡ ok plain) (root_name : Option PackageName) where
  abbrev pub pg : PackageGraph w
  pg = tagged w root_name plain

  pub graph-IsBuilt : IsBuilt w package_laws read packages pg
  graph-IsBuilt = keep root_name (build-IsBuilt w package_laws read packages plain built)
    where
      keep :
          (name : Option PackageName)
          → IsBuilt w package_laws read packages plain
          → IsBuilt w package_laws read packages (tagged w name plain)
      keep none v = v
      keep (some name) v = record {
        indexed = v.indexed;
        listed = v.listed;
        edges_iff = v.edges_iff;
      }

  -- In a package graph that `build` returned for a petgraph graph, whether tagged with a root package or
  -- not, no two packages have the same name.
  names-Distinct : Distinct (package_names packages)
  unfolding build
  names-Distinct =
      let (table, q, rest) = bind-ok (insert_nodes w packages w.empty []) _ plain built in
      (insert_nodes-Distinct w packages).0 (subst IsOk (sym q) tt)

  -- In a package graph that `build` returned for a petgraph graph, whether tagged with a root package or
  -- not, the direct dependencies of a
  -- package are the packages of the workspace that its manifest declares, by name.
  pub built_dependencies :
      (n : PackageName)
      → In n (package_names packages)
      → Finds (dependencies_of w pg n) (Depends read packages n)
  built_dependencies = dependencies_of-Finds w package_laws read packages pg graph-IsBuilt

  -- In a package graph that `build` returned for a petgraph graph, whether tagged with a root package or
  -- not, the transitive dependents of some
  -- seeds always exist: they are the seeds that are packages, with each package from which
  -- dependencies lead to one of these.
  pub built_dependents :
      (seeds : List PackageName)
      → (names : List PackageName) × (transitive_dependents_of w pg seeds ≡ ok names)
        × ((m : PackageName)
            → In m names ↔ (
                (seed : PackageName) × In seed seeds
                × In seed (package_names packages)
                × Chain (λ n m. Depends read packages m n) seed m))
  unfolding transitive_dependents_of
  built_dependents seeds =
      transitive_neighbors-Chain w package_laws read packages pg graph-IsBuilt seeds incoming

  -- In a package graph that `build` returned for a petgraph graph, whether tagged with a root package or
  -- not, the transitive upstream packages
  -- of a package of the workspace are those that one dependency or more leads to.
  pub built-Upstream :
      (n : PackageName)
      → In n (package_names packages)
      → (names : List PackageName) × (transitive_upstream_packages w pg n ≡ ok names)
        × ((m : PackageName) → In m names ↔ Upstream read packages n m)
  built-Upstream =
      transitive_upstream_packages-Upstream w package_laws read packages pg graph-IsBuilt
        names-Distinct

  module _ (d : Digraph TaskNode) (laws : IsPetgraph d) (p : ResolvedPipeline) (g : TaskGraph d)
      (unique : Distinct (keys p.tasks_by_id)) (made : from_resolved_pipeline d w pg p ≡ ok g) where
    task_graph :
        IsTasks d laws p.tasks_by_id g
        × ((s t : TaskId) → Linked d laws g s t ↔ Requires w read packages pg p s t)
        × ((order : List TaskNode) × (topological_order d g.graph ≡ ok order))
    task_graph =
        from_resolved_pipeline-Linked w package_laws read packages pg graph-IsBuilt names-Distinct d
          laws p g unique made

    -- For a package graph that `build` returned, whether tagged with a root package or not, a pipeline that holds each task once, and petgraph
    -- graphs: a task graph that is built has an edge from one task to another exactly when a
    -- reference of the first asks for the second, which the pipeline has.
    pub plan_edges : (s t : TaskId) → Linked d laws g s t ↔ Requires w read packages pg p s t
    plan_edges = task_graph.1

    -- For a package graph that `build` returned, whether tagged with a root package or not, a pipeline that holds each task once, and petgraph
    -- graphs: a task graph that is built has a walker, whose run ends with all nodes terminal while
    -- the receiver takes every message, whichever awaited task ends next.
    pub plan_finishes :
        (s : WalkerState) × (from_graph d g.graph ≡ some s)
        × ((outcome accepts : ℕ → Bool)
            → ((n : ℕ) → accepts n ≡ true)
            → (next : List ℕ → ℕ) → ((js : List ℕ) (n : ℕ) → In n js → In (next js) js)
            → IsFinished (run accepts (run_schedule outcome accepts next s) s))
    plan_finishes =
        let (names, sorted) = task_graph.2 in
        let (order, q) = toposort_of_order d g.graph names sorted in
        let (s, started) =
          from_graph-some d laws g.graph g.indices_by_id task_graph.0.indexed order q in
        (s, started, run_finishes d laws g.graph s started task_graph.0.indexed.nodes_distinct)

    -- For a package graph that `build` returned, whether tagged with a root package or not, a pipeline that holds each task once, and petgraph
    -- graphs: whenever the walker of a task graph that is built has sent a task, all tasks that its
    -- references ask for have succeeded.
    pub plan_order :
        (s : WalkerState)
        → from_graph d g.graph ≡ some s
        → (outcome accepts : ℕ → Bool) (joined : List (ℕ × Bool)) → Agrees outcome joined
        → (i j : TaskId) → Requires w read packages pg p i j
        → (a b : ℕ) × (lookup i g.indices_by_id ≡ some a)
          × (lookup j g.indices_by_id ≡ some b)
          × (In a (run accepts joined s).sent
              → lookup b (run accepts joined s).walker.states ≡ some succeeded)
    plan_order s started outcome accepts joined agrees i j needs =
        let (a, b, h, k, e) = (plan_edges i j).1 needs in
        (
          a,
          b,
          h,
          k,
          λ sent.
              (dispatch_order d laws g.graph s started task_graph.0.indexed.nodes_distinct outcome
                  accepts joined agrees).1
                a b sent e,
        )

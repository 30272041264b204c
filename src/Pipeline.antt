-- ===== src/Pipeline.antt =====
-- The pipeline of crates/luchta-engine/src/task_graph.rs: the tasks of every package before they
-- become nodes, with what workers and prunes change. The maps and sets of the source are lists that
-- hold each key or element once.
pub mod Changes
pub mod Validation
mod Samples
use Prim.Native.String.{compare as compare_str}
use luchta.Prelude.{
  ℕ, Bool, true, false, not, ◌&&◌, ◌||◌, Option, none, some, Result, ok, err, ◌>>=◌, List, [], ◌∷◌,
  ◌++◌, String, string_eq, option_eq, PartialEq, ◌==◌, map, any, filter, contains, if◌then◌else◌,
}
use luchta.Prelude.Maps.{Map, lookup, lookup_or, insert, remove, keys, values}
use luchta.Prelude.Sort.{sort_by}
use luchta.Text.{append, is_empty, strip_prefix, split_once}
use luchta.Types.{
  PackageName, TaskName, TaskId, task_id, task_id_eq, task_is_root, task_id_to_string,
  root_package_name, DependsOn, depends_on_eq, TaskDefinition, WorkerDefinition,
}
use luchta.Petgraph.{Digraph}
use luchta.PackageGraph.{PackageNode, PackageGraph, WorkspaceError, package_order, set_insert}

pub data PipelineKey : Type 0 where
  global_key : (task : TaskName) → PipelineKey
  package_key : (pkg : PackageName) (task : TaskName) → PipelineKey
  root_key : (task : TaskName) → PipelineKey

pub record ResolvedPipeline : Type 0 where
  pub tasks_by_id : Map TaskId TaskDefinition
  pub task_names_by_package : Map PackageName (List TaskName)
  pub root_task_names : List TaskName
  pub prune_reasons_by_id : Map TaskId String
  pub inputs_from_worker_by_id : Map TaskId Bool

pub data PruneOutcome : Type 0 where
  pruned : (reason : Option String) → PruneOutcome
  rejected : (message : String) → PruneOutcome

pub record PrunedTask : Type 0 where
  pub id : TaskId
  pub outcome : PruneOutcome

abbrev pub describe : PruneOutcome → String
describe (pruned none) = "pruned by worker"
describe (pruned (some reason)) = reason
describe (rejected message) = message

-- The key of an entry; `none` when the entry is dropped.
unfoldable pub parse_key : List PackageName → String → Option PipelineKey
parse_key package_names raw = elim (strip_prefix "#" raw) [
  | some task ↦ if is_empty task then none else some (root_key task)
  | none ↦ elim (split_once "#" raw) [
    | some (p, task) ↦
        if is_empty p || is_empty task || not (contains package_names p)
        then none
        else some (package_key p task)
    | none ↦ some (global_key raw)
  ]
]

unfoldable pub parse_pipeline_entries :
    Map TaskName TaskDefinition → List PackageName → List (PipelineKey × TaskDefinition)
parse_pipeline_entries [] package_names = []
parse_pipeline_entries ((raw, definition) ∷ pipeline) package_names =
    let rest = parse_pipeline_entries pipeline package_names in
    elim (parse_key package_names raw) [ none ↦ rest | some key ↦ (key, definition) ∷ rest ]

-- The tables that `build` sorts the entries into.
pub record Tables : Type 0 where
  pub global_tasks : Map TaskName TaskDefinition
  pub package_tasks : Map TaskId TaskDefinition
  pub root_tasks : Map TaskName TaskDefinition

unfoldable pub sort_entries : List (PipelineKey × TaskDefinition) → Tables → Tables
sort_entries [] t = t
sort_entries ((global_key task, definition) ∷ entries) t =
    sort_entries entries (record t { global_tasks = insert task definition t.global_tasks })
sort_entries ((package_key p task, definition) ∷ entries) t =
    sort_entries entries
      (record t { package_tasks = insert (task_id p task) definition t.package_tasks })
sort_entries ((root_key task, definition) ∷ entries) t =
    sort_entries entries (record t { root_tasks = insert task definition t.root_tasks })

-- The definitions for one package, with the names of its tasks so far.
unfoldable pub add_package_tasks :
    PackageName
    → Map TaskName TaskDefinition
    → Map TaskId TaskDefinition
    → List TaskName
    → Map TaskId TaskDefinition × List TaskName
add_package_tasks p [] tasks names = (tasks, names)
add_package_tasks p ((task, definition) ∷ more) tasks names =
    add_package_tasks p more (insert (task_id p task) definition tasks) (set_insert names task)

-- The entries of `package_tasks` for one package.
abbrev pub tasks_of_package : PackageName → Map TaskId TaskDefinition → Map TaskName TaskDefinition
tasks_of_package p [] = []
tasks_of_package p ((i, definition) ∷ more) =
    if i.pkg == p then (i.task, definition) ∷ tasks_of_package p more else tasks_of_package p more

-- The loop of `build` over the packages. Global tasks skip the workspace's root package.
unfoldable pub expand_packages :
    Tables
    → (root_package : Option PackageName) → List PackageName
    → ResolvedPipeline
    → ResolvedPipeline
unfolding add_package_tasks
expand_packages t root_package [] p = p
expand_packages t root_package (name ∷ names) p =
    let globals = if root_package == some name then [] else t.global_tasks in
    let (tasks, task_names) = add_package_tasks name globals p.tasks_by_id [] in
    let (tasks', task_names') =
      add_package_tasks name (tasks_of_package name t.package_tasks) tasks task_names in
    expand_packages t root_package names (record p {
      tasks_by_id = tasks';
      task_names_by_package = elim task_names' [
        | [] ↦ p.task_names_by_package
        | task ∷ more ↦ insert name (task ∷ more) p.task_names_by_package
      ];
    })

unfoldable pub add_root_tasks : Map TaskName TaskDefinition → ResolvedPipeline → ResolvedPipeline
add_root_tasks [] p = p
add_root_tasks ((task, definition) ∷ more) p = add_root_tasks more (record p {
  tasks_by_id = insert (task_id root_package_name task) definition p.tasks_by_id;
  root_task_names = set_insert p.root_task_names task;
})

abbrev no_tasks : ResolvedPipeline
no_tasks = record {
  tasks_by_id = [];
  task_names_by_package = [];
  root_task_names = [];
  prune_reasons_by_id = [];
  inputs_from_worker_by_id = [];
}

-- `ResolvedPipeline::build`
unfoldable pub build_pipeline :
    (d : Digraph PackageNode)
    → PackageGraph d
    → Map TaskName TaskDefinition
    → Result ResolvedPipeline WorkspaceError
unfolding parse_pipeline_entries sort_entries expand_packages add_root_tasks
build_pipeline d g pipeline = do
  packages ← package_order d g
  let names = map (λ (n : PackageNode). n.name) packages
  let t =
      sort_entries (parse_pipeline_entries pipeline names)
        (record { global_tasks = []; package_tasks = []; root_tasks = [] })
  ok (add_root_tasks t.root_tasks (expand_packages t g.root_package names no_tasks))

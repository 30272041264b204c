-- ===== src/Pipeline/Changes.antt =====
-- What happens to the pipeline after it is built: the decisions of the workers, the dependencies that
-- workers bring, and prunes (crates/luchta-engine/src/task_graph.rs; the decisions themselves are
-- types of crates/luchta-worker/src/lib.rs).
pub mod Decisions
pub mod Injection
pub mod Prunes
use Prim.Native.String.{compare as compare_str}
use luchta.Prelude.{
  ℕ, Bool, true, false, not, Option, none, some, Result, ok, err, List, [], ◌∷◌, ◌++◌, String,
  string_eq, ◌==◌, map, filter, contains, if◌then◌else◌,
}
use luchta.Prelude.Maps.{Map, lookup, insert, remove}
use luchta.Prelude.Sort.{sort_by}
use luchta.Types.{
  TaskId, task_id_eq, task_is_root, task_id_to_string, DependsOn, depends_on_eq, TaskDefinition,
  WorkerDefinition,
}
use luchta.PackageGraph.{set_insert}
use luchta.Pipeline.{ResolvedPipeline, PrunedTask, pruned, rejected, describe}

pub record TaskModification : Type 0 where
  pub command : Option String
  pub depends_on : Option (List DependsOn)
  pub weight : Option ℕ
  pub dependencies : Option (List String)
  pub inputs : Option (List String)
  pub tool_version : Option String

pub data ResolveDecision : Type 0 where
  accept : ResolveDecision
  modify : TaskModification → ResolveDecision
  prune : (reason : Option String) → ResolveDecision
  reject : (message : String) → ResolveDecision

pub data ResolveMode : Type 0 where
  run_mode check_mode : ResolveMode

pub data ResolveError : Type 0 where
  worker_error rejected_error : (task : TaskId) (message : String) → ResolveError

-- A part that is given replaces the old one.
abbrev pub replace : {A : Type 0} → Option A → A → A
replace none old = old
replace (some new) old = new

abbrev pub replace_some : {A : Type 0} → Option A → Option A → Option A
replace_some none old = old
replace_some (some new) old = some new

-- `TaskModification::apply_to`
unfoldable pub apply_to : TaskModification → TaskDefinition → TaskDefinition
apply_to m definition = record definition {
  command = replace_some m.command definition.command;
  depends_on = replace m.depends_on definition.depends_on;
  weight = replace m.weight definition.weight;
  dependencies = replace m.dependencies definition.dependencies;
  inputs = replace m.inputs definition.inputs;
  tool_version = replace_some m.tool_version definition.tool_version;
}

-- `get_mut`, when there is an entry.
abbrev pub adjust :
    TaskId
    → (TaskDefinition → TaskDefinition)
    → Map TaskId TaskDefinition
    → Map TaskId TaskDefinition
adjust i f tasks = elim (lookup i tasks) [ none ↦ tasks | some t ↦ insert i (f t) tasks ]

abbrev pub is_given : {A : Type 0} → Option A → Bool
is_given none = false
is_given (some _) = true

abbrev pub apply_modification : TaskId → TaskModification → ResolvedPipeline → ResolvedPipeline
apply_modification i m p = record p {
  inputs_from_worker_by_id =
      if is_given m.inputs
      then insert i true p.inputs_from_worker_by_id
      else p.inputs_from_worker_by_id;
  tasks_by_id = adjust i (apply_to m) p.tasks_by_id;
}

-- The loop of phase 3 of `resolve`, with the pruned tasks so far.
unfoldable pub apply_outcomes :
    ResolveMode
    → List (TaskId × Result ResolveDecision String)
    → ResolvedPipeline
    → List PrunedTask
    → Result (ResolvedPipeline × List PrunedTask) ResolveError
unfolding apply_to
apply_outcomes mode [] p done = ok (p, done)
apply_outcomes mode ((i, err message) ∷ outcomes) p done = err (worker_error i message)
apply_outcomes mode ((i, ok accept) ∷ outcomes) p done = apply_outcomes mode outcomes p done
apply_outcomes mode ((i, ok (modify m)) ∷ outcomes) p done =
    apply_outcomes mode outcomes (apply_modification i m p) done
apply_outcomes mode ((i, ok (prune reason)) ∷ outcomes) p done =
    apply_outcomes mode outcomes p (done ++ record { id = i; outcome = pruned reason } ∷ [])
apply_outcomes check_mode ((i, ok (reject message)) ∷ outcomes) p done =
    err (rejected_error i message)
apply_outcomes run_mode ((i, ok (reject message)) ∷ outcomes) p done =
    apply_outcomes run_mode outcomes p (done ++ record { id = i; outcome = rejected message } ∷ [])

-- The outcomes are applied in the order of the printed ids.
unfoldable pub resolve :
    ResolveMode
    → List (TaskId × Result ResolveDecision String)
    → ResolvedPipeline
    → Result (ResolvedPipeline × List PrunedTask) ResolveError
resolve mode outcomes p =
    apply_outcomes mode
      (sort_by
        (λ (a b : TaskId × Result ResolveDecision String).
          compare_str (task_id_to_string a.0) (task_id_to_string b.0))
        outcomes)
      p []

-- `HashSet::remove`
abbrev pub set_remove : String → List String → List String
set_remove x xs = filter (λ y. not (y == x)) xs

-- A package without names is dropped.
abbrev pub put_names : String → List String → Map String (List String) → Map String (List String)
put_names name [] names = remove name names
put_names name (task ∷ tasks) names = insert name (task ∷ tasks) names

unfoldable pub remove_task_name : TaskId → Map String (List String) → Map String (List String)
remove_task_name i names = elim (lookup i.pkg names) [
  | none ↦ names
  | some tasks ↦ put_names i.pkg (set_remove i.task tasks) names
]

unfoldable pub apply_prune : PrunedTask → ResolvedPipeline → ResolvedPipeline
apply_prune entry p = record p {
  prune_reasons_by_id = insert entry.id (describe entry.outcome) p.prune_reasons_by_id;
  tasks_by_id = remove entry.id p.tasks_by_id;
  task_names_by_package = remove_task_name entry.id p.task_names_by_package;
  root_task_names =
      if task_is_root entry.id
      then set_remove entry.id.task p.root_task_names
      else p.root_task_names;
}

unfoldable pub apply_prunes : List PrunedTask → ResolvedPipeline → ResolvedPipeline
apply_prunes [] p = p
apply_prunes (entry ∷ entries) p = apply_prunes entries (apply_prune entry p)

-- The set `existing` of `inject_worker_dependencies` holds what the list holds.
unfoldable pub inject_into : (own worker : List DependsOn) → List DependsOn
inject_into own [] = own
inject_into own (dep ∷ deps) = inject_into (set_insert own dep) deps

-- The definition of a task's worker, when it names a defined one.
abbrev pub worker_of : Map String WorkerDefinition → Option String → Option WorkerDefinition
worker_of workers none = none
worker_of workers (some name) = lookup name workers

abbrev pub inject_from : Option WorkerDefinition → TaskDefinition → TaskDefinition
inject_from none definition = definition
inject_from (some worker) definition = record definition {
  depends_on = inject_into definition.depends_on worker.depends_on;
}

unfoldable pub inject_definition : Map String WorkerDefinition → TaskDefinition → TaskDefinition
inject_definition workers definition = inject_from (worker_of workers definition.worker) definition

unfoldable pub inject_worker_dependencies :
    Map String WorkerDefinition → ResolvedPipeline → ResolvedPipeline
inject_worker_dependencies workers p = record p {
  tasks_by_id =
      map (λ (e : TaskId × TaskDefinition). (e.0, inject_definition workers e.1)) p.tasks_by_id;
}

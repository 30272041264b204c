-- ===== src/Pipeline/Samples.antt =====
-- A pipeline of three tasks, an injected dependency and a prune
-- (crates/luchta-engine/src/task_graph.rs).
use luchta.Prelude.{
  ok, Result, In, ◌↔◌, ◌≡◌, refl, none, some, List, [], ◌∷◌, ◌++◌, String, any, if◌then◌else◌, ◌==◌,
  string_eq,
}
use luchta.Prelude.Maps.{Map, lookup}
use luchta.Types.{
  TaskId, task_id, task_id_eq, root_package_name, DependsOn, same_package, root, TaskDefinition,
  WorkerDefinition, new_definition,
}
use luchta.Pipeline.{ResolvedPipeline, PrunedTask, pruned}
use luchta.Pipeline.Changes.{apply_prunes, inject_worker_dependencies}
use luchta.Pipeline.Changes.{ResolveDecision, prune, reject, check_mode, resolve}
use luchta.Pipeline.Changes.Decisions.{IsAcceptable, Succeeds, resolve-Succeeds}
use luchta.Pipeline.Changes.Injection.{Added, inject_worker_dependencies_lem}
use luchta.Pipeline.Changes.Prunes.{apply_prunes_lem}
use luchta.Pipeline.Validation.{
  contains_package_task, contains_root_task, specific_reason, root_reason,
}
use luchta.Pipeline.Validation.Tolerance.{
  context, specific_reason-apply_prunes, root_reason-apply_prunes,
}

abbrev app_build : TaskDefinition
app_build = record (new_definition (same_package "gen" ∷ root "setup" ∷ []) 1) {
  worker = some "yarn";
}

abbrev yarn : WorkerDefinition
yarn = record {
  command = "yarn-worker";
  depends_on = root "setup" ∷ root "install" ∷ [];
  cache = none;
  env = [];
}

abbrev workers : Map String WorkerDefinition
workers = ("yarn", yarn) ∷ []

abbrev pipeline : ResolvedPipeline
pipeline = record {
  tasks_by_id =
      (task_id "app" "build", app_build)
      ∷ (task_id "app" "gen", new_definition [] 1)
      ∷ (task_id root_package_name "setup", new_definition [] 1)
      ∷ [];
  task_names_by_package = ("app", "build" ∷ "gen" ∷ []) ∷ [];
  root_task_names = "setup" ∷ [];
  prune_reasons_by_id = [];
  inputs_from_worker_by_id = [];
}

abbrev entries : List PrunedTask
entries =
    record { id = task_id "app" "gen"; outcome = pruned none }
    ∷ record { id = task_id root_package_name "setup"; outcome = pruned none }
    ∷ []

tables : Unit {0}
unfolding lookup specific_reason root_reason contains_package_task contains_root_task apply_prunes
tables = tt

app_build_found : lookup (task_id "app" "build") pipeline.tasks_by_id ≡ some app_build
unfolding tables
app_build_found = refl

yarn_known : lookup "yarn" workers ≡ some yarn
unfolding tables
yarn_known = refl

gen_live : specific_reason (context ("app" ∷ []) [] pipeline) (task_id "app" "gen") ≡ none
unfolding tables
gen_live = refl

setup_live : root_reason (context ("app" ∷ []) [] pipeline) "setup" ≡ none
unfolding tables
setup_live = refl

inject_worker_dependencies_lem_example :
    (added : List DependsOn) × Added app_build.depends_on yarn.depends_on added
    × (lookup (task_id "app" "build") (inject_worker_dependencies workers pipeline).tasks_by_id
        ≡ some (record app_build { depends_on = app_build.depends_on ++ added }))
inject_worker_dependencies_lem_example =
    inject_worker_dependencies_lem workers pipeline (task_id "app" "build") app_build "yarn" yarn
      app_build_found refl yarn_known

apply_prunes_lem_example :
    lookup (task_id "app" "gen") (apply_prunes entries pipeline).tasks_by_id ≡ (
      if any (λ (e : PrunedTask). e.id == task_id "app" "gen") entries
      then none
      else lookup (task_id "app" "gen") pipeline.tasks_by_id)
apply_prunes_lem_example = apply_prunes_lem (task_id "app" "gen") entries pipeline

specific_reason-apply_prunes_example :
    specific_reason (context ("app" ∷ []) entries pipeline) (task_id "app" "gen") ≡ none
specific_reason-apply_prunes_example =
    specific_reason-apply_prunes ("app" ∷ []) entries pipeline (task_id "app" "gen") gen_live

root_reason-apply_prunes_example :
    root_reason (context ("app" ∷ []) entries pipeline) "setup" ≡ none
root_reason-apply_prunes_example =
    root_reason-apply_prunes ("app" ∷ []) entries pipeline "setup" setup_live

-- `yarn` prunes one task and rejects another.
abbrev outcomes : List (TaskId × Result ResolveDecision String)
outcomes =
    (task_id "app" "gen", ok (prune none)) ∷ (task_id "app" "build", ok (reject "no script")) ∷ []

resolve-Succeeds_example :
    Succeeds (resolve check_mode outcomes pipeline)
    ↔ ((o : TaskId × Result ResolveDecision String) → In o outcomes → IsAcceptable check_mode o)
resolve-Succeeds_example = resolve-Succeeds check_mode outcomes pipeline

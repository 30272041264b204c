-- ===== src/TaskGraph/Checks/Samples.antt =====
-- Two tasks that are checked (crates/luchta-engine/src/task_graph.rs).
use luchta.Prelude.{◌≡◌, refl, ◌↔◌, some, none, ok, map, [], ◌∷◌, In, String, string_eq}
use luchta.Prelude.Maps.{Map, lookup, insert}
use luchta.Text.{strip_prefix, split_once, contains_char}
use luchta.Types.{
  TaskId, task_id, TaskDefinition, new_definition, same_package, classify_pattern, cache_enabled,
  has_non_blank_command,
}
use luchta.Glob.{split_negation, is_negated, unescape_literal}
use luchta.Glob.Samples.{spelled}
use luchta.InputExpansion.Paths.{split_slashes, parts_components, components}
use luchta.Petgraph.Concrete.{lists}
use luchta.PackageGraph.{PackageNode, PackageGraph, package_order}
use luchta.Pipeline.{
  ResolvedPipeline, pruned, parse_key, parse_pipeline_entries, sort_entries, add_package_tasks,
  expand_packages, add_root_tasks, build_pipeline,
}
use luchta.Pipeline.Changes.{inject_worker_dependencies, apply_prunes}
use luchta.Pipeline.Validation.{
  unknown_task_everywhere, DependencyContext, contains_package_task, contains_root_task,
  task_exists_in_any_package, same_package_reason, dead_dependency_reason,
}
use luchta.TaskGraph.Checks.{
  validate_worker, validate_references, collect_diagnostics, new_context,
  validate_tasks_with_pruned,
}
use luchta.TaskGraph.Checks.CacheFiles.{
  pattern_stays_in_package, cache_file_pattern_stays_in_package, literal_matches_pattern,
  patterns_obviously_overlap, literal_is_excluded, literal_overlap_is_excluded,
  validate_cache_file_role_overlaps, validate_cache_file_definition,
}
use luchta.TaskGraph.Checks.Reasons.{
  dead_dependency_reference, unknown_worker, invalid_cache_file_pattern, cache_file_overlap,
  diagnostic,
}
use luchta.TaskGraph.Checks.Meaning.{Passes, validate_tasks-Passes}

abbrev build : TaskDefinition
build = record (new_definition [] 1) {
  worker = some "tsc";
  cache = some (record { cache_nonce = none });
  cache_files = "../out" ∷ "src" ∷ [];
  inputs = "src" ∷ [];
}

abbrev test : TaskDefinition
test = new_definition (same_package "lint" ∷ []) 1

abbrev context : DependencyContext
context = record {
  package_names = "a" ∷ [];
  resolved_pipeline = record {
    tasks_by_id = (task_id "a" "build", build) ∷ (task_id "a" "test", test) ∷ [];
    task_names_by_package = ("a", "build" ∷ "test" ∷ []) ∷ [];
    root_task_names = [];
    prune_reasons_by_id = [];
    inputs_from_worker_by_id = [];
  };
  pruned = [];
}

program : Unit {0}
unfolding lists package_order parse_key parse_pipeline_entries sort_entries add_package_tasks
    expand_packages add_root_tasks build_pipeline insert lookup strip_prefix split_once
    contains_char classify_pattern cache_enabled has_non_blank_command split_negation is_negated
    unescape_literal split_slashes parts_components components contains_package_task
    contains_root_task task_exists_in_any_package same_package_reason dead_dependency_reason
    pattern_stays_in_package cache_file_pattern_stays_in_package literal_matches_pattern
    patterns_obviously_overlap literal_is_excluded literal_overlap_is_excluded
    validate_cache_file_role_overlaps validate_cache_file_definition validate_worker
    validate_references collect_diagnostics
program = tt

diagnosed :
    collect_diagnostics spelled [] context
    ≡ diagnostic (task_id "a" "build") (unknown_worker "tsc")
      ∷ diagnostic (task_id "a" "build") (invalid_cache_file_pattern "../out")
      ∷ diagnostic (task_id "a" "build") (cache_file_overlap "src" "input" "src")
      ∷ diagnostic
          (task_id "a" "test")
          (dead_dependency_reference (same_package "lint") (unknown_task_everywhere "lint"))
      ∷ []
unfolding program
diagnosed = refl

abbrev no_packages : PackageGraph (lists PackageNode)
no_packages = record {
  graph = (lists PackageNode).empty;
  indices_by_name = [];
  root_package = none;
}

abbrev pipeline : Map String TaskDefinition
pipeline = ("#lint", build) ∷ ("#test", test) ∷ []

abbrev built : ResolvedPipeline
built = record {
  tasks_by_id = (task_id "//root" "lint", build) ∷ (task_id "//root" "test", test) ∷ [];
  task_names_by_package = [];
  root_task_names = "lint" ∷ "test" ∷ [];
  prune_reasons_by_id = [];
  inputs_from_worker_by_id = [];
}

pipeline_parsed : build_pipeline (lists PackageNode) no_packages pipeline ≡ ok built
unfolding program
pipeline_parsed = refl

validate_tasks-Passes_example :
    let p =
      apply_prunes
        (map (λ i. record { id = i; outcome = pruned none }) (task_id "//root" "lint" ∷ []))
        (inject_worker_dependencies [] built) in
    (validate_tasks_with_pruned spelled
        (lists PackageNode)
        no_packages
        pipeline
        []
        (task_id "//root" "lint" ∷ [])
      ≡ some (ok tt))
    ↔ ((i : TaskId) (definition : TaskDefinition)
        → In (i, definition) p.tasks_by_id
        → Passes spelled []
            (new_context spelled (lists PackageNode) no_packages p (task_id "//root" "lint" ∷ []))
            i
            definition)
validate_tasks-Passes_example =
    validate_tasks-Passes spelled (lists PackageNode) no_packages pipeline []
      (task_id "//root" "lint" ∷ []) built pipeline_parsed

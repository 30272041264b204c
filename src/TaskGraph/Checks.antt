-- ===== src/TaskGraph/Checks.antt =====
-- `validate_tasks` and the rules for cache files (crates/luchta-engine/src/task_graph.rs).
pub mod CacheFiles
pub mod Meaning
pub mod Reasons
mod Samples
use Prim.Native.Nat.{Ordering}
use Prim.Native.String.{compare as compare_str}
use luchta.Prelude.{
  ℕ, Bool, true, false, not, ◌&&◌, ◌||◌, Option, none, some, Result, ok, err, List, [], ◌∷◌, ◌++◌,
  String, string_eq, PartialEq, ◌==◌, map, any, filter, contains, if◌then◌else◌,
}
use luchta.Prelude.Maps.{Map, keys}
use luchta.Prelude.Sort.{sort_by, then_with}
use luchta.Text.{append}
use luchta.Petgraph.{Digraph}
use luchta.Types.{
  TaskId, task_id_eq, task_id_to_string, TaskName, DependsOn, depends_on_eq, as_config_string,
  TaskDefinition, WorkerDefinition, InputSemantics, literal, wildcard, classify_pattern,
  cache_enabled, has_non_blank_command,
}
use luchta.Glob.{Globset, split_negation, is_negated, unescape_literal}
use luchta.InputExpansion.Paths.{
  Component, root_dir, parent_dir, cur_dir, normal, components, starts_with_slash,
}
use luchta.PackageGraph.{PackageNode, PackageGraph, package_order}
use luchta.Pipeline.{ResolvedPipeline, PrunedTask, pruned, build_pipeline}
use luchta.Pipeline.Changes.{inject_worker_dependencies, apply_prunes}
use luchta.Pipeline.Validation.{
  DeadDependencyReason, unknown_task_everywhere, unknown_task_in_package, unknown_package,
  unknown_root_task, DependencyContext, dead_dependency_reason,
}
use luchta.TaskGraph.Checks.Reasons.{
  TaskValidationDiagnostic, TaskValidationReason, cache_file_overlap, cache_files_require_cache,
  command_without_worker, concat_map, dead_dependency_reference, dead_reason_beq,
  dead_reason_to_string, diagnostic, invalid_cache_file_pattern, reason_beq, reason_to_string,
  report, unknown_worker,
}
use luchta.TaskGraph.Checks.CacheFiles.{
  cache_file_pattern_stays_in_package, collides, glob_matches, is_literal, leads_out,
  literal_is_excluded, literal_matches_pattern, literal_overlap_is_excluded,
  pattern_stays_in_package, patterns_obviously_overlap, validate_cache_file_definition,
  validate_cache_file_role_overlaps,
}

module _ (g : Globset) where
  unfoldable pub validate_worker :
      Map String WorkerDefinition → TaskId → TaskDefinition → List TaskValidationDiagnostic
  validate_worker workers i definition = elim definition.worker [
    | some worker ↦
        report (not (contains (keys workers) worker)) (diagnostic i (unknown_worker worker))
    | none ↦ report (has_non_blank_command definition.command) (diagnostic i command_without_worker)
  ]

  -- The loop over the references of a task.
  unfoldable pub validate_references :
      DependencyContext → TaskId → TaskDefinition → List TaskValidationDiagnostic
  validate_references c i definition =
      concat_map
        (λ dependency. elim (dead_dependency_reason c i dependency) [
          | none ↦ []
          | some reason ↦ diagnostic i (dead_dependency_reference dependency reason) ∷ []
        ])
        definition.depends_on

  unfoldable pub collect_diagnostics :
      Map String WorkerDefinition → DependencyContext → List TaskValidationDiagnostic
  unfolding validate_worker validate_cache_file_definition validate_references
  collect_diagnostics workers c =
      concat_map
        (λ (e : TaskId × TaskDefinition).
          validate_worker workers e.0 e.1
          ++ (validate_cache_file_definition g e.0 e.1 ++ validate_references c e.0 e.1))
        c.resolved_pipeline.tasks_by_id

  abbrev pub compare_diagnostics : TaskValidationDiagnostic → TaskValidationDiagnostic → Ordering
  compare_diagnostics left right =
      then_with (compare_str (task_id_to_string left.id) (task_id_to_string right.id))
        (compare_str (reason_to_string left.reason) (reason_to_string right.reason))

  -- `Vec::dedup`: of equal neighbours the first is kept.
  unfoldable pub dedup : List TaskValidationDiagnostic → List TaskValidationDiagnostic
  dedup [] = []
  dedup (x ∷ []) = x ∷ []
  dedup (x ∷ y ∷ rest) =
      let shorter = dedup (x ∷ rest) in
      let longer = x ∷ dedup (y ∷ rest) in
      if x.id == y.id && reason_beq x.reason y.reason then shorter else longer

  unfoldable pub report_tasks :
      List TaskValidationDiagnostic → Result {0, 0} Unit (List TaskValidationDiagnostic)
  unfolding dedup
  report_tasks [] = ok tt
  report_tasks (found ∷ more) = err (dedup (sort_by compare_diagnostics (found ∷ more)))

  -- `DependencyContext::new`: without an order there are no names.
  unfoldable pub new_context :
      (d : Digraph PackageNode)
      → PackageGraph d
      → ResolvedPipeline
      → (pruned_ids : List TaskId) → DependencyContext
  new_context d graph p pruned_ids = record {
    package_names = elim (package_order d graph) [
      | ok packages ↦ map (λ (n : PackageNode). n.name) packages
      | err e ↦ []
    ];
    resolved_pipeline = p;
    pruned = pruned_ids;
  }

  -- `none` stands for an `expect` that fails.
  unfoldable pub validate_tasks_with_pruned :
      (d : Digraph PackageNode)
      → PackageGraph d
      → Map TaskName TaskDefinition
      → Map String WorkerDefinition
      → (pruned_ids : List TaskId) → Option (Result {0, 0} Unit (List TaskValidationDiagnostic))
  unfolding collect_diagnostics report_tasks new_context
  validate_tasks_with_pruned d graph pipeline workers pruned_ids =
      elim (build_pipeline d graph pipeline) [
        | err e ↦ none
        | ok built ↦ some (
            report_tasks (
              collect_diagnostics workers (
                new_context d graph
                  (apply_prunes (map (λ i. record { id = i; outcome = pruned none }) pruned_ids)
                    (inject_worker_dependencies workers built))
                  pruned_ids)))
      ]

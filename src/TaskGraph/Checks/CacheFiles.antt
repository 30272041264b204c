-- ===== src/TaskGraph/Checks/CacheFiles.antt =====
-- The rules for cache files (crates/luchta-engine/src/task_graph.rs).
pub mod Meaning
pub mod Overlap
pub mod Sound
use Prim.Native.Nat.{Ordering}
use Prim.Native.String.{compare as compare_str}
use luchta.Prelude.{
  ℕ, Bool, true, false, not, ◌&&◌, ◌||◌, Option, none, some, Result, ok, err, List, [], ◌∷◌, ◌++◌,
  String, string_eq, PartialEq, ◌==◌, map, any, filter, contains, if◌then◌else◌,
}
use luchta.Prelude.Maps.{Map, keys}
use luchta.Prelude.Sort.{sort_by, then_with}
use luchta.Text.{append}
use luchta.Petgraph.{Digraph}
use luchta.Types.{
  TaskId, task_id_eq, task_id_to_string, TaskName, DependsOn, depends_on_eq, as_config_string,
  TaskDefinition, WorkerDefinition, InputSemantics, literal, wildcard, classify_pattern,
  cache_enabled, has_non_blank_command,
}
use luchta.Glob.{Globset, split_negation, is_negated, unescape_literal}
use luchta.InputExpansion.Paths.{
  Component, root_dir, parent_dir, cur_dir, normal, components, starts_with_slash,
}
use luchta.PackageGraph.{PackageNode, PackageGraph, package_order}
use luchta.Pipeline.{ResolvedPipeline, PrunedTask, pruned, build_pipeline}
use luchta.Pipeline.Changes.{inject_worker_dependencies, apply_prunes}
use luchta.Pipeline.Validation.{
  DeadDependencyReason, unknown_task_everywhere, unknown_task_in_package, unknown_package,
  unknown_root_task, DependencyContext, dead_dependency_reason,
}
use luchta.TaskGraph.Checks.Reasons.{
  TaskValidationDiagnostic, TaskValidationReason, cache_file_overlap, cache_files_require_cache,
  command_without_worker, concat_map, dead_dependency_reference, dead_reason_beq,
  dead_reason_to_string, diagnostic, invalid_cache_file_pattern, reason_beq, reason_to_string,
  report, unknown_worker,
}

abbrev pub is_literal : InputSemantics → Bool
is_literal literal = true
is_literal wildcard = false

abbrev pub leads_out : Component → Bool
leads_out parent_dir = true
leads_out root_dir = true
leads_out cur_dir = false
leads_out (normal s) = false

unfoldable pub pattern_stays_in_package : String → Bool
pattern_stays_in_package pattern =
    not (starts_with_slash pattern) && not (any leads_out (components pattern))

unfoldable pub cache_file_pattern_stays_in_package : String → Bool
unfolding pattern_stays_in_package
cache_file_pattern_stays_in_package pattern = pattern_stays_in_package (split_negation pattern).1

module _ (g : Globset) where
  -- A pattern that is no glob matches nothing.
  abbrev pub glob_matches : (pattern path : String) → Bool
  glob_matches pattern path = elim (g.build_path_glob pattern) [
    | ok glob ↦ g.glob_is_match glob path
    | err e ↦ false
  ]

  unfoldable pub literal_matches_pattern : (literal_path pattern : String) → Bool
  literal_matches_pattern literal_path pattern =
      is_literal (classify_pattern literal_path)
      && glob_matches pattern (unescape_literal literal_path)

  unfoldable pub patterns_obviously_overlap : String → String → Bool
  unfolding literal_matches_pattern
  patterns_obviously_overlap left right =
      let l = (split_negation left).1 in
      let r = (split_negation right).1 in
      l == r || literal_matches_pattern l r || literal_matches_pattern r l

  unfoldable pub literal_is_excluded : String → List String → Bool
  literal_is_excluded literal_path patterns =
      any (λ pattern. glob_matches (split_negation pattern).1 (unescape_literal literal_path))
        (filter is_negated patterns)

  unfoldable pub literal_overlap_is_excluded :
      (cache_file : String) (cache_file_patterns : List String) (role_pattern : String)
      (role_patterns : List String)
      → Bool
  unfolding literal_is_excluded
  literal_overlap_is_excluded cache_file cache_file_patterns role_pattern role_patterns =
      is_literal (classify_pattern cache_file) && literal_is_excluded cache_file role_patterns
      || is_literal (classify_pattern role_pattern)
        && literal_is_excluded role_pattern cache_file_patterns

  -- Whether a cache file and a pattern of a role are in each other's way.
  abbrev pub collides :
      (cache_files role_patterns : List String) (cache_file pattern : String) → Bool
  collides cache_files role_patterns cache_file pattern =
      patterns_obviously_overlap cache_file pattern
      && not (literal_overlap_is_excluded cache_file cache_files pattern role_patterns)

  unfoldable pub validate_cache_file_role_overlaps :
      TaskId
      → TaskDefinition
      → (role : String) (role_patterns : List String) → List TaskValidationDiagnostic
  validate_cache_file_role_overlaps i definition role role_patterns =
      concat_map
        (λ cache_file.
          concat_map
            (λ pattern.
              report (collides definition.cache_files role_patterns cache_file pattern)
                (diagnostic i (cache_file_overlap cache_file role pattern)))
            (filter (λ pattern. not (is_negated pattern)) role_patterns))
        (filter (λ pattern. not (is_negated pattern)) definition.cache_files)

  unfoldable pub validate_cache_file_definition :
      TaskId → TaskDefinition → List TaskValidationDiagnostic
  unfolding validate_cache_file_role_overlaps
  validate_cache_file_definition i definition = elim definition.cache_files [
    | [] ↦ []
    | first ∷ more ↦
        report (not (cache_enabled definition)) (diagnostic i cache_files_require_cache)
        ++ (concat_map
              (λ pattern.
                report (not (cache_file_pattern_stays_in_package pattern))
                  (diagnostic i (invalid_cache_file_pattern pattern)))
              definition.cache_files
            ++ (validate_cache_file_role_overlaps i definition "input" definition.inputs
                ++ validate_cache_file_role_overlaps i definition "output" definition.outputs))
  ]

-- ===== src/Pipeline/Validation.antt =====
-- Dead references of `dependsOn`: `DependencyContext` of crates/luchta-engine/src/task_graph.rs.
pub mod Live
pub mod Tolerance
use luchta.Prelude.{
  Bool, true, false, not, ◌&&◌, ◌||◌, Option, none, some, List, [], ◌∷◌, String, string_eq, ◌==◌,
  any, contains, if◌then◌else◌,
}
use luchta.Prelude.Maps.{lookup, values}
use luchta.Types.{
  PackageName, TaskName, TaskId, task_id, task_id_eq, task_is_root, DependsOn, same_package,
  specific, direct_upstream, transitive_upstream, root,
}
use luchta.Pipeline.{ResolvedPipeline}

pub data DeadDependencyReason : Type 0 where
  unknown_task_everywhere : (task : TaskName) → DeadDependencyReason
  unknown_task_in_package : (pkg : PackageName) (task : TaskName) → DeadDependencyReason
  unknown_package : (pkg : PackageName) → DeadDependencyReason
  unknown_root_task : (task : TaskName) → DeadDependencyReason

unfoldable pub contains_package_task : ResolvedPipeline → PackageName → TaskName → Bool
contains_package_task p name task = elim (lookup name p.task_names_by_package) [
  | none ↦ false
  | some tasks ↦ contains tasks task
]

unfoldable pub contains_root_task : ResolvedPipeline → TaskName → Bool
contains_root_task p task = contains p.root_task_names task

unfoldable pub task_exists_in_any_package : ResolvedPipeline → TaskName → Bool
task_exists_in_any_package p task =
    any (λ (tasks : List TaskName). contains tasks task) (values p.task_names_by_package)

pub record DependencyContext : Type 0 where
  pub package_names : List PackageName
  pub resolved_pipeline : ResolvedPipeline
  pub pruned : List TaskId

abbrev pub pruned_has_id : DependencyContext → TaskId → Bool
pruned_has_id c i = contains c.pruned i

abbrev pub pruned_has_package_task : DependencyContext → TaskName → Bool
pruned_has_package_task c task =
    any (λ (i : TaskId). i.task == task && not (task_is_root i)) c.pruned

abbrev pub pruned_has_root_task : DependencyContext → TaskName → Bool
pruned_has_root_task c task = any (λ (i : TaskId). i.task == task && task_is_root i) c.pruned

-- `(!exists && !pruned_match).then(|| reason)`
abbrev pub dead_unless : Bool → Bool → DeadDependencyReason → Option DeadDependencyReason
dead_unless exists pruned_match reason =
    if not exists && not pruned_match then some reason else none

unfoldable pub same_package_reason :
    DependencyContext → TaskId → TaskName → Option DeadDependencyReason
same_package_reason c source task =
    if task_is_root source
    then dead_unless (contains_root_task c.resolved_pipeline task) (pruned_has_root_task c task)
        (unknown_task_everywhere task)
    else dead_unless (task_exists_in_any_package c.resolved_pipeline task)
        (pruned_has_id c (task_id source.pkg task) || pruned_has_package_task c task)
        (unknown_task_everywhere task)

unfoldable pub specific_reason : DependencyContext → TaskId → Option DeadDependencyReason
specific_reason c i =
    if not (contains c.package_names i.pkg)
    then some (unknown_package i.pkg)
    else dead_unless (contains_package_task c.resolved_pipeline i.pkg i.task) (pruned_has_id c i)
        (unknown_task_in_package i.pkg i.task)

unfoldable pub upstream_reason : DependencyContext → TaskName → Option DeadDependencyReason
upstream_reason c task =
    dead_unless (task_exists_in_any_package c.resolved_pipeline task)
      (pruned_has_package_task c task) (unknown_task_everywhere task)

unfoldable pub root_reason : DependencyContext → TaskName → Option DeadDependencyReason
root_reason c task =
    dead_unless (contains_root_task c.resolved_pipeline task) (pruned_has_root_task c task)
      (unknown_root_task task)

unfoldable pub dead_dependency_reason :
    DependencyContext → TaskId → DependsOn → Option DeadDependencyReason
unfolding same_package_reason specific_reason upstream_reason root_reason
dead_dependency_reason c source (same_package task) = same_package_reason c source task
dead_dependency_reason c source (specific i) = specific_reason c i
dead_dependency_reason c source (direct_upstream task) = upstream_reason c task
dead_dependency_reason c source (transitive_upstream task) = upstream_reason c task
dead_dependency_reason c source (root task) = root_reason c task

-- ===== src/TaskGraph/Checks/Meaning.antt =====
-- When `validate_tasks` finds nothing (crates/luchta-engine/src/task_graph.rs).
use luchta.Prelude.{
  ◌≡◌, refl, sym, subst, ap, ◌↔◌, Bool, false, not, Option, some, none, none_not_some,
  some-injective, ok, err_not_ok, List, map, [], ◌∷◌, ◌++◌, In, In-contains, contains-In, contains,
  String, string_eq,
}
use luchta.Prelude.Maps.{Map, keys}
use luchta.Types.{
  TaskName, TaskId, TaskDefinition, WorkerDefinition, DependsOn, has_non_blank_command,
}
use luchta.Text.{is_empty, trim}
use luchta.Glob.{Globset}
use luchta.Petgraph.{Digraph}
use luchta.PackageGraph.{PackageNode, PackageGraph}
use luchta.Pipeline.{ResolvedPipeline, pruned, build_pipeline}
use luchta.Pipeline.Changes.{inject_worker_dependencies, apply_prunes}
use luchta.Pipeline.Validation.{DeadDependencyReason, DependencyContext, dead_dependency_reason}
use luchta.Pipeline.Validation.Live.{IsLive, dead_dependency_reason-IsLive}
use luchta.TaskGraph.Checks.{
  validate_worker, validate_references, collect_diagnostics, report_tasks, new_context,
  validate_tasks_with_pruned,
}
use luchta.TaskGraph.Checks.CacheFiles.{validate_cache_file_definition}
use luchta.TaskGraph.Checks.Reasons.{
  unknown_worker, command_without_worker, dead_dependency_reference, TaskValidationDiagnostic,
  diagnostic, report,
}
use luchta.TaskGraph.Checks.CacheFiles.Meaning.{
  append-empty, concat_map-empty, report-empty, not-true, true_of_not, HasCacheFiles,
  validate_cache_file_definition-HasCacheFiles,
}

module _ (g : Globset) where
  -- The worker of a task is defined, and without one it has no command.
  abbrev pub HasWorker : Map String WorkerDefinition → TaskDefinition → Type 0
  HasWorker workers definition =
      ((worker : String) → definition.worker ≡ some worker → In worker (keys workers))
      × (definition.worker ≡ none
          → (command : String) → definition.command ≡ some command
          → trim command ≡ "")

  blank_iff :
      (command : Option String)
      → (has_non_blank_command command ≡ false)
        ↔ ((text : String) → command ≡ some text → trim text ≡ "")
  unfolding has_non_blank_command
  blank_iff none = (λ _ text q. absurd (none_not_some q), λ _. refl)
  blank_iff (some command) = (
    λ h text q. subst (λ t. trim t ≡ "") (some-injective command text q) (empty (trim command) h),
    λ f. rw (f command refl) refl,
  )
    where
      empty : (s : String) → not (is_empty s) ≡ false → s ≡ ""
      empty String.[] h = refl
      empty (String.◌∷◌ c s) h = cc

  worker_test :
      (workers : Map String WorkerDefinition) (i : TaskId) (command : Bool) (w : Option String)
      → ((elim w [
        | some worker ↦
            report (not (contains (keys workers) worker)) (diagnostic i (unknown_worker worker))
        | none ↦ report command (diagnostic i command_without_worker)
      ])
          ≡ [])
        ↔ (((worker : String) → w ≡ some worker → In worker (keys workers))
            × (w ≡ none → command ≡ false))
  worker_test workers i command none = (
    λ h. (λ worker q. absurd (none_not_some q), λ q. (report-empty command _).0 h),
    λ (known, quiet). (report-empty command _).1 (quiet refl),
  )
  worker_test workers i command (some w) = (
    λ h. (
      λ worker q.
          let known = contains-In w (keys workers) (true_of_not ((report-empty _ _).0 h)) in
          subst (λ z. In z (keys workers)) (some-injective w worker q) known,
      λ q. absurd (none_not_some (sym q)),
    ),
    λ (known, quiet). (report-empty _ _).1 (not-true (In-contains w (keys workers) (known w refl))),
  )

  validate_worker-HasWorker :
      (workers : Map String WorkerDefinition) (i : TaskId) (definition : TaskDefinition)
      → (validate_worker g workers i definition ≡ []) ↔ HasWorker workers definition
  unfolding validate_worker
  validate_worker-HasWorker workers i definition =
      let test =
        worker_test workers i (has_non_blank_command definition.command) definition.worker in
      let blank = blank_iff definition.command in
      (
        λ h. ((test.0 h).0, λ q. blank.0 ((test.0 h).1 q)),
        λ (known, quiet). test.1 (known, λ q. blank.1 (quiet q)),
      )

  reference_test :
      (i : TaskId) (dependency : DependsOn) (r : Option DeadDependencyReason)
      → (◌≡◌ {A = List TaskValidationDiagnostic}
          (elim r [
            | none ↦ []
            | some reason ↦ diagnostic i (dead_dependency_reference dependency reason) ∷ []
          ])
          [])
        ↔ (r ≡ none)
  reference_test i dependency none = (λ h. refl, λ h. refl)
  reference_test i dependency (some reason) = (λ h. cc, λ h. cc)

  validate_references-IsLive :
      (c : DependencyContext) (i : TaskId) (definition : TaskDefinition)
      → (validate_references g c i definition ≡ [])
        ↔ ((dependency : DependsOn) → In dependency definition.depends_on → IsLive c i dependency)
  unfolding validate_references
  validate_references-IsLive c i definition =
      let all = concat_map-empty _ definition.depends_on in
      (
        λ h dependency j. (dead_dependency_reason-IsLive c i dependency).0 (
            (reference_test i dependency (dead_dependency_reason c i dependency)).0
              (all.0 h dependency j)),
        λ h. all.1 (λ dependency j.
            (reference_test i dependency (dead_dependency_reason c i dependency)).1
              ((dead_dependency_reason-IsLive c i dependency).1 (h dependency j))),
      )

  -- What a task has to be like to pass.
  abbrev pub Passes :
      Map String WorkerDefinition → DependencyContext → TaskId → TaskDefinition → Type 0
  Passes workers c i definition =
      HasWorker workers definition
      × HasCacheFiles g definition
      × ((dependency : DependsOn) → In dependency definition.depends_on → IsLive c i dependency)

  report_tasks-ok :
      (found : List TaskValidationDiagnostic) → (report_tasks g found ≡ ok tt) ↔ (found ≡ [])
  unfolding report_tasks
  report_tasks-ok [] = (λ h. refl, λ h. refl)
  report_tasks-ok (x ∷ xs) = (λ h. absurd (err_not_ok h), λ h. cc)

  report_tasks-Passes :
      (workers : Map String WorkerDefinition) (c : DependencyContext)
      → (report_tasks g (collect_diagnostics g workers c) ≡ ok tt) ↔ (
          (i : TaskId) (definition : TaskDefinition)
          → In (i, definition) c.resolved_pipeline.tasks_by_id
          → Passes workers c i definition)
  unfolding collect_diagnostics
  report_tasks-Passes workers c =
      let final = report_tasks-ok (collect_diagnostics g workers c) in
      let tasks =
        concat_map-empty
          (λ (e : TaskId × TaskDefinition).
            validate_worker g workers (e.0) (e.1)
            ++ (validate_cache_file_definition g (e.0) (e.1)
                ++ validate_references g c (e.0) (e.1)))
          c.resolved_pipeline.tasks_by_id in
      (
        λ h i definition j.
            let (w, rest) = (append-empty _ _).0 (tasks.0 (final.0 h) (i, definition) j) in
            let (f, r) = (append-empty _ _).0 rest in
            (
              (validate_worker-HasWorker workers i definition).0 w,
              (validate_cache_file_definition-HasCacheFiles g i definition).0 f,
              (validate_references-IsLive c i definition).0 r,
            ),
        λ h. final.1 (
            tasks.1 (λ e j.
              let (w, f, r) = h (e.0) (e.1) j in
              (append-empty _ _).1 (
                (validate_worker-HasWorker workers (e.0) (e.1)).1 w,
                (append-empty _ _).1 (
                  (validate_cache_file_definition-HasCacheFiles g (e.0) (e.1)).1 f,
                  (validate_references-IsLive c (e.0) (e.1)).1 r,
                ),
              ))),
      )

  -- When the pipeline can be built, its tasks, with what workers inject and without what is pruned, are
  -- accepted exactly when each of them passes:
  -- its worker is defined, and with none it has no command but a blank one;
  -- it has no cache files, or it has a cache, no cache file, nor what a negation among them negates, is
  -- absolute or has a part `..`, and where a cache file and an input or output, neither a negation,
  -- are equal or the one names a file that the other matches, then one of them names a file that a
  -- negation on the other side matches;
  -- each of its references is live: one to `pkg#task` names a package of the workspace, which declares
  -- the task, or a pruned task; one to the root, or of a root task to its own package, names a root
  -- task, declared or pruned; any other names a task that some package declares, or a pruned task of
  -- that name that is no root task.
  pub validate_tasks-Passes :
      (d : Digraph PackageNode) (graph : PackageGraph d) (pipeline : Map TaskName TaskDefinition)
      (workers : Map String WorkerDefinition) (pruned_ids : List TaskId) (built : ResolvedPipeline)
      → build_pipeline d graph pipeline ≡ ok built
      → let p =
          apply_prunes
            (map (λ i. record { id = i; outcome = pruned none }) pruned_ids)
            (inject_worker_dependencies workers built) in
        (validate_tasks_with_pruned g d graph pipeline workers pruned_ids ≡ some (ok tt)) ↔ (
          (i : TaskId) (definition : TaskDefinition)
          → In (i, definition) p.tasks_by_id
          → Passes workers (new_context g d graph p pruned_ids) i definition)
  unfolding validate_tasks_with_pruned new_context
  validate_tasks-Passes d graph pipeline workers pruned_ids built q =
      let p =
        apply_prunes (map (λ i. record { id = i; outcome = pruned none }) pruned_ids)
          (inject_worker_dependencies workers built) in
      let test = report_tasks-Passes workers (new_context g d graph p pruned_ids) in
      rw (validate_tasks_with_pruned, q)
        (λ h. test.0 (some-injective _ _ h), λ h. ap some (test.1 h))

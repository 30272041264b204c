-- ===== src/TaskGraph/Checks/Reasons.antt =====
-- What validation finds, and how it is printed (crates/luchta-engine/src/task_graph.rs).
use luchta.Prelude.{
  Bool, true, false, ◌&&◌, List, [], ◌∷◌, ◌++◌, String, string_eq, ◌==◌, if◌then◌else◌,
}
use luchta.Text.{append}
use luchta.Types.{TaskId, task_id_eq, DependsOn, depends_on_eq, as_config_string}
use luchta.Pipeline.Validation.{
  DeadDependencyReason, unknown_task_everywhere, unknown_task_in_package, unknown_package,
  unknown_root_task,
}

pub data TaskValidationReason : Type 0 where
  dead_dependency_reference :
      (dependency : DependsOn) (reason : DeadDependencyReason) → TaskValidationReason
  command_without_worker : TaskValidationReason
  unknown_worker : (worker : String) → TaskValidationReason
  cache_files_require_cache : TaskValidationReason
  invalid_cache_file_pattern : (pattern : String) → TaskValidationReason
  cache_file_overlap : (cache_file role pattern : String) → TaskValidationReason

-- `Display for DeadDependencyReason`
unfoldable pub dead_reason_to_string : DeadDependencyReason → String
dead_reason_to_string (unknown_task_everywhere task) =
    append "task '" (append task "' not declared in any package")
dead_reason_to_string (unknown_task_in_package name task) =
    append "task '" (append task (append "' not declared in package '" (append name "'")))
dead_reason_to_string (unknown_package name) =
    append "package '" (append name "' not found in workspace")
dead_reason_to_string (unknown_root_task task) =
    append "root task '#" (append task "' not declared")

-- `Display for TaskValidationReason`
unfoldable pub reason_to_string : TaskValidationReason → String
unfolding dead_reason_to_string
reason_to_string (dead_dependency_reference dependency reason) =
    append (as_config_string dependency) (append ": " (dead_reason_to_string reason))
reason_to_string command_without_worker =
    "defines a command but no worker; specify a worker to execute it"
reason_to_string (unknown_worker worker) = append "references unknown worker '" (append worker "'")
reason_to_string cache_files_require_cache = "declares cacheFiles but does not enable cache"
reason_to_string (invalid_cache_file_pattern pattern) =
    append "cacheFiles pattern '" (append pattern "' must stay inside the task package")
reason_to_string (cache_file_overlap cache_file role pattern) = append "cacheFiles pattern '" (
    append cache_file
      (append "' overlaps declared " (append role (append " pattern '" (append pattern "'")))))

abbrev pub dead_reason_beq : DeadDependencyReason → DeadDependencyReason → Bool
dead_reason_beq (unknown_task_everywhere t) (unknown_task_everywhere u) = t == u
dead_reason_beq (unknown_task_in_package p t) (unknown_task_in_package q u) = p == q && t == u
dead_reason_beq (unknown_package p) (unknown_package q) = p == q
dead_reason_beq (unknown_root_task t) (unknown_root_task u) = t == u
dead_reason_beq _ _ = false

abbrev pub reason_beq : TaskValidationReason → TaskValidationReason → Bool
reason_beq (dead_dependency_reference d r) (dead_dependency_reference e s) =
    d == e && dead_reason_beq r s
reason_beq command_without_worker command_without_worker = true
reason_beq (unknown_worker w) (unknown_worker v) = w == v
reason_beq cache_files_require_cache cache_files_require_cache = true
reason_beq (invalid_cache_file_pattern p) (invalid_cache_file_pattern q) = p == q
reason_beq (cache_file_overlap c r p) (cache_file_overlap c' r' p') = c == c' && r == r' && p == p'
reason_beq _ _ = false

pub record TaskValidationDiagnostic : Type 0 where
  pub id : TaskId
  pub reason : TaskValidationReason

abbrev pub diagnostic : TaskId → TaskValidationReason → TaskValidationDiagnostic
diagnostic i r = record { id = i; reason = r }

abbrev pub concat_map : {A B : Type 0} → (A → List B) → List A → List B
concat_map f [] = []
concat_map f (x ∷ xs) = f x ++ concat_map f xs

-- One diagnostic, if the test says so.
abbrev pub report : Bool → TaskValidationDiagnostic → List TaskValidationDiagnostic
report b found = if b then found ∷ [] else []

-- ===== src/Cache/Decide.antt =====
-- Whether a task runs, is skipped or is restored (crates/luchta-cache/src/decide.rs).
pub mod Facts
pub mod Reasons
pub mod Skips
use luchta.Prelude.{
  ℕ, Bool, true, false, not, ◌&&◌, Option, none, some, List, [], ◌∷◌, ◌++◌, String, Result, ok, err,
  string_eq, list_eq, nat_eq, option_eq, ◌==◌, all, filter, contains, map, if◌then◌else◌,
}
use luchta.Prelude.Maps.{Map, lookup, keys}
use luchta.Cache.{
  Hash, FileEntry, FileDelta, RunReason, no_prior_record, prior_failed, nonce_changed,
  task_spec_mismatch, dep_output_mismatch, pkg_dep_mismatch, env_mismatch, input_changed,
  output_changed, cache_hit, TaskRunRecord, Decision, skip, run, DecisionResult, FileStateResolver,
  CurrentState,
}
use luchta.Cache.Diff.{files_diff, files_changed}

abbrev pub decide_files_diff_limit : ℕ
decide_files_diff_limit = 50

pub data FileEntryKind : Type 0 where
  inputs outputs : FileEntryKind

abbrev pub resolve_kind :
    FileEntryKind
    → FileStateResolver
    → List String
    → List FileEntry
    → Result (List FileEntry) String
resolve_kind inputs r = r.resolve_inputs
resolve_kind outputs r = r.resolve_outputs

abbrev kind_changed : FileEntryKind → List FileDelta → Bool → ℕ → RunReason
kind_changed inputs changed truncated count = input_changed changed truncated count
kind_changed outputs changed truncated count = output_changed changed truncated count

-- `change_reason`: `none` when the files are as they were. Patterns that do not resolve count as
-- changed.
unfoldable pub reason_of_resolved :
    FileEntryKind → List FileEntry → Result (List FileEntry) String → Option RunReason
reason_of_resolved kind prior_entries (err _) = some (kind_changed kind [] false 0)
reason_of_resolved kind prior_entries (ok resolved) =
    let (changed, truncated, count) = files_diff prior_entries resolved decide_files_diff_limit in
    if not (files_changed prior_entries resolved)
    then none
    else some (kind_changed kind changed truncated count)

unfoldable pub change_reason :
    FileStateResolver → List String → List FileEntry → FileEntryKind → Option RunReason
change_reason resolver patterns prior_entries kind =
    reason_of_resolved kind prior_entries (resolve_kind kind resolver patterns prior_entries)

abbrev pub effective_input_patterns : TaskRunRecord → CurrentState → List String
effective_input_patterns prior current =
    if prior.detected_input_patterns then prior.input_patterns else current.declared_input_patterns

abbrev pub effective_output_patterns : TaskRunRecord → CurrentState → List String
effective_output_patterns prior current =
    if prior.detected_output_patterns
    then prior.output_patterns
    else current.declared_output_patterns

abbrev pub decides_run : RunReason → DecisionResult
decides_run reason = record { action = run; reason = reason }

-- The outputs come first.
unfoldable pub first_change : (of_outputs of_inputs : Option RunReason) → DecisionResult
first_change (some reason) _ = decides_run reason
first_change none (some reason) = decides_run reason
first_change none none = record { action = skip; reason = cache_hit }

unfoldable pub check_patterns_unchanged : TaskRunRecord → CurrentState → DecisionResult
check_patterns_unchanged prior current =
    first_change
      (change_reason current.resolver (effective_output_patterns prior current) prior.outputs
        outputs)
      (change_reason current.resolver (effective_input_patterns prior current) prior.inputs inputs)

-- The tasks whose output the record has otherwise, then those that it does not have.
unfoldable pub changed_dep_tasks : TaskRunRecord → CurrentState → List String
changed_dep_tasks prior current =
    map (λ (e : String × Hash). e.0)
      (filter (λ (e : String × Hash). not (lookup e.0 current.dep_outputs == some e.1))
        prior.dep_outputs)
    ++ filter (λ task. not (contains (keys prior.dep_outputs) task)) (keys current.dep_outputs)

abbrev pub is_empty_list : {A : Type 0} → List A → Bool
is_empty_list [] = true
is_empty_list (_ ∷ _) = false

unfoldable pub decide : Option TaskRunRecord → CurrentState → DecisionResult
decide none current = decides_run no_prior_record
decide (some prior) current =
    if not prior.succeeded
    then decides_run prior_failed
    else if not (prior.cache_nonce == current.cache_nonce)
    then decides_run nonce_changed
    else if not (prior.task_spec_hash == current.task_spec_hash)
    then decides_run task_spec_mismatch
    else if not (is_empty_list (changed_dep_tasks prior current))
    then decides_run (dep_output_mismatch (changed_dep_tasks prior current))
    else if not (prior.pkg_dep_hash == current.pkg_dep_hash)
    then decides_run pkg_dep_mismatch
    else if not (prior.env_hash == current.env_hash)
    then decides_run env_mismatch
    else check_patterns_unchanged prior current

-- Equality of two `BTreeMap`s, which hold a key once: each entry of one is an entry of the other.
abbrev pub entries_within : Map String Hash → Map String Hash → Bool
entries_within a b = all (λ (e : String × Hash). lookup e.0 b == some e.1) a

abbrev pub dependency_outputs_unchanged : TaskRunRecord → CurrentState → Bool
dependency_outputs_unchanged prior current =
    entries_within prior.dep_outputs current.dep_outputs
    && entries_within current.dep_outputs prior.dep_outputs

unfoldable pub cacheable_prior : TaskRunRecord → CurrentState → Bool
cacheable_prior prior current =
    prior.succeeded
    && prior.cache_nonce == current.cache_nonce
    && prior.task_spec_hash == current.task_spec_hash
    && prior.env_hash == current.env_hash
    && prior.pkg_dep_hash == current.pkg_dep_hash
    && dependency_outputs_unchanged prior current

-- `combined_inputs_hash` is the digest of the recorded inputs.
unfoldable pub decide_shared_restore :
    (combined_inputs_hash : List FileEntry → Hash) → TaskRunRecord → CurrentState → Hash → Bool
decide_shared_restore combined_inputs_hash prior current inputs_hash =
    if not (cacheable_prior prior current)
    then false
    else combined_inputs_hash prior.inputs == inputs_hash

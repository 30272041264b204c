-- ===== src/Cache/Samples.antt =====
-- Decisions on a task with one input, one output and one dependency
-- (crates/luchta-cache/src/decide.rs).
use luchta.Prelude.{
  ℕ, ◌<◌, ◌≡◌, ◌≢◌, ◌↔◌, refl, true, false, none, some, List, [], ◌∷◌, String, ok, arith, In,
  Distinct, length, ltb, min, take, map,
}
use luchta.Prelude.Maps.{lookup, insert, keys}
use luchta.Prelude.Sort.{sort_by}
use luchta.Prelude.ℤ.{pos}
use luchta.Cache.{Hash, FileEntry, TaskRunRecord, skip, CurrentState}
use luchta.Cache.Diff.{
  u32_max, file_entry_changed, path_changed, index_entries, visit_path, visit_paths, files_diff,
  files_changed,
}
use luchta.Cache.Diff.Contents.{last_entry, content_at}
use luchta.Cache.Diff.Loop.{delta_at}
use luchta.Cache.Diff.Reference.{files_diff-lists, files_changed_iff, files_diff_complete}
use luchta.Cache.Decide.{decide, decide_shared_restore}
use luchta.Cache.Decide.Facts.{OutputsUnchanged, InputsUnchanged}
use luchta.Cache.Decide.Reasons.{SameFacts, Explains, decide-explained}
use luchta.Cache.Decide.Skips.{decide-skip, decide_shared_restore_iff}

abbrev entry : String → ℕ → FileEntry
entry path byte = record {
  path = path;
  size = 10;
  mtime_ns = pos 5;
  hash = byte ∷ [];
  absent = false;
}

abbrev recorded : TaskRunRecord
recorded = record {
  schema_version = 5;
  task_spec_hash = 1 ∷ [];
  input_patterns = [];
  inputs = entry "src/a.ts" 1 ∷ entry "src/b.ts" 2 ∷ [];
  output_patterns = [];
  outputs = entry "dist/a.js" 3 ∷ [];
  detected_input_patterns = false;
  detected_output_patterns = false;
  outputs_hash = 3 ∷ [];
  env_hash = 4 ∷ [];
  pkg_dep_hash = 5 ∷ [];
  dep_outputs = ("lib#build", 6 ∷ []) ∷ [];
  exit_status = pos 0;
  succeeded = true;
  start_unix_ms = 0;
  end_unix_ms = 1;
  reports = [];
  cache_nonce = none;
  run_reason = none;
}

-- `src/b.ts` was edited and `src/c.ts` is new.
abbrev edited : List FileEntry
edited = entry "src/a.ts" 1 ∷ entry "src/b.ts" 7 ∷ entry "src/c.ts" 8 ∷ []

abbrev now : List FileEntry → CurrentState
now found = record {
  task_spec_hash = 1 ∷ [];
  env_hash = 4 ∷ [];
  pkg_dep_hash = 5 ∷ [];
  dep_outputs = ("lib#build", 6 ∷ []) ∷ [];
  cache_nonce = none;
  declared_input_patterns = "src/**" ∷ [];
  declared_output_patterns = "dist/**" ∷ [];
  resolver = record {
    resolve_inputs = λ patterns prior. ok found;
    resolve_outputs = λ patterns prior. ok prior;
    blake3_file = λ path. ok [];
  };
}

diffing : Unit {0}
unfolding file_entry_changed path_changed index_entries visit_path visit_paths files_diff lookup
    insert sort_by
diffing = tt

two_changes : (files_diff recorded.inputs edited 50).2 ≡ 2
unfolding diffing
two_changes = refl

cut_off : (files_diff recorded.inputs edited 1).1 ≡ true
unfolding diffing
cut_off = refl

no_cut : (files_diff recorded.inputs edited 50).1 ≡ false
unfolding diffing
no_cut = refl

new_file : content_at "src/c.ts" recorded.inputs ≢ content_at "src/c.ts" edited
unfolding content_at last_entry
new_file q = cc

files_diff-lists_example :
    (paths : List String) × Distinct paths
    × ((path : String) → In path paths ↔ (content_at path recorded.inputs ≢ content_at path edited))
    × (files_diff recorded.inputs edited 1 ≡ (
      take 1 (map (delta_at recorded.inputs edited) paths),
      ltb 1 (min (length paths) u32_max),
      min (length paths) u32_max,
    ))
files_diff-lists_example = files_diff-lists recorded.inputs edited 1

files_changed_iff_example :
    (files_changed recorded.inputs edited ≡ true)
    ↔ ((path : String) × (content_at path recorded.inputs ≢ content_at path edited))
files_changed_iff_example = files_changed_iff recorded.inputs edited

few : 50 < u32_max
few = omega arith

files_diff_complete_example :
    In (delta_at recorded.inputs edited "src/c.ts") (files_diff recorded.inputs edited 50).0
files_diff_complete_example =
    files_diff_complete recorded.inputs edited 50 few no_cut "src/c.ts" new_file

dep_outputs-Distinct : Distinct (keys recorded.dep_outputs)
dep_outputs-Distinct = (λ i. i, tt)

decide-explained_example : Explains recorded (now edited) (decide (some recorded) (now edited))
decide-explained_example = decide-explained recorded (now edited) dep_outputs-Distinct

decide-skip_example : ((decide (some recorded) (now recorded.inputs)).action ≡ skip) ↔ (
    SameFacts recorded (now recorded.inputs)
    × OutputsUnchanged recorded (now recorded.inputs)
    × InputsUnchanged recorded (now recorded.inputs))
decide-skip_example = decide-skip recorded (now recorded.inputs) dep_outputs-Distinct

-- A digest of the paths and the hashes, joined.
abbrev digest : List FileEntry → Hash
digest [] = []
digest (e ∷ entries) = length e.hash ∷ digest entries

decide_shared_restore_iff_example :
    (decide_shared_restore digest recorded (now edited) (1 ∷ 1 ∷ []) ≡ true)
    ↔ (SameFacts recorded (now edited) × (digest recorded.inputs ≡ 1 ∷ 1 ∷ []))
decide_shared_restore_iff_example =
    decide_shared_restore_iff digest recorded (now edited) (1 ∷ 1 ∷ []) dep_outputs-Distinct
      dep_outputs-Distinct

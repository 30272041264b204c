-- ===== src/Cache.antt =====
-- The cached result of a task: what is recorded about a run, and why a task runs again
-- (crates/luchta-cache/src/record.rs, reason.rs and the types of decide.rs).
pub mod Diff
pub mod Decide
mod Samples
use luchta.Prelude.{ℕ, zero, suc, Bool, true, false, Option, List, [], ◌∷◌, String, Result, ℤ}
use luchta.Prelude.Maps.{Map}

-- The 32 bytes of a BLAKE3 hash.
abbrev pub Hash : Type 0
Hash = List ℕ

abbrev zeros : ℕ → List ℕ
zeros zero = []
zeros (suc n) = 0 ∷ zeros n

abbrev pub zero_hash : Hash
zero_hash = zeros 32

pub record FileEntry : Type 0 where
  pub path : String
  pub size : ℕ
  pub mtime_ns : ℤ
  pub hash : Hash
  pub absent : Bool

-- `FileEntry::absent`
abbrev pub absent_entry : String → FileEntry
absent_entry path = record {
  path = path;
  size = 0;
  mtime_ns = ℤ.pos 0;
  hash = zero_hash;
  absent = true;
}

pub record FileDelta : Type 0 where
  pub path : String
  pub prior_hash : Hash
  pub current_hash : Hash
  pub prior_absent : Bool
  pub current_absent : Bool

pub data RunReason : Type 0 where
  no_prior_record prior_failed nonce_changed task_spec_mismatch : RunReason
  dep_output_mismatch : (tasks : List String) → RunReason
  pkg_dep_mismatch env_mismatch : RunReason
  input_changed output_changed :
      (changed : List FileDelta) (truncated : Bool) (change_count : ℕ) → RunReason
  cache_hit shared_cache_hit : RunReason

pub record ReportMeta : Type 0 where
  pub filename : String
  pub mime_type : String

pub record TaskRunRecord : Type 0 where
  pub schema_version : ℕ
  pub task_spec_hash : Hash
  pub input_patterns : List String
  pub inputs : List FileEntry
  pub output_patterns : List String
  pub outputs : List FileEntry
  pub detected_input_patterns : Bool
  pub detected_output_patterns : Bool
  pub outputs_hash : Hash
  pub env_hash : Hash
  pub pkg_dep_hash : Hash
  pub dep_outputs : Map String Hash
  pub exit_status : ℤ
  pub succeeded : Bool
  pub start_unix_ms : ℕ
  pub end_unix_ms : ℕ
  pub reports : List ReportMeta
  pub cache_nonce : Option String
  pub run_reason : Option RunReason

pub data Decision : Type 0 where
  skip shared_hit run : Decision

pub record DecisionResult : Type 0 where
  pub action : Decision
  pub reason : RunReason

-- The trait: how patterns become files now. The error is its text.
pub record FileStateResolver : Type 0 where
  pub resolve_inputs :
      (patterns : List String) (prior_entries : List FileEntry) → Result (List FileEntry) String
  pub resolve_outputs :
      (patterns : List String) (prior_entries : List FileEntry) → Result (List FileEntry) String
  pub blake3_file : (path : String) → Result Hash String

pub record CurrentState : Type 0 where
  pub task_spec_hash : Hash
  pub env_hash : Hash
  pub pkg_dep_hash : Hash
  pub dep_outputs : Map String Hash
  pub cache_nonce : Option String
  pub declared_input_patterns : List String
  pub declared_output_patterns : List String
  pub resolver : FileStateResolver

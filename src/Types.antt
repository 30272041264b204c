-- ===== src/Types.antt =====
-- crates/luchta-types/src/lib.rs and config.rs: names, task ids, dependency references, task
-- definitions and the values of environment variables.
pub mod Inputs
pub mod RoundTrip
mod Samples
use text.Mathlib.TextEquality.{eq_iff}
use luchta.Prelude.{
  ℕ, ◌≡◌, refl, ◌↔◌, Bool, true, false, not, ◌&&◌, ◌||◌, Option, none, some, List, [], ◌∷◌, String,
  arith, PartialEq, string_eq, ◌==◌, if◌then◌else◌, Result, ok, err,
}
use luchta.Prelude.Maps.{Map}
use luchta.Text.{append, is_empty, strip_prefix, split_once, contains_char, trim}

abbrev pub PackageName : Type 0
PackageName = String

abbrev pub TaskName : Type 0
TaskName = String

abbrev pub root_package_name : PackageName
root_package_name = "//root"

abbrev pub package_is_root : PackageName → Bool
package_is_root p = p == root_package_name

pub record TaskId : Type 0 where
  pub pkg : PackageName
  pub task : TaskName

abbrev pub task_id_beq : TaskId → TaskId → Bool
task_id_beq i j = i.pkg == j.pkg && i.task == j.task

pub task_id_beq_iff : (i j : TaskId) → (task_id_beq i j ≡ true) ↔ (i ≡ j)
task_id_beq_iff i j = ground (arith, eq_iff i.pkg j.pkg, eq_iff i.task j.task)

instance abbrev pub task_id_eq : PartialEq TaskId
task_id_eq = record { same = task_id_beq; same_iff = task_id_beq_iff }

abbrev pub task_id : PackageName → TaskName → TaskId
task_id p t = record { pkg = p; task = t }

-- `TaskId::is_root`
abbrev pub task_is_root : TaskId → Bool
task_is_root i = package_is_root i.pkg

-- `Display for TaskId`
unfoldable pub task_id_to_string : TaskId → String
task_id_to_string i = if task_is_root i then append "#" i.task else append i.pkg (append "#" i.task)

pub data DependsOn : Type 0 where
  direct_upstream transitive_upstream same_package : TaskName → DependsOn
  specific : TaskId → DependsOn
  root : TaskName → DependsOn

abbrev pub depends_on_beq : DependsOn → DependsOn → Bool
depends_on_beq (direct_upstream t) (direct_upstream u) = t == u
depends_on_beq (transitive_upstream t) (transitive_upstream u) = t == u
depends_on_beq (same_package t) (same_package u) = t == u
depends_on_beq (specific i) (specific j) = i == j
depends_on_beq (root t) (root u) = t == u
depends_on_beq _ _ = false

pub depends_on_beq_iff : (d d' : DependsOn) → (depends_on_beq d d' ≡ true) ↔ (d ≡ d')
depends_on_beq_iff (direct_upstream t) (direct_upstream u) = ground (arith, eq_iff t u)
depends_on_beq_iff (transitive_upstream t) (transitive_upstream u) = ground (arith, eq_iff t u)
depends_on_beq_iff (same_package t) (same_package u) = ground (arith, eq_iff t u)
depends_on_beq_iff (specific i) (specific j) = ground (arith, task_id_beq_iff i j)
depends_on_beq_iff (root t) (root u) = ground (arith, eq_iff t u)
depends_on_beq_iff _ _ = (λ h. cc, λ h. cc)

instance abbrev pub depends_on_eq : PartialEq DependsOn
depends_on_eq = record { same = depends_on_beq; same_iff = depends_on_beq_iff }

-- `DependsOn::as_config_string`
unfoldable pub as_config_string : DependsOn → String
as_config_string (direct_upstream t) = append "^" t
as_config_string (transitive_upstream t) = append "^^" t
as_config_string (same_package t) = t
as_config_string (specific i) = task_id_to_string i
as_config_string (root t) = append "#" t

pub record ParseDependsOnError : Type 0 where
  pub message : String

abbrev parse_error : String → Result DependsOn ParseDependsOnError
parse_error m = err (record { message = m })

-- `none` sends the caller on to the next form.
unfoldable pub parse_upstream :
    (value prefix : String) (construct : TaskName → DependsOn) (empty_message : String)
    → Option (Result DependsOn ParseDependsOnError)
parse_upstream value prefix construct empty_message = elim (strip_prefix prefix value) [
  | none ↦ none
  | some task ↦ some (if is_empty task then parse_error empty_message else ok (construct task))
]

-- The two forms with `#`, and the bare name.
unfoldable pub parse_local : String → Result DependsOn ParseDependsOnError
parse_local value = elim (strip_prefix "#" value) [
  | some task ↦
      if is_empty task then parse_error "root dependency must include task name" else ok (root task)
  | none ↦ elim (split_once "#" value) [
    | some (p, task) ↦
        if is_empty p || is_empty task
        then parse_error "specific dependency must be `package#task`"
        else ok (specific (task_id p task))
    | none ↦
        if is_empty value
        then parse_error "same-package dependency must include task name"
        else ok (same_package value)
  ]
]

-- `FromStr for DependsOn`: `^^` is tried before `^`.
unfoldable pub parse_depends_on : String → Result DependsOn ParseDependsOnError
parse_depends_on value =
    elim (parse_upstream value "^^" transitive_upstream
      "transitive upstream dependency must include task name") [
        | some parsed ↦ parsed
        | none ↦
            elim (parse_upstream value "^" direct_upstream
              "direct upstream dependency must include task name") [
                | some parsed ↦ parsed
                | none ↦ parse_local value
              ]
      ]

pub data InputSemantics : Type 0 where
  literal wildcard : InputSemantics

unfoldable pub classify_pattern : String → InputSemantics
classify_pattern pattern =
    if contains_char "*" pattern
      || contains_char "?" pattern
      || contains_char "[" pattern
      || contains_char "{" pattern
    then wildcard
    else literal

pub record EnvSpec : Type 0 where
  pub value : Option String
  pub default : Option String
  pub input : Bool

-- `ambient` is the inherited variable.
unfoldable pub resolve_env_value : EnvSpec → Option String → Option String
resolve_env_value spec ambient = elim spec.value [
  | some v ↦ some v
  | none ↦ elim ambient [ some v ↦ some v | none ↦ spec.default ]
]

pub record CacheConfig : Type 0 where
  pub cache_nonce : Option String

pub record TaskDefinition : Type 0 where
  pub depends_on : List DependsOn
  pub weight : ℕ
  pub command : Option String
  pub description : Option String
  pub worker : Option String
  pub cache : Option CacheConfig
  pub inputs : List String
  pub outputs : List String
  pub cache_files : List String
  pub dependencies : List String
  pub env : Map String EnvSpec
  pub tool_version : Option String

pub record WorkerDefinition : Type 0 where
  pub command : String
  pub depends_on : List DependsOn
  pub cache : Option CacheConfig
  pub env : Map String EnvSpec

-- `TaskDefinition::new`
abbrev pub new_definition : List DependsOn → ℕ → TaskDefinition
new_definition deps w = record {
  depends_on = deps;
  weight = w;
  command = none;
  description = none;
  worker = none;
  cache = none;
  inputs = [];
  outputs = [];
  cache_files = [];
  dependencies = "**/*" ∷ [];
  env = [];
  tool_version = none;
}

unfoldable pub cache_enabled : TaskDefinition → Bool
cache_enabled d = elim d.cache [ none ↦ false | some c ↦ true ]

-- `resolve_script_name`: a blank command counts as none.
unfoldable pub resolve_script_name : Option String → String → String
resolve_script_name none task_name = task_name
resolve_script_name (some command) task_name =
    if is_empty (trim command) then task_name else trim command

-- `has_non_blank_command` of the task graph, and the second half of `counts_in_progress`.
unfoldable pub has_non_blank_command : Option String → Bool
has_non_blank_command none = false
has_non_blank_command (some command) = not (is_empty (trim command))

unfoldable pub counts_in_progress : TaskDefinition → Bool
unfolding has_non_blank_command
counts_in_progress d =
    (elim d.worker [ none ↦ false | some w ↦ true ]) || has_non_blank_command d.command

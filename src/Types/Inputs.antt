-- ===== src/Types/Inputs.antt =====
-- Input patterns and their parser (crates/luchta-types/src/lib.rs).
use luchta.Prelude.{◌||◌, Option, none, some, Result, ok, err, String, if◌then◌else◌}
use luchta.Text.{is_empty, strip_prefix, split_once}
use luchta.Types.{PackageName, InputSemantics, wildcard, classify_pattern}

pub data InputPattern : Type 0 where
  root_input : String → InputPattern
  specific_input : PackageName → String → InputPattern
  direct_input transitive_input same_package_input : String → InputPattern

unfoldable pub input_path : InputPattern → String
input_path (root_input p) = p
input_path (specific_input n p) = p
input_path (direct_input p) = p
input_path (transitive_input p) = p
input_path (same_package_input p) = p

unfoldable pub input_semantics : InputPattern → InputSemantics
unfolding classify_pattern
input_semantics (direct_input p) = wildcard
input_semantics (transitive_input p) = wildcard
input_semantics (root_input p) = classify_pattern p
input_semantics (specific_input n p) = classify_pattern p
input_semantics (same_package_input p) = classify_pattern p

pub record ParseInputPatternError : Type 0 where
  pub message : String

abbrev input_error : String → Result InputPattern ParseInputPatternError
input_error m = err (record { message = m })

-- `none` sends the caller on to the next form.
unfoldable pub parse_prefixed_value :
    (value prefix : String) (construct : String → InputPattern) (empty_message : String)
    → Option (Result InputPattern ParseInputPatternError)
parse_prefixed_value value prefix construct empty_message = elim (strip_prefix prefix value) [
  | none ↦ none
  | some remainder ↦
      some (if is_empty remainder then input_error empty_message else ok (construct remainder))
]

unfoldable pub parse_specific_input : String → Option (Result InputPattern ParseInputPatternError)
parse_specific_input value = elim (split_once "#" value) [
  | none ↦ none
  | some (p, path) ↦ some (
      if is_empty p || is_empty path
      then input_error "specific input must be `package#path`"
      else ok (specific_input p path))
]

unfoldable pub parse_same_package_input : String → Result InputPattern ParseInputPatternError
parse_same_package_input value =
    if is_empty value
    then input_error "same-package input must include path"
    else ok (same_package_input value)

-- The first form that applies.
abbrev or_else :
    Option (Result InputPattern ParseInputPatternError)
    → Result InputPattern ParseInputPatternError
    → Result InputPattern ParseInputPatternError
or_else (some parsed) rest = parsed
or_else none rest = rest

-- `FromStr for InputPattern`: `^^` is tried before `^`.
unfoldable pub parse_input : String → Result InputPattern ParseInputPatternError
unfolding parse_prefixed_value parse_specific_input parse_same_package_input
parse_input value =
    or_else
      (parse_prefixed_value value "^^" transitive_input
        "transitive upstream input must include path")
      (or_else
        (parse_prefixed_value value "^" direct_input "direct upstream input must include path")
        (or_else (parse_prefixed_value value "#" root_input "root input must include path")
          (or_else (parse_specific_input value) (parse_same_package_input value))))

-- ===== src/Types/RoundTrip.antt =====
-- Printing and parsing of dependency references (crates/luchta-types/src/lib.rs).
use luchta.Prelude.{◌≡◌, false, none, inl, inr, String, arith, ok, Option-cases}
use luchta.Text.{
  append, is_empty, contains_char, split_once-append, split_once_of_not-contains, strip_prefix,
  split_once, strip_prefix-eq, split_once-eq,
}
use luchta.Types.{
  DependsOn, direct_upstream, transitive_upstream, same_package, specific, root, task_is_root,
  task_id, root_package_name, task_id_to_string, as_config_string, parse_upstream, parse_local,
  parse_depends_on,
}

-- The reference names no task of the synthetic root package.
abbrev pub AvoidsRootPackage : DependsOn → Type 0
AvoidsRootPackage (specific i) = task_is_root i ≡ false
AvoidsRootPackage _ = Unit

parse_local-print :
    (s : String) (d : DependsOn)
    → parse_local s ≡ ok d
    → AvoidsRootPackage d
    → as_config_string d ≡ s
unfolding parse_local as_config_string task_id_to_string
parse_local-print s d h a = elim (Option-cases (strip_prefix "#" s)) [
  | inl bare ↦ elim (Option-cases (split_once "#" s)) [
    | inl plain ↦ ground arith
    | inr ((p, t), found) ↦ ground (arith, split_once-eq "#" s p t found)
  ]
  | inr (t, found) ↦ ground (arith, strip_prefix-eq "#" s t found)
]

-- What is parsed and names no root-package task is printed as it was written.
pub as_config_string-parse :
    (s : String) (d : DependsOn)
    → parse_depends_on s ≡ ok d
    → AvoidsRootPackage d
    → as_config_string d ≡ s
unfolding parse_depends_on parse_upstream as_config_string
as_config_string-parse s d h a = elim (Option-cases (strip_prefix "^^" s)) [
  | inr (t, found) ↦ ground (arith, strip_prefix-eq "^^" s t found)
  | inl not_two ↦ elim (Option-cases (strip_prefix "^" s)) [
    | inr (t, found) ↦ ground (arith, strip_prefix-eq "^" s t found)
    | inl not_one ↦ parse_local-print s d (ground arith) a
  ]
]

-- What was parsed, and names no root-package task, is parsed again from its own text.
pub parse-as_config_string :
    (s : String) (d : DependsOn)
    → parse_depends_on s ≡ ok d
    → AvoidsRootPackage d
    → parse_depends_on (as_config_string d) ≡ ok d
parse-as_config_string s d h a = rw (as_config_string-parse s d h a) h

-- For a `t` that is not empty, `//root#t` parses to a reference that prints as `#t`, and `#t` parses to
-- another reference.
pub root_package-reparsed :
    (t : String)
    → is_empty t ≡ false
    → (parse_depends_on (append "//root#" t) ≡ ok (specific (task_id root_package_name t)))
      × (parse_depends_on (as_config_string (specific (task_id root_package_name t))) ≡ ok (root t))
unfolding parse_depends_on parse_upstream parse_local as_config_string task_id_to_string
    strip_prefix split_once
root_package-reparsed t h = ground arith

-- Printed references of well-formed names are parsed back.
abbrev pub IsCanonical : DependsOn → Type 0
IsCanonical (direct_upstream t) = (is_empty t ≡ false) × (strip_prefix "^" t ≡ none)
IsCanonical (transitive_upstream t) = is_empty t ≡ false
IsCanonical (same_package t) =
    (is_empty t ≡ false) × (strip_prefix "^" t ≡ none) × (contains_char "#" t ≡ false)
IsCanonical (specific i) =
    (is_empty i.pkg ≡ false)
    × (is_empty i.task ≡ false)
    × (strip_prefix "^" i.pkg ≡ none)
    × (contains_char "#" i.pkg ≡ false)
    × (task_is_root i ≡ false)
IsCanonical (root t) = is_empty t ≡ false

parse-print-specific :
    (p t : String)
    → IsCanonical (specific (task_id p t))
    → parse_depends_on (append p (append "#" t)) ≡ ok (specific (task_id p t))
unfolding parse_depends_on parse_upstream parse_local strip_prefix split_once contains_char
parse-print-specific String.[] t c = cc
parse-print-specific (String.◌∷◌ x p) t c = ground (arith, split_once-append "#" p t)

-- Printing a reference of well-formed names and parsing the text gives the reference.
pub parse-print : (d : DependsOn) → IsCanonical d → parse_depends_on (as_config_string d) ≡ ok d
unfolding parse_depends_on parse_upstream parse_local as_config_string task_id_to_string
    strip_prefix split_once contains_char
parse-print (direct_upstream t) c = ground arith
parse-print (transitive_upstream t) c = ground arith
parse-print (same_package String.[]) c = cc
parse-print (same_package (String.◌∷◌ x t)) c = ground (arith, split_once_of_not-contains "#" t)
parse-print (specific i) c = rw (c.4) (parse-print-specific i.pkg i.task c)
parse-print (root t) c = ground arith

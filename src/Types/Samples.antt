-- ===== src/Types/Samples.antt =====
-- References of `dependsOn`, printed and parsed (crates/luchta-types/src/lib.rs).
use luchta.Prelude.{◌≡◌, refl, ok}
use luchta.Text.{append, contains_char, strip_prefix, split_once}
use luchta.Types.{
  DependsOn, specific, root, task_id, root_package_name, task_id_to_string, as_config_string,
  parse_upstream, parse_local, parse_depends_on,
}
use luchta.Types.RoundTrip.{IsCanonical, parse-as_config_string, root_package-reparsed, parse-print}

abbrev ui_build : DependsOn
ui_build = specific (task_id "@acme/ui" "build")

printing : Unit {0}
unfolding parse_depends_on parse_upstream parse_local as_config_string task_id_to_string
    strip_prefix split_once contains_char
printing = tt

ui_build_parsed : parse_depends_on "@acme/ui#build" ≡ ok ui_build
unfolding printing
ui_build_parsed = refl

parse-as_config_string_example : parse_depends_on (as_config_string ui_build) ≡ ok ui_build
unfolding printing
parse-as_config_string_example =
    parse-as_config_string "@acme/ui#build" ui_build ui_build_parsed refl

root_package-reparsed_example :
    (parse_depends_on (append "//root#" "lint") ≡ ok (specific (task_id root_package_name "lint")))
    × (parse_depends_on (as_config_string (specific (task_id root_package_name "lint")))
        ≡ ok (root "lint"))
root_package-reparsed_example = root_package-reparsed "lint" refl

ui_build-IsCanonical : IsCanonical ui_build
unfolding printing
ui_build-IsCanonical = (refl, refl, refl, refl, refl)

parse-print_example : parse_depends_on (as_config_string ui_build) ≡ ok ui_build
parse-print_example = parse-print ui_build ui_build-IsCanonical

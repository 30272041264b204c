-- ===== src/InputExpansion/Samples.antt =====
-- Input patterns of a package `app` that depends on `lib`
-- (crates/luchta-engine/src/input_expansion.rs).
use luchta.Prelude.{
  ◌≡◌, refl, true, false, none, Result, ok, err, List, [], ◌∷◌, inl, String, string_eq, ◌==◌,
  if◌then◌else◌,
}
use luchta.Prelude.Maps.{lookup, insert}
use luchta.Text.{strip_prefix, split_once, contains_char}
use luchta.Petgraph.Concrete.{lists}
use luchta.Types.{wildcard, classify_pattern}
use luchta.Types.Inputs.{
  input_path, input_semantics, parse_prefixed_value, parse_specific_input, parse_same_package_input,
  parse_input,
}
use luchta.PackageGraph.{
  PackageNode, PackageGraph, WorkspaceError, read_workspace_dependency_names, resolve_names,
  insert_nodes, collect_dependency_edges, add_edges, build, node_index, dependencies_of,
  package_order,
}
use luchta.PackageGraph.Search.{offer, offer_all, explore}
use luchta.Glob.{split_negation}
use luchta.TaskGraph.Upstream.{dependency_names, transitive_upstream_packages}
use luchta.InputExpansion.{
  ResolveRequest, path_escape, map_err, try_map, extract_literal_prefix, validate_path, package_dir,
  direct_upstream_packages, resolve_request, build_root_request, build_specific_request,
  build_upstream_requests, build_requests_for_pattern, parse_input_pattern, expand_pattern,
  expand_patterns, upstreams_of, expand_input_patterns,
}
use luchta.InputExpansion.Paths.{
  split_slashes, parts_components, components, join, last, pop, ends_normal, normalize,
  lexical_normalize, starts_with,
}
use luchta.InputExpansion.Bases.{IsConfined, expand_input_patterns-IsConfined}

abbrev package_node : String → String → PackageNode
package_node name path = record { name = name; path = path; scripts = [] }

abbrev packages : List PackageNode
packages = package_node "app" "/repo/app" ∷ package_node "lib" "/repo/lib" ∷ []

abbrev read : String → Result (List String × List String) WorkspaceError
read path = if path == "/repo/app" then ok ("lib" ∷ [], []) else ok ([], [])

abbrev no_packages : PackageGraph (lists PackageNode)
no_packages = record {
  graph = (lists PackageNode).empty;
  indices_by_name = [];
  root_package = none;
}

abbrev package_graph : PackageGraph (lists PackageNode)
package_graph = elim (build (lists PackageNode) read packages) [ ok g ↦ g | err e ↦ no_packages ]

program : Unit {0}
unfolding lists read_workspace_dependency_names resolve_names insert_nodes collect_dependency_edges
    add_edges build node_index dependencies_of package_order offer offer_all explore
    dependency_names transitive_upstream_packages lookup insert strip_prefix split_once
    contains_char classify_pattern input_path input_semantics parse_prefixed_value
    parse_specific_input parse_same_package_input parse_input split_negation map_err try_map
    extract_literal_prefix validate_path package_dir direct_upstream_packages resolve_request
    build_root_request build_specific_request build_upstream_requests build_requests_for_pattern
    parse_input_pattern expand_pattern expand_patterns upstreams_of expand_input_patterns
    split_slashes parts_components components join last pop ends_normal normalize lexical_normalize
    starts_with
program = tt

abbrev request : ResolveRequest
request = record {
  base_dir = "/repo/lib";
  pattern = "src/*.ts";
  semantics = wildcard;
  negated = false;
}

abbrev filter_request : ResolveRequest
filter_request = record { base_dir = "/repo"; pattern = "x"; semantics = wildcard; negated = true }

expanded :
    expand_input_patterns (lists PackageNode) ("^src/*.ts" ∷ "!x" ∷ []) "app" package_graph "/repo"
    ≡ ok (request ∷ filter_request ∷ [])
unfolding program
expanded = refl

refused :
    expand_input_patterns (lists PackageNode) ("a/../../lib/b" ∷ []) "app" package_graph "/repo"
    ≡ err (path_escape "app" "a/../../lib/b")
unfolding program
refused = refl

-- What stands after the first wildcard is not looked at.
unnoticed : validate_path "/repo/app" "*/../../lib/b" "app" "*/../../lib/b" ≡ ok tt
unfolding program
unnoticed = refl

expand_input_patterns-IsConfined_example :
    IsConfined (lists PackageNode) package_graph "/repo" request
expand_input_patterns-IsConfined_example =
    expand_input_patterns-IsConfined (lists PackageNode) ("^src/*.ts" ∷ "!x" ∷ []) "app"
      package_graph "/repo" (request ∷ filter_request ∷ []) expanded request (inl refl)

-- ===== src/InputExpansion.antt =====
-- crates/luchta-engine/src/input_expansion.rs: input patterns become requests for files. A path is a
-- string, as it is written, and `Paths` has its components.
pub mod Paths
mod Samples
pub mod Bases
use Prim.Native.Char.{code}
use luchta.Prelude.{
  Bool, true, false, ◌||◌, ◌&&◌, Option, none, some, Result, ok, err, ◌>>=◌, List, [], ◌∷◌, ◌++◌,
  String, string_eq, ◌==◌, map, nat_beq, if◌then◌else◌,
}
use luchta.Text.{append}
use luchta.Petgraph.{Digraph}
use luchta.Types.{PackageName, package_is_root, root_package_name, InputSemantics, wildcard}
use luchta.Types.Inputs.{
  InputPattern, root_input, specific_input, direct_input, transitive_input, same_package_input,
  input_path, input_semantics, parse_input,
}
use luchta.PackageGraph.{PackageNode, PackageGraph, WorkspaceError, dependencies_of, package_order}
use luchta.Glob.{split_negation}
use luchta.TaskGraph.Upstream.{dependency_names, transitive_upstream_packages}
use luchta.InputExpansion.Paths.{join, components, lexical_normalize, starts_with}

-- A request of the cache's resolver (crates/luchta-cache/src/resolve.rs).
pub record ResolveRequest : Type 0 where
  pub base_dir : String
  pub pattern : String
  pub semantics : InputSemantics
  pub negated : Bool

pub data InputExpansionError : Type 0 where
  unknown_package : (pkg : PackageName) (pattern : String) → InputExpansionError
  path_escape : (source_pkg : PackageName) (pattern : String) → InputExpansionError
  invalid_pattern : (source_pkg : PackageName) (pattern reason : String) → InputExpansionError

-- `map_err`
unfoldable pub map_err : {A E F : Type 0} → (E → F) → Result A E → Result A F
map_err f (ok a) = ok a
map_err f (err e) = err (f e)

-- `map` and `collect` into a result: the first error ends it.
unfoldable pub try_map : {A B E : Type 0} → (A → Result B E) → List A → Result (List B) E
try_map f [] = ok []
try_map f (x ∷ xs) = do y ← f x; ys ← try_map f xs; ok (y ∷ ys)

unfoldable pub extract_literal_prefix : String → String
extract_literal_prefix String.[] = String.[]
extract_literal_prefix (String.◌∷◌ c s) =
    let rest = String.◌∷◌ c (extract_literal_prefix s) in
    if nat_beq (code c) 42 || nat_beq (code c) 63 || nat_beq (code c) 91 || nat_beq (code c) 123
    then String.[]
    else rest

unfoldable pub validate_path :
    (base_dir pattern : String) (source_pkg : PackageName) (original_pattern : String)
    → Result {0, 0} Unit InputExpansionError
unfolding extract_literal_prefix join lexical_normalize starts_with components
validate_path base_dir pattern source_pkg original_pattern =
    if starts_with (lexical_normalize (join base_dir (extract_literal_prefix pattern)))
      (components base_dir)
    then ok tt
    else err (path_escape source_pkg original_pattern)

abbrev find_package : PackageName → List PackageNode → Option PackageNode
find_package name [] = none
find_package name (p ∷ packages) = if p.name == name then some p else find_package name packages

module _ (d : Digraph PackageNode) where
  unfoldable pub package_dir :
      PackageGraph d → PackageName → (pattern : String) → Result String InputExpansionError
  unfolding map_err
  package_dir g name pattern =
      if package_is_root name then err (unknown_package name pattern) else do
        nodes ← map_err (λ e. unknown_package name pattern) (package_order d g)
        elim (find_package name nodes) [
          | some node ↦ ok node.path
          | none ↦ err (unknown_package name pattern)
        ]

  unfoldable pub direct_upstream_packages :
      PackageGraph d → PackageName → Result (List PackageName) InputExpansionError
  unfolding map_err dependency_names
  direct_upstream_packages g name =
      map_err (λ e. unknown_package name "") (dependency_names d g name)

  pub record ExpansionCtx : Type 0 where
    pub source_pkg : PackageName
    pub graph : PackageGraph d
    pub repo_root : String
    pub direct_upstreams : List PackageName
    pub transitive_upstreams : List PackageName

  pub record PatternSpec : Type 0 where
    pub path : String
    pub original_pattern : String

  unfoldable pub resolve_request :
      ExpansionCtx
      → PackageName
      → PatternSpec
      → InputSemantics
      → Result ResolveRequest InputExpansionError
  unfolding package_dir validate_path
  resolve_request c name spec semantics = do
    base ←
        if package_is_root name
        then ok c.repo_root
        else package_dir c.graph name spec.original_pattern
    valid ← validate_path base spec.path c.source_pkg spec.original_pattern
    ok (record { base_dir = base; pattern = spec.path; semantics = semantics; negated = false })

  -- One request.
  unfoldable pub build_root_request :
      ExpansionCtx → PatternSpec → Result (List ResolveRequest) InputExpansionError
  unfolding resolve_request input_semantics
  build_root_request c spec = do
    request ← resolve_request c root_package_name spec (input_semantics (root_input spec.path))
    ok (request ∷ [])

  unfoldable pub build_specific_request :
      ExpansionCtx → PackageName → PatternSpec → Result (List ResolveRequest) InputExpansionError
  unfolding resolve_request input_semantics
  build_specific_request c name spec = do
    let semantics =
        if name == c.source_pkg
        then input_semantics (same_package_input spec.path)
        else input_semantics (specific_input name spec.path)
    request ← resolve_request c name spec semantics
    ok (request ∷ [])

  unfoldable pub build_upstream_requests :
      ExpansionCtx
      → List PackageName
      → PatternSpec
      → Result (List ResolveRequest) InputExpansionError
  unfolding resolve_request try_map
  build_upstream_requests c upstreams spec =
      try_map (λ upstream. resolve_request c upstream spec wildcard) upstreams

  unfoldable pub build_requests_for_pattern :
      ExpansionCtx → InputPattern → PatternSpec → Result (List ResolveRequest) InputExpansionError
  unfolding build_root_request build_specific_request build_upstream_requests
  build_requests_for_pattern c (same_package_input p) spec =
      build_specific_request c c.source_pkg spec
  build_requests_for_pattern c (root_input p) spec = build_root_request c spec
  build_requests_for_pattern c (specific_input name p) spec = build_specific_request c name spec
  build_requests_for_pattern c (direct_input p) spec =
      build_upstream_requests c c.direct_upstreams spec
  build_requests_for_pattern c (transitive_input p) spec =
      build_upstream_requests c c.transitive_upstreams spec

  unfoldable pub parse_input_pattern :
      String → PackageName → Result InputPattern InputExpansionError
  unfolding map_err parse_input
  parse_input_pattern pattern source_pkg =
      map_err (λ e. invalid_pattern source_pkg pattern e.message) (parse_input pattern)

  -- The requests of one pattern. A negated one is a filter over what the others resolve.
  unfoldable pub expand_pattern :
      ExpansionCtx → String → Result (List ResolveRequest) InputExpansionError
  unfolding split_negation parse_input_pattern build_requests_for_pattern input_path
  expand_pattern c pattern =
      if (split_negation pattern).0
      then ok (
          record {
            base_dir = c.repo_root;
            pattern = (split_negation pattern).1;
            semantics = wildcard;
            negated = true;
          }
          ∷ [])
      else do
        parsed ← parse_input_pattern pattern c.source_pkg
        build_requests_for_pattern c parsed
            (record { path = input_path parsed; original_pattern = pattern })

  unfoldable pub expand_patterns :
      ExpansionCtx → List String → Result (List ResolveRequest) InputExpansionError
  unfolding expand_pattern
  expand_patterns c [] = ok []
  expand_patterns c (pattern ∷ patterns) = do
    requests ← expand_pattern c pattern
    rest ← expand_patterns c patterns
    ok (requests ++ rest)

  -- The packages upstream of the source, none for the workspace's root without a root package.
  unfoldable pub upstreams_of :
      (source_pkg : PackageName) (g : PackageGraph d)
      → Result (List PackageName × List PackageName) InputExpansionError
  unfolding direct_upstream_packages transitive_upstream_packages map_err
  upstreams_of source_pkg g =
      let upstream_source =
        if package_is_root source_pkg
        then elim g.root_package [ some name ↦ name | none ↦ source_pkg ]
        else source_pkg in
      if package_is_root source_pkg && package_is_root upstream_source then ok ([], []) else do
        direct ← direct_upstream_packages g upstream_source
        transitive ←
            map_err (λ e. unknown_package source_pkg "")
              (transitive_upstream_packages d g upstream_source)
        ok (direct, transitive)

  unfoldable pub expand_input_patterns :
      List String
      → (source_pkg : PackageName) (g : PackageGraph d) (repo_root : String)
      → Result (List ResolveRequest) InputExpansionError
  unfolding upstreams_of expand_patterns
  expand_input_patterns patterns source_pkg g repo_root = do
    (direct, transitive) ← upstreams_of source_pkg g
    expand_patterns
        (record {
          source_pkg = source_pkg;
          graph = g;
          repo_root = repo_root;
          direct_upstreams = direct;
          transitive_upstreams = transitive;
        })
        patterns

-- ===== src/InputExpansion/Bases.antt =====
-- Where the requests of input patterns look for files (crates/luchta-engine/src/input_expansion.rs).
use luchta.Prelude.{
  ◌≡◌, refl, sym, subst, ap, ◌∙◌, inl, inr, ◌⊎◌, Bool, true, false, some, Option-cases,
  some-injective, Result, ok, err, ◌>>=◌, bind-ok, err_not_ok, ok-injective, List, [], ◌∷◌, ◌++◌,
  In, In-append, String, string_eq, ◌==◌, Bool-cases, if◌then◌else◌,
}
use luchta.Petgraph.{Digraph}
use luchta.Types.{PackageName, package_is_root, InputSemantics, root_package_name, wildcard}
use luchta.Types.Inputs.{
  InputPattern, root_input, specific_input, direct_input, transitive_input, same_package_input,
}
use luchta.PackageGraph.{PackageNode, PackageGraph, package_order}
use luchta.Glob.{split_negation}
use luchta.InputExpansion.{
  ResolveRequest, InputExpansionError, ExpansionCtx, PatternSpec, map_err, try_map,
  extract_literal_prefix, validate_path, find_package, package_dir, resolve_request,
  build_root_request, build_specific_request, build_upstream_requests, build_requests_for_pattern,
  expand_pattern, expand_patterns, expand_input_patterns, upstreams_of, parse_input_pattern,
}
use luchta.InputExpansion.Paths.{join, components, lexical_normalize, starts_with, ends_normal}
use luchta.InputExpansion.Paths.Within.{IsWithin, lexical_normalize-IsWithin}

map_err-ok : {A E F : Type 0} (f : E → F) (r : Result A E) (a : A) → map_err f r ≡ ok a → r ≡ ok a
unfolding map_err
map_err-ok f (ok b) a h = ap ok (ok-injective b a h)
map_err-ok f (err e) a h = absurd (err_not_ok h)

-- Each result is that of an element.
try_map-In :
    {A B E : Type 0} (f : A → Result B E) (xs : List A) (ys : List B)
    → try_map f xs ≡ ok ys
    → (y : B) → In y ys
    → (x : A) × In x xs × (f x ≡ ok y)
unfolding try_map
try_map-In f [] ys h y i = absurd (subst (In y) (sym (ok-injective [] ys h)) i)
try_map-In f (x ∷ xs) ys h y i =
    let (first, q, h') = bind-ok (f x) _ ys h in
    let (rest, r, h'') = bind-ok (try_map f xs) _ ys h' in
    elim (subst (In y) (sym (ok-injective (first ∷ rest) ys h'')) i) [
      | inl e ↦ (x, inl refl, q ∙ ap ok (sym e))
      | inr j ↦ let (z, k, s) = try_map-In f xs rest r y j in (z, inr k, s)
    ]

either :
    {A E : Type 0} (b : Bool) (x y : Result A E) (a : A)
    → (if b then x else y) ≡ ok a
    → (x ≡ ok a) ⊎ (y ≡ ok a)
either true x y a h = inl h
either false x y a h = inr h

find_package-In :
    (name : PackageName) (nodes : List PackageNode) (p : PackageNode)
    → find_package name nodes ≡ some p
    → In p nodes
find_package-In name [] p h = cc
find_package-In name (node ∷ nodes) p h = elim (Bool-cases (node.name == name)) [
  | inl same ↦ inl (sym (some-injective node p (rw (find_package, same) at h)))
  | inr other ↦ inr (find_package-In name nodes p (rw (find_package, other) at h))
]

module _ (d : Digraph PackageNode) (g : PackageGraph d) (repo_root : String) where
  -- The workspace's root, or the directory of one of its packages.
  abbrev pub IsBase : String → Type 0
  IsBase dir =
      (dir ≡ repo_root)
      ⊎ ((nodes : List PackageNode) × (package_order d g ≡ ok nodes)
          × ((p : PackageNode) × In p nodes × (dir ≡ p.path)))

  -- A negated request is a filter at the root. Any other looks in a base, and what its pattern says
  -- before the first wildcard does not lead out of it.
  abbrev pub IsConfined : ResolveRequest → Type 0
  IsConfined r =
      (r.negated ≡ true) × (r.base_dir ≡ repo_root)
      ⊎ (r.negated ≡ false)
        × IsBase r.base_dir
        × (ends_normal (components r.base_dir) ≡ true
            → IsWithin (lexical_normalize (join r.base_dir (extract_literal_prefix r.pattern)))
                (components r.base_dir))

  package_dir-IsBase :
      (name : PackageName) (pattern dir : String)
      → package_dir d g name pattern ≡ ok dir
      → IsBase dir
  unfolding package_dir
  package_dir-IsBase name pattern dir h = elim (Bool-cases (package_is_root name)) [
    | inl yes_root ↦ absurd (err_not_ok (rw (package_dir, yes_root) at h))
    | inr no_root ↦
        let (nodes, q, h') =
          bind-ok (map_err _ (package_order d g)) _ dir (rw (package_dir, no_root) at h) in
        elim (Option-cases (find_package name nodes)) [
          | inl missing ↦ absurd (err_not_ok (rw missing at h'))
          | inr (p, found) ↦ inr (
            nodes,
            map_err-ok _ (package_order d g) nodes q,
            (p, find_package-In name nodes p found, sym (ok-injective p.path dir (rw found at h'))),
          )
        ]
  ]

  validate_path-IsWithin :
      (base pattern : String) (source : PackageName) (original : String) (u : Unit {0})
      → validate_path base pattern source original ≡ ok u
      → ends_normal (components base) ≡ true
      → IsWithin (lexical_normalize (join base (extract_literal_prefix pattern))) (components base)
  unfolding validate_path
  validate_path-IsWithin base pattern source original u h named =
      elim (Bool-cases (
        starts_with (lexical_normalize (join base (extract_literal_prefix pattern)))
          (components base))) [
            | inl inside ↦
                lexical_normalize-IsWithin (join base (extract_literal_prefix pattern))
                  (components base) named inside
            | inr outside ↦ absurd (err_not_ok (rw (validate_path, outside) at h))
          ]

module _ (d : Digraph PackageNode) (c : ExpansionCtx d) where
  abbrev AllConfined : List ResolveRequest → Type 0
  AllConfined requests = (r : ResolveRequest) → In r requests → IsConfined d c.graph c.repo_root r

  request-IsConfined :
      (base : String) (spec : PatternSpec d) (semantics : InputSemantics) (r : ResolveRequest)
      (u : Unit {0})
      → IsBase d c.graph c.repo_root base
      → validate_path base spec.path c.source_pkg spec.original_pattern ≡ ok u
      → ◌≡◌ {A = Result ResolveRequest InputExpansionError}
          (ok (record {
            base_dir = base;
            pattern = spec.path;
            semantics = semantics;
            negated = false;
          }))
          (ok r)
      → IsConfined d c.graph c.repo_root r
  request-IsConfined base spec semantics r u b valid h =
      subst (IsConfined d c.graph c.repo_root)
        (ok-injective
          (record { base_dir = base; pattern = spec.path; semantics = semantics; negated = false })
          r h)
        (inr (
          refl,
          b,
          validate_path-IsWithin d c.graph c.repo_root base spec.path c.source_pkg
              spec.original_pattern u valid,
        ))

  resolve_request-IsConfined :
      (name : PackageName) (spec : PatternSpec d) (semantics : InputSemantics) (r : ResolveRequest)
      → resolve_request d c name spec semantics ≡ ok r
      → IsConfined d c.graph c.repo_root r
  unfolding resolve_request
  resolve_request-IsConfined name spec semantics r h =
      let (base, q, h') =
        bind-ok
          (if package_is_root name
            then ok c.repo_root
            else package_dir d c.graph name spec.original_pattern)
          _ r h in
      let (u, valid, h'') =
        bind-ok (validate_path base spec.path c.source_pkg spec.original_pattern) _ r h' in
      request-IsConfined base spec semantics r u
        (elim (either (package_is_root name) _ _ base q) [
          | inl at_root ↦ inl (sym (ok-injective c.repo_root base at_root))
          | inr inside ↦
              package_dir-IsBase d c.graph c.repo_root name spec.original_pattern base inside
        ])
        valid h''

  -- One request, in a list of its own.
  one-IsConfined :
      (name : PackageName) (spec : PatternSpec d) (semantics : InputSemantics)
      (requests : List ResolveRequest)
      → (resolve_request d c name spec semantics >>= λ request. ok (request ∷ [])) ≡ ok requests
      → AllConfined requests
  one-IsConfined name spec semantics requests h r i =
      let (request, q, h') = bind-ok (resolve_request d c name spec semantics) _ requests h in
      elim (subst (In r) (sym (ok-injective (request ∷ []) requests h')) i) [
        | inl e ↦ resolve_request-IsConfined name spec semantics r (q ∙ ap ok (sym e))
        | inr n ↦ absurd n
      ]

  upstream-IsConfined :
      (upstreams : List PackageName) (spec : PatternSpec d) (requests : List ResolveRequest)
      → build_upstream_requests d c upstreams spec ≡ ok requests
      → AllConfined requests
  unfolding build_upstream_requests
  upstream-IsConfined upstreams spec requests h r i =
      let (name, j, q) =
        try_map-In (λ upstream. resolve_request d c upstream spec wildcard) upstreams requests h r
          i in
      resolve_request-IsConfined name spec wildcard r q

  build_requests-IsConfined :
      (parsed : InputPattern) (spec : PatternSpec d) (requests : List ResolveRequest)
      → build_requests_for_pattern d c parsed spec ≡ ok requests
      → AllConfined requests
  unfolding build_requests_for_pattern build_root_request build_specific_request
  build_requests-IsConfined (same_package_input p) spec requests h =
      one-IsConfined c.source_pkg spec _ requests h
  build_requests-IsConfined (root_input p) spec requests h =
      one-IsConfined root_package_name spec _ requests h
  build_requests-IsConfined (specific_input name p) spec requests h =
      one-IsConfined name spec _ requests h
  build_requests-IsConfined (direct_input p) spec requests h =
      upstream-IsConfined c.direct_upstreams spec requests h
  build_requests-IsConfined (transitive_input p) spec requests h =
      upstream-IsConfined c.transitive_upstreams spec requests h

  expand_pattern-IsConfined :
      (pattern : String) (requests : List ResolveRequest)
      → expand_pattern d c pattern ≡ ok requests
      → AllConfined requests
  unfolding expand_pattern
  expand_pattern-IsConfined pattern requests h r i = elim (Bool-cases (split_negation pattern).0) [
    | inl negated ↦
        let e = ok-injective _ requests (rw (expand_pattern, negated) at h) in
        elim (subst (In r) (sym e) i) [
          | inl q ↦
              inl (
                ap (λ (x : ResolveRequest). x.negated) q,
                ap (λ (x : ResolveRequest). x.base_dir) q,
              )
          | inr n ↦ absurd n
        ]
    | inr plain ↦
        let (parsed, q, h') =
          bind-ok (parse_input_pattern d pattern c.source_pkg) _ requests
            (rw (expand_pattern, plain) at h) in
        build_requests-IsConfined parsed _ requests h' r i
  ]

  expand_patterns-IsConfined :
      (patterns : List String) (requests : List ResolveRequest)
      → expand_patterns d c patterns ≡ ok requests
      → AllConfined requests
  unfolding expand_patterns
  expand_patterns-IsConfined [] requests h r i =
      absurd (subst (In r) (sym (ok-injective [] requests h)) i)
  expand_patterns-IsConfined (pattern ∷ patterns) requests h r i =
      let (first, q, h') = bind-ok (expand_pattern d c pattern) _ requests h in
      let (rest, q', h'') = bind-ok (expand_patterns d c patterns) _ requests h' in
      elim ((In-append r first rest).0
        (subst (In r) (sym (ok-injective (first ++ rest) requests h'')) i)) [
          | inl j ↦ expand_pattern-IsConfined pattern first q r j
          | inr j ↦ expand_patterns-IsConfined patterns rest q' r j
        ]

-- When patterns are expanded, each request that is not a negation looks in the workspace's root or
-- the directory of a package of it. If that directory ends in a name, then what stands before the
-- first wildcard of the pattern, joined to the directory and normalized, leads from it down by names
-- only. A negation is a filter at the root.
pub expand_input_patterns-IsConfined :
    (d : Digraph PackageNode) (patterns : List String) (source : PackageName) (g : PackageGraph d)
    (repo_root : String) (requests : List ResolveRequest)
    → expand_input_patterns d patterns source g repo_root ≡ ok requests
    → (r : ResolveRequest) → In r requests
    → IsConfined d g repo_root r
unfolding expand_input_patterns
expand_input_patterns-IsConfined d patterns source g repo_root requests h =
    let ((direct, transitive), q, h') = bind-ok (upstreams_of d source g) _ requests h in
    expand_patterns-IsConfined d
      (record {
        source_pkg = source;
        graph = g;
        repo_root = repo_root;
        direct_upstreams = direct;
        transitive_upstreams = transitive;
      })
      patterns requests h'

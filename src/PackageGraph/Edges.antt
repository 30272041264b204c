-- ===== src/PackageGraph/Edges.antt =====
-- The edges of a package graph (crates/luchta-workspace/src/package_graph.rs).
use luchta.Prelude.{
  ℕ, ◌≡◌, refl, sym, subst, ap, ◌∙◌, inl, inr, ◌⊎◌, ◌↔◌, some, some-injective, Result, ok, bind-ok,
  err_not_ok, ok-injective, List, [], ◌∷◌, ◌++◌, append_nil, append_assoc, String, string_eq,
  nat_eq, pair_eq, map, filter, contains, contains-In, In-contains, In, In-filter, In-map, map-In,
  Option-cases,
}
use luchta.Prelude.Maps.{Map, lookup, keys, values, In-keys_of_lookup}
use luchta.Petgraph.{Digraph, IsPetgraph}
use luchta.Petgraph.Indexed.{IsIndexed}
use luchta.Types.{PackageName}
use luchta.PackageGraph.{
  PackageNode, PackageGraph, WorkspaceError, insert_nodes, read_workspace_dependency_names,
  resolve_names, collect_dependency_edges, add_edges, build, set_extend,
}
use luchta.PackageGraph.Sets.{In-set_extend}
use luchta.PackageGraph.Indexed.{name_of, insert_nodes-IsTable}

abbrev pub Read : Type 0
Read = String → Result (List String × List String) WorkspaceError

-- What a manifest says: `name` is a key of one of its two tables.
abbrev pub Declares : Read → PackageNode → PackageName → Type 0
Declares read p name =
    (t : List String × List String) × (read p.path ≡ ok t) × In name ((t.0) ++ (t.1))

-- An edge of the graph: the package at its source declares the one at its target.
abbrev pub IsDependency : Read → Map PackageName ℕ → Map ℕ PackageNode → ℕ → ℕ → Type 0
IsDependency read indices nodes a b =
    (p : PackageNode) × In (a, p) nodes
    × ((n : PackageName) × Declares read p n × (lookup n indices ≡ some b))

module _ (d : Digraph PackageNode) (laws : IsPetgraph d) (read : Read)
    (indices : Map PackageName ℕ) where
  open d use {Graph, node_references, edge_references, add_edge}

  read-In :
      (p : PackageNode) (names : List PackageName)
      → read_workspace_dependency_names read p.path (keys indices) ≡ ok names
      → (n : PackageName) → In n names ↔ (Declares read p n × In n (keys indices))
  unfolding read_workspace_dependency_names
  read-In p names h n =
      let (t, r, q) = bind-ok (read p.path) _ names h in
      let same =
        ok-injective (set_extend [] (filter (contains (keys indices)) (t.0 ++ t.1))) names q in
      let extended = In-set_extend n [] (filter (contains (keys indices)) (t.0 ++ t.1)) in
      let filtered = In-filter (contains (keys indices)) n (t.0 ++ t.1) in
      (
        λ i. elim (extended.0 (subst (In n) (sym same) i)) [
          | inl k ↦ absurd k
          | inr k ↦ let (j, c) = filtered.0 k in ((t, r, j), contains-In n (keys indices) c)
        ],
        λ ((t', r', j), k). subst (In n) same (
            extended.1 (
              inr (
                filtered.1 (
                  subst (λ (u : List String × List String). In n (u.0 ++ u.1))
                      (ok-injective t' t (sym r' ∙ r)) j,
                  In-contains n (keys indices) k,
                )))),
      )

  resolve-In :
      (source : PackageName) (names : List PackageName) (targets : List ℕ)
      → resolve_names d indices source names ≡ ok targets
      → (b : ℕ) → In b targets ↔ ((n : PackageName) × In n names × (lookup n indices ≡ some b))
  unfolding resolve_names
  resolve-In source [] targets h b =
      let q = ok-injective [] targets h in
      (λ i. absurd (subst (In b) (sym q) i), λ (n, i, l). absurd i)
  resolve-In source (name ∷ names) targets h b = elim (Option-cases (lookup name indices)) [
    | inl missing ↦ absurd (err_not_ok (rw (resolve_names, missing) at h))
    | inr (index, found) ↦
        let (rest, r, q) =
          bind-ok (resolve_names d indices source names) _ targets
            (rw (resolve_names, found) at h) in
        let same = ok-injective (index ∷ rest) targets q in
        let ih = resolve-In source names rest r b in
        (
          λ i. elim (subst (In b) (sym same) i) [
            | inl e ↦ (name, inl refl, found ∙ ap some (sym e))
            | inr k ↦ let (n, j, l) = ih.0 k in (n, inr j, l)
          ],
          λ (n, i, l). subst (In b) same (elim i [
            | inl e ↦ inl (some-injective b index (sym l ∙ (ap (λ m. lookup m indices) e ∙ found)))
            | inr j ↦ inr (ih.1 (n, j, l))
          ]),
        )
  ]

  collect-In :
      (nodes : Map ℕ PackageNode) (edges found : List (ℕ × ℕ))
      → collect_dependency_edges d read nodes indices edges ≡ ok found
      → (a b : ℕ) → In (a, b) found ↔ (In (a, b) edges ⊎ IsDependency read indices nodes a b)
  unfolding collect_dependency_edges
  collect-In [] edges found h a b =
      let q = ok-injective edges found h in
      (
        λ i. inl (subst (In (a, b)) (sym q) i),
        λ i. elim i [ inl k ↦ subst (In (a, b)) q k | inr (p, m, r) ↦ absurd m ],
      )
  collect-In ((source, node) ∷ nodes) edges found h a b =
      let (names, r, h') =
        bind-ok (read_workspace_dependency_names read node.path (keys indices)) _ found h in
      let (targets, r', h'') = bind-ok (resolve_names d indices node.name names) _ found h' in
      let ih =
        collect-In nodes (set_extend edges (map (λ target. (source, target)) targets)) found h'' a
          b in
      let extended = In-set_extend (a, b) edges (map (λ target. (source, target)) targets) in
      let target_names = resolve-In node.name names targets r' in
      (
        λ i. elim (ih.0 i) [
          | inr (p, m, k) ↦ inr (p, inr m, k)
          | inl k ↦ elim (extended.0 k) [
            | inl old ↦ inl old
            | inr new ↦
                let (target, j, q) = map-In (λ target. (source, target)) (a, b) targets new in
                let (n, j', l) = (target_names target).0 j in
                inr (
                  node,
                  inl (ap (λ z. (z, node)) (ap (λ (e : ℕ × ℕ). e.0) q)),
                  (
                    n,
                    ((read-In node names r n).0 j').0,
                    l ∙ ap some (ap (λ (e : ℕ × ℕ). e.1) (sym q)),
                  ),
                )
          ]
        ],
        λ i. ih.1 (elim i [
          | inl old ↦ inl (extended.1 (inl old))
          | inr (p, inr m, k) ↦ inr (p, m, k)
          | inr (p, inl q, (n, k, l)) ↦ inl (
              extended.1 (
                inr (
                  subst
                    (λ (e : ℕ × PackageNode).
                      In {A = ℕ × ℕ} (e.0, b) (map (λ target. (source, target)) targets))
                    (sym q)
                    (In-map (λ target. (source, target)) b targets
                      ((target_names b).1 (
                        n,
                        (read-In node names r n).1 (
                          subst (λ (e : ℕ × PackageNode). Declares read (e.1) n) q k,
                          In-keys_of_lookup n indices l,
                        ),
                        l,
                      ))))))
        ]),
      )

  add_edges_nodes :
      (edges : List (ℕ × ℕ)) (g : Graph)
      → (node_references (add_edges d edges g) ≡ node_references g)
        × (edge_references (add_edges d edges g) ≡ edge_references g ++ edges)
  unfolding add_edges
  add_edges_nodes [] g = (refl, sym (append_nil (edge_references g)))
  add_edges_nodes ((a, b) ∷ edges) g =
      let (nodes, listed) = add_edges_nodes edges (add_edge g a b) in
      (
        nodes ∙ laws.add_edge_nodes g a b,
        listed
            ∙ (ap (λ l. l ++ edges) (laws.add_edge_edges g a b)
                ∙ append_assoc (edge_references g) (a, b) edges),
      )

module _ (d : Digraph PackageNode) (laws : IsPetgraph d) where
  open d use {Graph, empty, node_references, edge_references}

  -- What `build` establishes: its table finds the nodes, which are the packages, and an edge leads
  -- from a package to one that its manifest declares.
  pub record IsBuilt (read : Read) (packages : List PackageNode) (g : PackageGraph d) : Type 0 where
    pub indexed : IsIndexed name_of (node_references g.graph) g.indices_by_name
    pub listed : values (node_references g.graph) ≡ packages
    pub edges_iff :
        (a b : ℕ)
        → In (a, b) (edge_references g.graph)
          ↔ IsDependency read g.indices_by_name (node_references g.graph) a b

  pub build-IsBuilt :
      (read : Read) (packages : List PackageNode) (g : PackageGraph d)
      → build d read packages ≡ ok g
      → IsBuilt read packages g
  unfolding build
  build-IsBuilt read packages g h =
      let ((first, indices), q, h') = bind-ok (insert_nodes d packages empty []) _ g h in
      let (edges, r, h'') =
        bind-ok (collect_dependency_edges d read (node_references first) indices []) _ g h' in
      let ((indexed, none_yet), listed) = insert_nodes-IsTable d laws packages first indices q in
      let (same_nodes, all_edges) = add_edges_nodes d laws read indices edges first in
      let collected = collect-In d laws read indices (node_references first) [] edges r in
      subst (IsBuilt read packages) (ok-injective _ g h'') (record {
        indexed = subst (λ l. IsIndexed name_of l indices) (sym same_nodes) indexed;
        listed = ap values same_nodes ∙ listed;
        edges_iff = λ a b. (
          λ i.
              elim ((collected a b).0
                (subst (In (a, b)) (all_edges ∙ ap (λ l. l ++ edges) none_yet) i)) [
                  | inl k ↦ absurd k
                  | inr k ↦ subst (λ l. IsDependency read indices l a b) (sym same_nodes) k
                ],
          λ k.
              subst (In (a, b)) (sym (all_edges ∙ ap (λ l. l ++ edges) none_yet)) (
                (collected a b).1
                  (inr (subst (λ l. IsDependency read indices l a b) same_nodes k))),
        );
      })

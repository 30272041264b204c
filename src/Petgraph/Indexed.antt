-- ===== src/Petgraph/Indexed.antt =====
-- A graph whose nodes have keys, with the table that finds the index of each key: how
-- crates/luchta-workspace/src/package_graph.rs and crates/luchta-engine/src/task_graph.rs fill one.
use luchta.Prelude.{
  ℕ, ◌≡◌, refl, sym, subst, ap, ◌∙◌, inl, inr, some, some-injective, [], ◌∷◌, ◌++◌, nat_eq,
  PartialEq, ◌==◌, beq_refl, eq_of_beq, In, In-append, Distinct, Distinct-concat, Bool-cases,
}
use luchta.Prelude.Maps.{
  Map, lookup, insert, keys, values, lookup-insert, In-keys_of_lookup, lookup_of_In, lookup_or,
  lookup_or-found,
}
use luchta.Petgraph.{Digraph, IsPetgraph}

module _ {N : Type 0} where
  concat_keys :
      (l : Map ℕ N) (index : ℕ) (p : N) → keys (l ++ (index, p) ∷ []) ≡ keys l ++ index ∷ []
  concat_keys [] index p = refl
  concat_keys (x ∷ l) index p = ap (λ k. x.0 ∷ k) (concat_keys l index p)

  pub concat_values :
      (l : Map ℕ N) (index : ℕ) (p : N) → values (l ++ (index, p) ∷ []) ≡ values l ++ p ∷ []
  concat_values [] index p = refl
  concat_values (x ∷ l) index p = ap (λ k. x.1 ∷ k) (concat_values l index p)

-- Each node stands in the table under its key, at its index, and nothing else does.
module _ {N K : Type 0} ⦃e : PartialEq K⦄ (key : N → K) where
  pub record IsIndexed (nodes : Map ℕ N) (indices : Map K ℕ) : Type 0 where
    pub node_of :
        (k : K) (i : ℕ)
        → lookup k indices ≡ some i
        → (node : N) × In (i, node) nodes × (key node ≡ k)
    pub index_of : (i : ℕ) (node : N) → In (i, node) nodes → lookup (key node) indices ≡ some i
    pub nodes_distinct : Distinct (keys nodes)

  pub nothing-IsIndexed : IsIndexed [] []
  unfolding lookup
  nothing-IsIndexed = record {
    node_of = λ k i h. cc;
    index_of = λ i node m. absurd m;
    nodes_distinct = tt;
  }

  -- The node at the index of a key has that key.
  pub key-lookup_or :
      (nodes : Map ℕ N) (indices : Map K ℕ) (none_such : N) (k : K) (i : ℕ)
      → IsIndexed nodes indices
      → lookup k indices ≡ some i
      → key (lookup_or none_such i nodes) ≡ k
  key-lookup_or nodes indices none_such k i v h =
      let (node, m, q) = v.node_of k i h in
      ap key (lookup_or-found none_such i node nodes (lookup_of_In i node nodes v.nodes_distinct m))
      ∙ q

  module _ (nodes : Map ℕ N) (indices : Map K ℕ) (v : IsIndexed nodes indices) (index : ℕ) (p : N)
      (fresh : ¬ In index (keys nodes)) (free : ¬ In (key p) (keys indices)) where
    at_index : (i : ℕ) → i ≡ index → ◌≡◌ {A = ℕ × N} (i, p) (index, p)
    at_index i q = ap (λ j. (j, p)) q

    added :
        (i : ℕ) (node : N)
        → ◌≡◌ {A = ℕ × N} (i, node) (index, p)
        → lookup (key node) (insert (key p) index indices) ≡ some i
    added i node q =
        subst (λ (e : ℕ × N). lookup (key (e.1)) (insert (key p) index indices) ≡ some (e.0))
          (sym q) (rw (lookup-insert, beq_refl) refl)

    concat-IsIndexed : IsIndexed (nodes ++ (index, p) ∷ []) (insert (key p) index indices)
    concat-IsIndexed = record {
      node_of = λ k i h. elim (Bool-cases (key p == k)) [
        | inl same ↦ (
          p,
          (In-append (i, p) nodes ((index, p) ∷ [])).1 (
              inr
                (inl (at_index i (sym (some-injective index i (rw (lookup-insert, same) at h)))))),
          eq_of_beq (key p) k same,
        )
        | inr other ↦
            let (node, j, q) = v.node_of k i (rw (lookup-insert, other) at h) in
            (node, (In-append (i, node) nodes ((index, p) ∷ [])).1 (inl j), q)
      ];
      index_of = λ i node m. elim ((In-append (i, node) nodes ((index, p) ∷ [])).0 m) [
        | inl old ↦ elim (Bool-cases (key p == key node)) [
          | inl same ↦ absurd (
              free (
                subst (λ n. In n (keys indices)) (sym (eq_of_beq (key p) (key node) same))
                  (In-keys_of_lookup (key node) indices (v.index_of i node old))))
          | inr other ↦ rw (lookup-insert, other) (v.index_of i node old)
        ]
        | inr (inl q) ↦ added i node q
        | inr (inr e) ↦ absurd e
      ];
      nodes_distinct =
          subst Distinct (sym (concat_keys nodes index p))
            (Distinct-concat index (keys nodes) fresh v.nodes_distinct);
    }

  module _ (d : Digraph N) (laws : IsPetgraph d) where
    open d use {Graph, empty, add_node, node_references, edge_references}

    -- A table that holds the nodes, in a graph without edges.
    abbrev pub IsTable : Graph → Map K ℕ → Type 0
    IsTable g indices = IsIndexed (node_references g) indices × (edge_references g ≡ [])

    pub empty-IsTable : IsTable empty []
    empty-IsTable =
        (subst (λ l. IsIndexed l []) (sym laws.empty_nodes) nothing-IsIndexed, laws.empty_edges)

    pub add_node-IsTable :
        (g : Graph) (indices : Map K ℕ) (p : N)
        → IsTable g indices
        → ¬ In (key p) (keys indices)
        → IsTable (add_node g p).0 (insert (key p) (add_node g p).1 indices)
          × (values (node_references (add_node g p).0) ≡ values (node_references g) ++ p ∷ [])
    add_node-IsTable g indices p t free =
        let nodes = laws.add_node_nodes g p in
        (
          (
            subst (λ l. IsIndexed l (insert (key p) (add_node g p).1 indices)) (sym nodes)
                (concat-IsIndexed (node_references g) indices t.0 (add_node g p).1 p
                  (laws.add_node_fresh g p) free),
            laws.add_node_edges g p ∙ t.1,
          ),
          ap values nodes ∙ concat_values (node_references g) (add_node g p).1 p,
        )

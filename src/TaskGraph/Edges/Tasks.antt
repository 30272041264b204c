-- ===== src/TaskGraph/Edges/Tasks.antt =====
-- The nodes of a task graph are the tasks of its pipeline (crates/luchta-engine/src/task_graph.rs).
use luchta.Prelude.{
  ℕ, ◌≡◌, refl, sym, subst, ap, ◌∙◌, inl, inr, ◌⊎◌, ◌↔◌, some, none, Option-cases, none_not_some,
  Bool-cases, List, [], ◌∷◌, nat_eq, In, In-append, Distinct, arith,
}
use luchta.Prelude.Maps.{
  Map, lookup, insert, keys, In-keys-insert, In-keys_of_lookup, lookup_of_In-keys,
}
use luchta.Petgraph.{Digraph, IsPetgraph}
use luchta.Petgraph.Indexed.{IsIndexed, IsTable, add_node-IsTable, key-lookup_or}
use luchta.Types.{TaskId, task_id_eq, TaskDefinition}
use luchta.TaskGraph.{TaskNode, TaskGraph, node_at}
use luchta.TaskGraph.Edges.{add_tasks, add_edge_if_present, add_edges_if_present}

abbrev pub id_of : TaskNode → TaskId
id_of n = n.id

module _ (d : Digraph TaskNode) (laws : IsPetgraph d) where
  open d use {Graph, empty, add_node, add_edge, find_edge, node_references, edge_references}

  pub add_tasks-IsTable :
      (tasks : Map TaskId TaskDefinition) (g : Graph) (indices : Map TaskId ℕ)
      → IsTable id_of d laws g indices
      → Distinct (keys tasks)
      → ((i : TaskId) → In i (keys tasks) → ¬ In i (keys indices))
      → IsTable id_of d laws (add_tasks d tasks g indices).0 (add_tasks d tasks g indices).1
        × ((i : TaskId)
            → In i (keys (add_tasks d tasks g indices).1)
              ↔ (In i (keys indices) ⊎ In i (keys tasks)))
  unfolding add_tasks
  add_tasks-IsTable [] g indices t u f =
      (t, λ i. (inl, λ k. elim k [ inl j ↦ j | inr n ↦ absurd n ]))
  add_tasks-IsTable ((i, definition) ∷ tasks) g indices t u f =
      let node : TaskNode = record { id = i; weight = definition.weight } in
      let (g', index) = add_node g node in
      let (table, exact) =
        add_tasks-IsTable tasks g' (insert i index indices)
          (add_node-IsTable id_of d laws g indices node t (f i (inl refl))).0 u.1
          (λ j k l. elim ((In-keys-insert j i index indices).0 l) [
            | inl q ↦ u.0 (subst (λ z. In z (keys tasks)) q k)
            | inr old ↦ f j (inr k) old
          ]) in
      (table, λ j. ground (arith, exact j, In-keys-insert j i index indices))

  -- The graph holds the tasks, each at the index that the table has for it.
  pub record IsTasks (tasks : Map TaskId TaskDefinition) (g : TaskGraph d) : Type 0 where
    pub indexed : IsIndexed id_of (node_references g.graph) g.indices_by_id
    pub defined : g.definitions_by_id ≡ tasks
    pub known : (i : TaskId) → In i (keys g.indices_by_id) ↔ In i (keys tasks)

  -- There is an edge from the one task to the other.
  abbrev pub Linked : TaskGraph d → TaskId → TaskId → Type 0
  Linked g s t =
      (a b : ℕ) × (lookup s g.indices_by_id ≡ some a)
      × (lookup t g.indices_by_id ≡ some b)
      × In (a, b) (edge_references g.graph)

  module _ (tasks : Map TaskId TaskDefinition) where
    same_id :
        (g : TaskGraph d)
        → IsTasks tasks g
        → (i j : TaskId) (a : ℕ) → lookup i g.indices_by_id ≡ some a
        → lookup j g.indices_by_id ≡ some a
        → i ≡ j
    same_id g v i j a h h' =
        sym (
          key-lookup_or id_of (node_references g.graph) g.indices_by_id (node_at d g.graph a) i a
            v.indexed h)
        ∙ key-lookup_or id_of (node_references g.graph) g.indices_by_id (node_at d g.graph a) j a
            v.indexed h'

    module _ (g : TaskGraph d) (v : IsTasks tasks g) (source dependency : TaskId) where
      -- The graph is the same, and the edge is there or one of the tasks is not; or it has a new edge.
      edge_cases :
          ((add_edge_if_present d g source dependency ≡ g)
            × (In source (keys tasks) → In dependency (keys tasks) → Linked g source dependency))
          ⊎ ((a b : ℕ) × (lookup source g.indices_by_id ≡ some a)
              × (lookup dependency g.indices_by_id ≡ some b)
              × (add_edge_if_present d g source dependency
                  ≡ record g { graph = add_edge g.graph a b }))
      unfolding add_edge_if_present
      edge_cases = elim (Option-cases (lookup source g.indices_by_id)) [
        | inl missing ↦
            inl (rw (missing, add_edge_if_present) refl, λ i j. absurd (not_known source missing i))
        | inr (a, found) ↦ elim (Option-cases (lookup dependency g.indices_by_id)) [
          | inl missing ↦ inl (
            rw (found, missing, add_edge_if_present) refl,
            λ i j. absurd (not_known dependency missing j),
          )
          | inr (b, found') ↦ elim (Bool-cases (find_edge g.graph a b)) [
            | inl there ↦ inl (
              rw (add_edge_if_present, found, found', there) refl,
              λ i j. (a, b, found, found', (laws.find_edge_iff g.graph a b).0 there),
            )
            | inr new ↦ inr (a, b, found, found', rw (add_edge_if_present, found, found', new) refl)
          ]
        ]
      ]
        where
          not_known : (i : TaskId) → lookup i g.indices_by_id ≡ none → In i (keys tasks) → ⊥
          not_known i missing k =
              let (a, q) = lookup_of_In-keys i g.indices_by_id ((v.known i).1 k) in
              none_not_some (sym missing ∙ q)

      add_edge_if_present-IsTasks : IsTasks tasks (add_edge_if_present d g source dependency)
      add_edge_if_present-IsTasks = elim edge_cases [
        | inl (same, there) ↦ subst (IsTasks tasks) (sym same) v
        | inr (a, b, found, found', added) ↦ subst (IsTasks tasks) (sym added) (record {
          indexed =
              subst (λ l. IsIndexed id_of l g.indices_by_id) (sym (laws.add_edge_nodes g.graph a b))
                v.indexed;
          defined = v.defined;
          known = v.known;
        })
      ]

      add_edge_if_present-Linked :
          (s t : TaskId)
          → Linked (add_edge_if_present d g source dependency) s t ↔ (
              Linked g s t
              ⊎ ((s ≡ source)
                  × (t ≡ dependency)
                  × In source (keys tasks)
                  × In dependency (keys tasks)))
      add_edge_if_present-Linked s t = elim edge_cases [
        | inl (same, there) ↦ (
          λ l. inl (subst (λ h. Linked h s t) same l),
          λ l.
              subst (λ h. Linked h s t) (sym same)
                (elim l [
                  | inl old ↦ old
                  | inr (p, q, i, j) ↦
                      subst (λ z. Linked g z t) (sym p)
                        (subst (λ z. Linked g source z) (sym q) (there i j))
                ]),
        )
        | inr (a, b, found, found', added) ↦ (
          λ l.
              let (a', b', h, h', m) = subst (λ h. Linked h s t) added l in
              elim ((In-append (a', b') (edge_references g.graph) ((a, b) ∷ [])).0
                (subst (In (a', b')) (laws.add_edge_edges g.graph a b) m)) [
                  | inl old ↦ inl (a', b', h, h', old)
                  | inr (inr e) ↦ absurd e
                  | inr (inl q) ↦ inr (
                    same_id g v s source a' h (found ∙ ap some (ap (λ (e : ℕ × ℕ). e.0) (sym q))),
                    same_id g v t dependency b' h'
                        (found' ∙ ap some (ap (λ (e : ℕ × ℕ). e.1) (sym q))),
                    (v.known source).0 (In-keys_of_lookup source g.indices_by_id found),
                    (v.known dependency).0 (In-keys_of_lookup dependency g.indices_by_id found'),
                  )
                ],
          λ l.
              subst (λ h. Linked h s t) (sym added)
                (elim l [
                  | inl (a', b', h, h', m) ↦ (
                    a',
                    b',
                    h,
                    h',
                    subst (In (a', b')) (sym (laws.add_edge_edges g.graph a b))
                        ((In-append (a', b') (edge_references g.graph) ((a, b) ∷ [])).1 (inl m)),
                  )
                  | inr (p, q, i, j) ↦ (
                    a,
                    b,
                    ap (λ z. lookup z g.indices_by_id) p ∙ found,
                    ap (λ z. lookup z g.indices_by_id) q ∙ found',
                    subst (In (a, b)) (sym (laws.add_edge_edges g.graph a b)) (
                        (In-append (a, b) (edge_references g.graph) ((a, b) ∷ [])).1
                          (inr (inl refl))),
                  )
                ]),
        )
      ]

    -- An edge for each of the tasks that the graph has.
    pub add_edges_if_present-Linked :
        (found : List TaskId) (g : TaskGraph d) (source : TaskId)
        → IsTasks tasks g
        → IsTasks tasks (add_edges_if_present d g source found)
          × ((s t : TaskId)
              → Linked (add_edges_if_present d g source found) s t ↔ (
                  Linked g s t
                  ⊎ ((s ≡ source) × In t found × In source (keys tasks) × In t (keys tasks))))
    unfolding add_edges_if_present
    add_edges_if_present-Linked [] g source v =
        (v, λ s t. (inl, λ l. elim l [ inl old ↦ old | inr (p, n, r, k) ↦ absurd n ]))
    add_edges_if_present-Linked (dependency ∷ more) g source v =
        let (v', exact) =
          add_edges_if_present-Linked more (add_edge_if_present d g source dependency) source
            (add_edge_if_present-IsTasks g v source dependency) in
        let first = add_edge_if_present-Linked g v source dependency in
        (
          v',
          λ s t. (
            λ l. elim ((exact s t).0 l) [
              | inr (p, i, j, k) ↦ inr (p, inr i, j, k)
              | inl l' ↦ elim ((first s t).0 l') [
                | inl old ↦ inl old
                | inr (p, q, j, k) ↦ inr (p, inl q, j, subst (λ z. In z (keys tasks)) (sym q) k)
              ]
            ],
            λ l. (exact s t).1 (elim l [
              | inl old ↦ inl ((first s t).1 (inl old))
              | inr (p, inl q, j, k) ↦
                  inl ((first s t).1 (inr (p, q, j, subst (λ z. In z (keys tasks)) q k)))
              | inr (p, inr i, j, k) ↦ inr (p, i, j, k)
            ]),
          ),
        )

-- ===== src/Walker/Start/Total.antt =====
-- `from_graph` has a walker for each graph without a cycle (crates/luchta-engine/src/walker.rs): no
-- `expect` of it fails.
use luchta.Prelude.{
  ℕ, ◌+◌, ◌%◌, ◌^◌, ◌≡◌, refl, sym, subst, ap, ◌∙◌, inl, inr, ◌⊎◌, some, Option, Result, ok, err,
  List, [], ◌∷◌, map, In, map-In, Distinct, Bool-cases, ◌==◌, nat_eq, eq_of_beq, differs_of_beq,
  beq_refl, arith,
}
use mathlib.Core.List.{reverse, reverse_aux, reverse-reverse}
use luchta.Prelude.Maps.{
  Map, lookup, lookup_or, insert, keys, lookup-insert, lookup_of_In, lookup_of_In-keys,
  lookup_or-found,
}
use luchta.Petgraph.{Digraph, IsPetgraph, Before}
use luchta.Petgraph.Concrete.{In-sources}
use luchta.Petgraph.Order.{Before-In}
use luchta.Petgraph.Indexed.{IsIndexed}
use luchta.Types.{TaskId, task_id_eq}
use luchta.TaskGraph.{TaskNode, node_at, topological_order}
use luchta.TaskGraph.Edges.Tasks.{id_of}
use luchta.Walker.{WalkerState}
use luchta.Walker.Start.{
  collect, weigh, compute_downstream_weights, sum_u64, push_dependents, tabulate, index_ids,
  dependents_first, from_graph,
}
use luchta.Walker.Start.Fresh.{start_dependents}

map-reverse_aux :
    {A B : Type 0} (f : A → B) (xs ys : List A)
    → map f (reverse_aux xs ys) ≡ reverse_aux (map f xs) (map f ys)
map-reverse_aux f [] ys = refl
map-reverse_aux f (x ∷ xs) ys = map-reverse_aux f xs (x ∷ ys)

In-reverse_aux :
    {A : Type 0} (a : A) (xs ys : List A) → In a (reverse_aux xs ys) → In a xs ⊎ In a ys
In-reverse_aux a [] ys i = inr i
In-reverse_aux a (x ∷ xs) ys i = elim (In-reverse_aux a xs (x ∷ ys) i) [
  | inl k ↦ inl (inr k)
  | inr (inl q) ↦ inl (inl q)
  | inr (inr k) ↦ inr k
]

-- A lookup that undoes `k` is collected to what it undoes.
collect-map :
    {A B : Type 0} (f : A → Option B) (k : B → A) (xs : List B)
    → ((x : B) → In x xs → f (k x) ≡ some x)
    → collect f (map k xs) ≡ some xs
unfolding collect
collect-map f k [] h = refl
collect-map f k (x ∷ xs) h = rw (h x (inl refl), collect-map f k xs (λ y i. h y (inr i))) refl

collect-some :
    {A B : Type 0} (f : A → Option B) (xs : List A)
    → ((x : A) → In x xs → (y : B) × (f x ≡ some y))
    → (ys : List B) × (collect f xs ≡ some ys)
unfolding collect
collect-some f [] h = ([], refl)
collect-some f (x ∷ xs) h =
    let (y, q) = h x (inl refl) in
    let (ys, r) = collect-some f xs (λ z i. h z (inr i)) in (y ∷ ys, rw (q, r) refl)

-- The nodes are indexed by their ids as the table says.
lookup-index_ids :
    (nodes : Map ℕ TaskNode) (ids table : Map TaskId ℕ) (i : TaskId) (n : ℕ)
    → ((m : ℕ) (node : TaskNode) → In (m, node) nodes → lookup node.id table ≡ some m)
    → lookup i table ≡ some n
    → ((node : TaskNode) × In (n, node) nodes × (node.id ≡ i)) ⊎ (lookup i ids ≡ some n)
    → lookup i (index_ids nodes ids) ≡ some n
unfolding index_ids
lookup-index_ids [] ids table i n right h (inl (node, m, q)) = absurd m
lookup-index_ids [] ids table i n right h (inr q) = q
lookup-index_ids ((m, first) ∷ nodes) ids table i n right h listed =
    lookup-index_ids nodes (insert first.id m ids) table i n (λ k node j. right k node (inr j)) h
      (elim (Bool-cases (first.id == i)) [
        | inl same ↦
            let e = eq_of_beq first.id i same in
            inr (
              rw (lookup-insert, same)
                (sym (right m first (inl refl)) ∙ (ap (λ z. lookup z table) e ∙ h)))
        | inr other ↦ elim listed [
          | inr q ↦ inr (rw (lookup-insert, other) q)
          | inl (node, inr j, q) ↦ inl (node, j, q)
          | inl (node, inl p, q) ↦
              absurd
                (differs_of_beq first.id i other (ap (λ (e : ℕ × TaskNode). (e.1).id) (sym p) ∙ q))
        ]
      ])

-- Each node of the list comes after its dependents, which are done or earlier in the list.
abbrev IsOrdered : (above : ℕ → List ℕ) → (before : List ℕ) → List ℕ → Type 0
IsOrdered above before [] = Unit
IsOrdered above before (n ∷ order) =
    ((a : ℕ) → In a (above n) → In a before) × IsOrdered above (n ∷ before) order

Before-IsOrdered :
    (above : ℕ → List ℕ) (before order : List ℕ)
    → Distinct order
    → ((n a : ℕ) → In n order → In a (above n) → In a before ⊎ Before a n order)
    → IsOrdered above before order
Before-IsOrdered above before [] u h = tt
Before-IsOrdered above before (n ∷ order) u h = (
  λ a i. elim (h n a (inl refl) i) [
    | inl k ↦ k
    | inr (inl (q, k)) ↦ absurd (u.0 k)
    | inr (inr b) ↦ absurd (u.0 (Before-In a n order b).1)
  ],
  Before-IsOrdered above (n ∷ before) order u.1 (λ m a j i. elim (h m a (inr j) i) [
    | inl k ↦ inl (inr k)
    | inr (inl (q, k)) ↦ inl (inl (sym q))
    | inr (inr b) ↦ inr b
  ]),
)

weigh-some :
    (nodes : Map ℕ TaskNode) (dependents : Map ℕ (List ℕ)) (order before : List ℕ)
    (weights : Map ℕ ℕ)
    → ((n : ℕ) → In n order → In n (keys nodes))
    → IsOrdered (λ n. lookup_or [] n dependents) before order
    → ((a : ℕ) → In a before → (v : ℕ) × (lookup a weights ≡ some v))
    → (done : Map ℕ ℕ) × (weigh nodes dependents order weights ≡ some done)
unfolding weigh
weigh-some nodes dependents [] before weights k o h = (weights, refl)
weigh-some nodes dependents (n ∷ order) before weights k o h =
    let (node, q) = lookup_of_In-keys n nodes (k n (inl refl)) in
    let (above, r) =
      collect-some (λ dependent. lookup dependent weights) (lookup_or [] n dependents)
        (λ a i. h a (o.0 a i)) in
    let own = (node.weight + sum_u64 above) % 2 ^ 64 in
    let (done, w) =
      weigh-some nodes dependents order (n ∷ before) (insert n own weights) (λ m i. k m (inr i)) o.1
        (λ a i. elim (Bool-cases (n == a)) [
          | inl same ↦ (own, rw (lookup-insert, same) refl)
          | inr other ↦ elim i [
            | inl q ↦ (own, rw (q, lookup-insert, beq_refl) refl)
            | inr old ↦ let (v, s) = h a old in (v, rw (lookup-insert, other) s)
          ]
        ]) in
    (done, rw (q, r) w)

pub toposort_of_order :
    (d : Digraph TaskNode) (g : d.Graph) (names : List TaskNode)
    → topological_order d g ≡ ok names
    → (order : List ℕ) × (d.toposort g ≡ ok order)
unfolding topological_order
toposort_of_order d g names h = go (d.toposort g) refl
  where
    go : (r : Result (List ℕ) ℕ) → d.toposort g ≡ r → (order : List ℕ) × (d.toposort g ≡ ok order)
    go (ok order) q = (order, q)
    go (err n) q = absurd (ground arith)

module _ (d : Digraph TaskNode) (laws : IsPetgraph d) (g : d.Graph) (table : Map TaskId ℕ)
    (v : IsIndexed id_of (d.node_references g) table) (order : List ℕ)
    (sorted : d.toposort g ≡ ok order) where
  node_at-index :
      (n : ℕ) → In n order → lookup (node_at d g n).id (index_ids (d.node_references g) []) ≡ some n
  node_at-index n i =
      let ((m, node), j, q) =
        map-In (λ (e : ℕ × TaskNode). e.0) n (d.node_references g)
          ((laws.toposort_nodes g order sorted n).0 i) in
      let j' = subst (λ z. In {A = ℕ × TaskNode} (z, node) (d.node_references g)) (sym q) j in
      let found =
        lookup_or-found _ n node (d.node_references g)
          (lookup_of_In n node (d.node_references g) v.nodes_distinct j') in
      subst (λ (e : TaskNode). lookup e.id (index_ids (d.node_references g) []) ≡ some n)
        (sym found)
        (lookup-index_ids (d.node_references g) [] table node.id n v.index_of (v.index_of n node j')
          (inl (node, j', refl)))

  topological_order-nodes : topological_order d g ≡ ok (reverse (map (node_at d g) order))
  unfolding topological_order
  topological_order-nodes = rw (sorted, topological_order) refl

  dependents_first-order : dependents_first d g ≡ some order
  unfolding dependents_first
  dependents_first-order =
      let indices =
        collect-map (λ (node : TaskNode). lookup node.id (index_ids (d.node_references g) []))
          (node_at d g) (reverse order)
          (λ n i.
            node_at-index n
              (elim (In-reverse_aux n order [] i) [ inl k ↦ k | inr e ↦ absurd e ])) in
      rw
        (
          dependents_first,
          topological_order-nodes,
          ← map-reverse_aux (node_at d g) order [],
          indices,
        )
        (ap some (reverse-reverse order))

  pub from_graph-some : (s : WalkerState) × (from_graph d g ≡ some s)
  unfolding from_graph compute_downstream_weights
  from_graph-some =
      let dependents =
        push_dependents (d.edge_references g) (tabulate (λ _. []) (d.node_references g)) in
      let (weights, q) =
        weigh-some (d.node_references g) dependents order [] []
          (λ n i. (laws.toposort_nodes g order sorted n).0 i)
          (Before-IsOrdered (λ n. lookup_or [] n dependents) [] order
            (laws.toposort_distinct g order sorted)
            (λ n a i j. inr (
              laws.toposort_sorted g order sorted a n (
                (In-sources a n (d.edge_references g)).0 (
                  subst (In a) (start_dependents (d.edge_references g) (d.node_references g) n)
                    j)))))
          (λ a i. absurd i) in
      rw (from_graph, dependents_first-order, compute_downstream_weights, q) (_, refl)

-- ===== src/Petgraph/Concrete.antt =====
-- A directed graph by its lists of nodes and edges, which meets the laws of `IsPetgraph`. A candidate
-- for the topological order is built layer by layer and returned only if it passes the check.
use luchta.Prelude.{
  ℕ, zero, suc, ◌+◌, ◌≤◌, ◌<◌, ◌≡◌, refl, ap, ◌∙◌, Bool, true, false, not, ◌&&◌, ◌||◌, inl, inr,
  ◌↔◌, List, [], ◌∷◌, ◌++◌, Result, ok, err, In, In-contains, contains-In, contains, Distinct, any,
  all, all-In, filter, length, ◌==◌, nat_eq, nat_beq_iff, pair_eq, arith, if◌then◌else◌, Bool-cases,
}
use luchta.Prelude.Maps.{keys}
use luchta.Petgraph.{Digraph, IsPetgraph, targets, sources, Before}

pub record Lists (N : Type 0) : Type 0 where
  pub nodes : List N
  pub edges : List (ℕ × ℕ)

enumerate : {N : Type 0} → ℕ → List N → List (ℕ × N)
enumerate k [] = []
enumerate k (n ∷ ns) = (k, n) ∷ enumerate (suc k) ns

-- The nodes that no edge from a waiting node enters come first.
layers : List (ℕ × ℕ) → ℕ → (placed waiting : List ℕ) → List ℕ
layers es zero placed waiting = placed
layers es (suc fuel) placed waiting =
    let free = λ (n : ℕ). all (λ a. contains placed a) (sources n es) in
    let rest =
      layers es fuel (placed ++ filter free waiting) (filter (λ n. not (free n)) waiting) in
    if any free waiting then rest else placed

before_test : ℕ → ℕ → List ℕ → Bool
before_test a b [] = false
before_test a b (x ∷ xs) = x == a && contains xs b || before_test a b xs

distinct_test : List ℕ → Bool
distinct_test [] = true
distinct_test (x ∷ xs) = not (contains xs x) && distinct_test xs

order_test : List (ℕ × ℕ) → List ℕ → List ℕ → Bool
unfolding before_test distinct_test
order_test es ns order =
    distinct_test order
    && all (λ n. contains ns n) order
    && all (λ n. contains order n) ns
    && all (λ e. before_test (e.0) (e.1) order) es

candidate_order : {N : Type 0} → Lists N → Result (List ℕ) ℕ
unfolding layers order_test
candidate_order g =
    let ns = keys (enumerate 0 g.nodes) in
    let order = layers g.edges (length ns) [] ns in
    if order_test g.edges ns order then ok order else err 0

-- The graph as petgraph's operations.
unfoldable pub lists : (N : Type 0) → Digraph N
unfolding enumerate candidate_order
lists N = record {
  Graph = Lists N;
  empty = record { nodes = []; edges = [] };
  add_node = λ g n. (record { nodes = g.nodes ++ n ∷ []; edges = g.edges }, length g.nodes);
  add_edge = λ g a b. record { nodes = g.nodes; edges = g.edges ++ (a, b) ∷ [] };
  node_references = λ g. enumerate 0 g.nodes;
  edge_references = λ g. g.edges;
  find_edge = λ g a b. contains g.edges (a, b);
  neighbors_outgoing = λ g a. targets a g.edges;
  neighbors_incoming = λ g b. sources b g.edges;
  toposort = candidate_order;
}

module _ {N : Type 0} where
  enumerate-concat :
      (k : ℕ) (ns : List N) (n : N)
      → enumerate k (ns ++ n ∷ []) ≡ enumerate k ns ++ (k + length ns, n) ∷ []
  unfolding enumerate
  enumerate-concat k [] n = ap (λ j. (j, n) ∷ []) (omega arith)
  enumerate-concat k (x ∷ ns) n =
      ap (λ l. (k, x) ∷ l)
        (enumerate-concat (suc k) ns n
          ∙ ap (λ j. enumerate (suc k) ns ++ (j, n) ∷ []) (omega arith))

  enumerate_bound :
      (k j : ℕ) (ns : List N) → In j (keys (enumerate k ns)) → (k ≤ j) × (j < k + length ns)
  unfolding enumerate
  enumerate_bound k j [] i = absurd i
  enumerate_bound k j (x ∷ ns) (inl q) = omega arith
  enumerate_bound k j (x ∷ ns) (inr i) = omega (arith, enumerate_bound (suc k) j ns i)

before_test-Before : (a b : ℕ) (xs : List ℕ) → before_test a b xs ≡ true → Before a b xs
unfolding before_test
before_test-Before a b [] h = cc
before_test-Before a b (x ∷ xs) h = elim (Bool-cases (x == a && contains xs b)) [
  | inl here ↦ inl ((nat_beq_iff x a).0 (ground arith), contains-In b xs (ground arith))
  | inr later ↦ inr (before_test-Before a b xs (ground arith))
]

distinct_test-Distinct : (xs : List ℕ) → distinct_test xs ≡ true → Distinct xs
unfolding distinct_test
distinct_test-Distinct [] h = tt
distinct_test-Distinct (x ∷ xs) h =
    (λ i. ground (arith, In-contains x xs i), distinct_test-Distinct xs (ground arith))

In-targets : (a b : ℕ) (es : List (ℕ × ℕ)) → In b (targets a es) ↔ In (a, b) es
In-targets a b [] = (λ m. m, λ m. m)
In-targets a b ((x, y) ∷ es) = ground (arith, nat_beq_iff x a, In-targets a b es)

pub In-sources : (a b : ℕ) (es : List (ℕ × ℕ)) → In a (sources b es) ↔ In (a, b) es
In-sources a b [] = (λ m. m, λ m. m)
In-sources a b ((x, y) ∷ es) = ground (arith, nat_beq_iff y b, In-sources a b es)

order_test_sound :
    (es : List (ℕ × ℕ)) (ns order : List ℕ)
    → order_test es ns order ≡ true
    → Distinct order
      × ((n : ℕ) → In n order ↔ In n ns)
      × ((a b : ℕ) → In (a, b) es → Before a b order)
unfolding order_test
order_test_sound es ns order h = (
  distinct_test-Distinct order (ground arith),
  λ n. (
    λ i. contains-In n ns (all-In (λ m. contains ns m) order (ground arith) n i),
    λ i. contains-In n order (all-In (λ m. contains order m) ns (ground arith) n i),
  ),
  λ a b i.
      before_test-Before a b order
        (all-In (λ e. before_test (e.0) (e.1) order) es (ground arith) (a, b) i),
)

candidate_order_sound :
    {N : Type 0} (g : Lists N) (order : List ℕ)
    → candidate_order g ≡ ok order
    → order_test g.edges (keys (enumerate 0 g.nodes)) order ≡ true
unfolding candidate_order
candidate_order_sound g order h = ground arith

pub lists-IsPetgraph : (N : Type 0) → IsPetgraph (lists N)
unfolding lists
lists-IsPetgraph N =
    let sound = λ (g : Lists N) (order : List ℕ) (h : candidate_order g ≡ ok order).
      order_test_sound g.edges (keys (enumerate 0 g.nodes)) order
        (candidate_order_sound g order h) in
    record {
      empty_nodes = refl;
      empty_edges = refl;
      add_node_nodes = λ g n.
          enumerate-concat 0 g.nodes n ∙ ap (λ j. enumerate 0 g.nodes ++ (j, n) ∷ []) (omega arith);
      add_node_fresh = λ g n i. omega (arith, enumerate_bound 0 _ g.nodes i);
      add_node_edges = λ g n. refl;
      add_edge_nodes = λ g a b. refl;
      add_edge_edges = λ g a b. refl;
      find_edge_iff = λ g a b. (contains-In (a, b) g.edges, In-contains (a, b) g.edges);
      outgoing_count = λ g a. refl;
      outgoing_iff = λ g a b. In-targets a b g.edges;
      incoming_iff = λ g a b. In-sources a b g.edges;
      toposort_nodes = λ g order h. (sound g order h).1;
      toposort_distinct = λ g order h. (sound g order h).0;
      toposort_sorted = λ g order h. (sound g order h).2;
    }

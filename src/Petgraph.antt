-- ===== src/Petgraph.antt =====
-- The directed graphs of the crate petgraph, behind the operations that the program calls and the
-- behaviour that petgraph documents of them. The crate is not part of the repository: every
-- definition that uses a graph takes these operations, and every theorem that needs their behaviour
-- takes the laws as a hypothesis. `Petgraph/Concrete.antt` shows that they can be met.
pub mod Concrete
pub mod Indexed
pub mod Order
use luchta.Prelude.{
  ℕ, ◌+◌, ◌≡◌, ◌⊎◌, ◌↔◌, Bool, true, List, [], ◌∷◌, ◌++◌, Result, ok, In, Distinct, length,
  if◌then◌else◌, ◌==◌, nat_eq, pair_eq,
}
use luchta.Prelude.Maps.{keys}

-- How often an edge stands in a list.
abbrev pub copies : ℕ × ℕ → List (ℕ × ℕ) → ℕ
copies e [] = 0
copies e (x ∷ xs) = if e == x then copies e xs + 1 else copies e xs

abbrev pub occurrences : ℕ → List ℕ → ℕ
occurrences a [] = 0
occurrences a (x ∷ xs) = if a == x then occurrences a xs + 1 else occurrences a xs

-- The sources of the edges into `n`, and the targets of those out of `n`.
abbrev pub sources : ℕ → List (ℕ × ℕ) → List ℕ
sources n [] = []
sources n ((a, b) ∷ es) = if b == n then a ∷ sources n es else sources n es

abbrev pub targets : ℕ → List (ℕ × ℕ) → List ℕ
targets n [] = []
targets n ((a, b) ∷ es) = if a == n then b ∷ targets n es else targets n es

-- The walks of one edge or more.
pub data Trail (es : List (ℕ × ℕ)) : ℕ → ℕ → Type 0 where
  edge : {a b : ℕ} → In (a, b) es → Trail es a b
  step : {a b c : ℕ} → In (a, b) es → Trail es b c → Trail es a c

-- `a` stands somewhere before `b`.
abbrev pub Before : ℕ → ℕ → List ℕ → Type 0
Before a b [] = ⊥
Before a b (x ∷ xs) = (x ≡ a) × In b xs ⊎ Before a b xs

-- What the program calls, over nodes that carry an `N`; edges carry nothing.
pub record Digraph (N : Type 0) : Type 1 where
  pub Graph : Type 0
  pub empty : Graph
  pub add_node : Graph → N → Graph × ℕ
  pub add_edge : Graph → ℕ → ℕ → Graph
  pub node_references : Graph → List (ℕ × N)
  pub edge_references : Graph → List (ℕ × ℕ)
  pub find_edge : Graph → ℕ → ℕ → Bool
  pub neighbors_outgoing : Graph → ℕ → List ℕ
  pub neighbors_incoming : Graph → ℕ → List ℕ
  pub toposort : Graph → Result (List ℕ) ℕ

module _ {N : Type 0} (d : Digraph N) where
  open d use {
    Graph, empty, add_node, add_edge, node_references, edge_references, find_edge,
    neighbors_outgoing, neighbors_incoming, toposort,
  }

  -- What petgraph documents. A topological order has the source of each edge before its target.
  pub record IsPetgraph : Type 0 where
    pub empty_nodes : node_references empty ≡ []
    pub empty_edges : edge_references empty ≡ []
    pub add_node_nodes :
        (g : Graph) (n : N)
        → node_references (add_node g n).0 ≡ node_references g ++ ((add_node g n).1, n) ∷ []
    pub add_node_fresh : (g : Graph) (n : N) → ¬ In (add_node g n).1 (keys (node_references g))
    pub add_node_edges : (g : Graph) (n : N) → edge_references (add_node g n).0 ≡ edge_references g
    pub add_edge_nodes :
        (g : Graph) (a b : ℕ) → node_references (add_edge g a b) ≡ node_references g
    pub add_edge_edges :
        (g : Graph) (a b : ℕ) → edge_references (add_edge g a b) ≡ edge_references g ++ (a, b) ∷ []
    pub find_edge_iff :
        (g : Graph) (a b : ℕ) → (find_edge g a b ≡ true) ↔ In (a, b) (edge_references g)
    pub outgoing_count :
        (g : Graph) (a : ℕ)
        → length (neighbors_outgoing g a) ≡ length (targets a (edge_references g))
    pub outgoing_iff :
        (g : Graph) (a b : ℕ) → In b (neighbors_outgoing g a) ↔ In (a, b) (edge_references g)
    pub incoming_iff :
        (g : Graph) (a b : ℕ) → In a (neighbors_incoming g b) ↔ In (a, b) (edge_references g)
    pub toposort_nodes :
        (g : Graph) (order : List ℕ)
        → toposort g ≡ ok order
        → (n : ℕ) → In n order ↔ In n (keys (node_references g))
    pub toposort_distinct : (g : Graph) (order : List ℕ) → toposort g ≡ ok order → Distinct order
    pub toposort_sorted :
        (g : Graph) (order : List ℕ)
        → toposort g ≡ ok order
        → (a b : ℕ) → In (a, b) (edge_references g)
        → Before a b order

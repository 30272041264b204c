-- ===== src/Walker/Start.antt =====
-- `WalkerState::from_graph` and `compute_downstream_weights` (crates/luchta-engine/src/walker.rs).
-- `none` stands for an `expect` that fails.
pub mod Fresh
pub mod Total
use luchta.Prelude.{
  ℕ, ◌+◌, ◌%◌, ◌^◌, Option, none, some, Result, ok, err, List, [], ◌∷◌, ◌++◌, map, nat_eq, length,
}
use luchta.Prelude.Maps.{Map, lookup, lookup_or, insert, keys}
use mathlib.Core.List.{reverse}
use luchta.Types.{TaskId, task_id_eq}
use luchta.Petgraph.{Digraph}
use luchta.TaskGraph.{TaskNode, topological_order}
use luchta.Walker.{NodeState, pending, WalkerState}

infixl 5 ◌>>=◌
abbrev ◌>>=◌ : {A B : Type 0} → Option A → (A → Option B) → Option B
none >>= f = none
some a >>= f = f a

-- `collect` over lookups that are expected to succeed.
unfoldable pub collect : {A B : Type 0} → (A → Option B) → List A → Option (List B)
collect f [] = some []
collect f (x ∷ xs) = do y ← f x; ys ← collect f xs; some (y ∷ ys)

-- `.sum::<u64>()`
unfoldable pub sum_u64 : List ℕ → ℕ
sum_u64 [] = 0
sum_u64 (x ∷ xs) = (x + sum_u64 xs) % 2 ^ 64

-- The loop of `compute_downstream_weights`. Weights are `u64`s that wrap around, as in a release
-- build; they are read by the order of dispatch alone.
unfoldable pub weigh : Map ℕ TaskNode → Map ℕ (List ℕ) → List ℕ → Map ℕ ℕ → Option (Map ℕ ℕ)
unfolding sum_u64
weigh nodes dependents [] weights = some weights
weigh nodes dependents (n ∷ order) weights = do
  node ← lookup n nodes
  above ← collect (λ dependent. lookup dependent weights) (lookup_or [] n dependents)
  weigh nodes dependents order (insert n ((node.weight + sum_u64 above) % 2 ^ 64) weights)

unfoldable pub compute_downstream_weights :
    Map ℕ TaskNode → Map ℕ (List ℕ) → List ℕ → Option (Map ℕ ℕ)
unfolding weigh
compute_downstream_weights nodes dependents order = weigh nodes dependents order []

-- `dependents.entry(target).or_default().push(source)` for each edge.
unfoldable pub push_dependents : List (ℕ × ℕ) → Map ℕ (List ℕ) → Map ℕ (List ℕ)
push_dependents [] dependents = dependents
push_dependents ((source, target) ∷ edges) dependents =
    push_dependents edges (insert target (lookup_or [] target dependents ++ source ∷ []) dependents)

-- One entry for each node. The indices of a graph are distinct, so the map that the loop builds is
-- the list of its entries.
abbrev pub tabulate : {V : Type 0} → (ℕ → V) → List (ℕ × TaskNode) → Map ℕ V
tabulate f nodes = map (λ p. (p.0, f p.0)) nodes

unfoldable pub index_ids : List (ℕ × TaskNode) → Map TaskId ℕ → Map TaskId ℕ
index_ids [] ids = ids
index_ids ((n, node) ∷ nodes) ids = index_ids nodes (insert node.id n ids)

module _ (d : Digraph TaskNode) where
  open d use {Graph, node_references, edge_references, neighbors_outgoing}

  -- The order of the nodes, dependents first.
  unfoldable pub dependents_first : Graph → Option (List ℕ)
  dependents_first g = elim (topological_order d g) [
    | err _ ↦ none
    | ok order ↦ do
      indices ←
          collect (λ (node : TaskNode). lookup node.id (index_ids (node_references g) [])) order
      some (reverse indices)
  ]

  unfoldable pub from_graph : Graph → Option WalkerState
  unfolding dependents_first
  from_graph g = do
    let nodes = node_references g
    let dependents = push_dependents (edge_references g) (tabulate (λ _. []) nodes)
    order ← dependents_first g
    weights ← compute_downstream_weights nodes dependents order
    some (record {
      nodes = nodes;
      dependencies_remaining = tabulate (λ n. length (neighbors_outgoing g n)) nodes;
      dependents = dependents;
      downstream_weights = weights;
      states = tabulate (λ _. pending) nodes;
      terminal_count = 0;
      total_count = length nodes;
    })

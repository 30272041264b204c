-- ===== src/Walker/Runs.antt =====
-- The walker on a graph, from `Walker::new` to the end of `run`
-- (crates/luchta-engine/src/walker.rs).
mod Samples
use luchta.Prelude.{
  ℕ, zero, suc, ◌+◌, ◌≤◌, ◌<◌, ◌≡◌, refl, Bool, true, false, inl, inr, ◌⊎◌, ◌↔◌, Option, some, none,
  Result, ok, err, List, [], ◌∷◌, In, Distinct, length, nat_eq, arith, Bool-cases, Option-cases,
}
use luchta.Prelude.Maps.{Map, lookup, keys}
use luchta.Petgraph.{Digraph, IsPetgraph, Trail, edge, step, Before}
use luchta.Petgraph.Order.{rank, rank-lt_of_Before, Before-In}
use luchta.TaskGraph.{TaskNode, topological_order}
use luchta.Walker.{
  NodeState, pending, running, succeeded, failed, skipped, WalkerState, is_pending, Drive,
  enqueue_ready_nodes, run_loop, run,
}
use luchta.Walker.Start.{dependents_first, from_graph}
use luchta.Walker.Start.Fresh.{from_graph-IsFresh}
use luchta.Walker.Skips.{is_dead}
use luchta.Walker.Driver.Dispatch.{IsDriven, Agrees}
use luchta.Walker.Driver.Finish.{IsRanked, IsFinished, schedule}
use luchta.Walker.Outcome.{
  Verdict, run-IsDriven, run-sent, Verdict-of_finished, verdicts_agree, run_schedule, run-finishes,
  skipped_iff,
}

module _ (d : Digraph TaskNode) (laws : IsPetgraph d) (g : d.Graph) (s : WalkerState)
    (built : from_graph d g ≡ some s) where
  toposort_of_built : (order : List ℕ) × (d.toposort g ≡ ok order)
  unfolding from_graph topological_order
  toposort_of_built = go (d.toposort g) refl
    where
      go : (r : Result (List ℕ) ℕ) → d.toposort g ≡ r → (order : List ℕ) × (d.toposort g ≡ ok order)
      go (ok order) q = (order, q)
      go (err n) q = absurd (ground arith)

  -- A graph that the walker takes has no cycle.
  from_graph-IsRanked :
      (order : List ℕ)
      → d.toposort g ≡ ok order
      → IsRanked (d.edge_references g) (keys (d.node_references g)) (λ n. rank n order)
  from_graph-IsRanked order h = record {
    falls = λ a b e.
        rank-lt_of_Before a b order (laws.toposort_distinct g order h)
          (laws.toposort_sorted g order h a b e);
    within = λ a b e.
        let (i, j) = Before-In a b order (laws.toposort_sorted g order h a b e) in
        ((laws.toposort_nodes g order h a).0 i, (laws.toposort_nodes g order h b).0 j);
  }

  module _ (unique : Distinct (keys (d.node_references g))) where
    -- For a walker that `from_graph` built from a petgraph graph with distinct indices: the tasks sent in
    -- a run are sent once each, and when a task is sent, all tasks that it depends on have succeeded (a
    -- run may be cut after any result, so this holds at each moment).
    pub dispatch_order :
        (outcome accepts : ℕ → Bool) (joined : List (ℕ × Bool))
        → Agrees outcome joined
        → Distinct (run accepts joined s).sent
          × ((n b : ℕ)
              → In n (run accepts joined s).sent
              → In (n, b) (d.edge_references g)
              → lookup b (run accepts joined s).walker.states ≡ some succeeded)
    dispatch_order outcome accepts joined agrees =
        run-sent outcome accepts s (from_graph-IsFresh d laws g unique s built) joined agrees

    -- For a walker that `from_graph` built from a petgraph graph with distinct indices: when all nodes
    -- are terminal, each has succeeded or failed, as its task returned, and then all that it depends on
    -- has succeeded, or it is skipped, and then something that it depends on failed or is skipped.
    pub final-Verdict :
        (outcome accepts : ℕ → Bool) (joined : List (ℕ × Bool))
        → Agrees outcome joined
        → IsFinished (run accepts joined s)
        → (n : ℕ) → In n (keys (d.node_references g))
        → Verdict
            (d.edge_references g)
            outcome
            (run accepts joined s).walker.states
            n
            (lookup n (run accepts joined s).walker.states)
    final-Verdict outcome accepts joined agrees finished n i =
        let fresh = from_graph-IsFresh d laws g unique s built in
        Verdict-of_finished outcome accepts s fresh (run accepts joined s)
          (run-IsDriven outcome accepts s fresh joined agrees) finished n i

    -- For a walker that `from_graph` built from a petgraph graph with distinct indices: two runs
    -- in which each task returns the same, and which both end with all nodes terminal, end alike,
    -- whatever the order of the results.
    pub order_independent :
        (outcome accepts accepts' : ℕ → Bool) (joined joined' : List (ℕ × Bool))
        → Agrees outcome joined
        → Agrees outcome joined'
        → IsFinished (run accepts joined s)
        → IsFinished (run accepts' joined' s)
        → (n : ℕ) → In n (keys (d.node_references g))
        → lookup n (run accepts joined s).walker.states
          ≡ lookup n (run accepts' joined' s).walker.states
    order_independent outcome accepts accepts' joined joined' a a' f f' n i =
        let (order, sorted) = toposort_of_built in
        verdicts_agree (from_graph-IsRanked order sorted) outcome
          (run accepts joined s).walker.states (run accepts' joined' s).walker.states
          (final-Verdict outcome accepts joined a f) (final-Verdict outcome accepts' joined' a' f')
          n i

    -- For a walker that `from_graph` built from a petgraph graph with distinct indices: while the
    -- receiver takes every message, the run ends with all nodes terminal, whichever awaited task ends
    -- next, after at most one result for each node.
    pub run_finishes :
        (outcome accepts : ℕ → Bool)
        → ((n : ℕ) → accepts n ≡ true)
        → (next : List ℕ → ℕ) → ((js : List ℕ) (n : ℕ) → In n js → In (next js) js)
        → IsFinished (run accepts (run_schedule outcome accepts next s) s)
    run_finishes outcome accepts takes next picks =
        let (order, sorted) = toposort_of_built in
        run-finishes (from_graph-IsRanked order sorted) outcome accepts takes next picks s
          (from_graph-IsFresh d laws g unique s built)

    -- For a walker that `from_graph` built from a petgraph graph with distinct indices: when all nodes
    -- are terminal, the skipped ones are exactly those that depend, directly or not, on a failed one.
    pub skipped_iff_failed_below :
        (outcome accepts : ℕ → Bool) (joined : List (ℕ × Bool))
        → Agrees outcome joined
        → IsFinished (run accepts joined s)
        → (n : ℕ) → In n (keys (d.node_references g))
        → (lookup n (run accepts joined s).walker.states ≡ some skipped) ↔ (
            (b : ℕ) × Trail (d.edge_references g) n b
            × (lookup b (run accepts joined s).walker.states ≡ some failed))
    skipped_iff_failed_below outcome accepts joined agrees finished =
        let (order, sorted) = toposort_of_built in
        skipped_iff (from_graph-IsRanked order sorted) outcome (run accepts joined s).walker.states
          (final-Verdict outcome accepts joined agrees finished)

-- ===== src/Walker/Runs/Samples.antt =====
-- A run of the walker (crates/luchta-engine/src/walker.rs) on a small graph: `app` depends on `lib`
-- and `ui`, `ui` depends on `lib`, and `docs` stands alone. The task of `ui` fails.
use luchta.Prelude.{
  ℕ, String, ◌≡◌, refl, Bool, true, false, not, some, none, List, [], ◌∷◌, In, inl, ◌↔◌, Distinct,
  ◌==◌, nat_eq, arith,
}
use luchta.Prelude.Maps.{lookup, keys, insert}
use luchta.Prelude.Sort.{sort_by}
use luchta.Petgraph.{Trail}
use luchta.Petgraph.Concrete.{lists, lists-IsPetgraph}
use luchta.Types.{task_id}
use luchta.TaskGraph.{TaskNode, topological_order}
use luchta.Walker.{
  succeeded, failed, skipped, WalkerState, compare_ready, take_ready_nodes, set_running, decrement,
  release, mark_succeeded, mark_failed, skip_loop, skip_dependents, settle, enqueue,
  enqueue_ready_nodes, resume, run_loop, run,
}
use luchta.Walker.Start.{
  collect, compute_downstream_weights, push_dependents, index_ids, from_graph,
}
use luchta.Walker.Driver.Dispatch.{Agrees}
use luchta.Walker.Driver.Finish.{IsFinished, schedule}
use luchta.Walker.Outcome.{Verdict, run_schedule}
use luchta.Walker.Runs.{
  dispatch_order, final-Verdict, order_independent, run_finishes, skipped_iff_failed_below,
}

abbrev node : String → TaskNode
node name = record { id = task_id name "build"; weight = 1 }

graph : (lists TaskNode).Graph
unfolding lists
graph = record {
  nodes = node "app" ∷ node "lib" ∷ node "ui" ∷ node "docs" ∷ [];
  edges = (0, 1) ∷ (0, 2) ∷ (2, 1) ∷ [];
}

abbrev no_state : WalkerState
no_state = record {
  nodes = [];
  dependencies_remaining = [];
  dependents = [];
  downstream_weights = [];
  states = [];
  terminal_count = 0;
  total_count = 0;
}

abbrev started : WalkerState
started = elim (from_graph (lists TaskNode) graph) [ some s ↦ s | none ↦ no_state ]

program : Unit {0}
unfolding lists graph from_graph topological_order collect compute_downstream_weights
    push_dependents index_ids lookup insert sort_by compare_ready take_ready_nodes set_running
    decrement release mark_succeeded mark_failed skip_loop skip_dependents settle enqueue
    enqueue_ready_nodes resume run run_loop schedule
program = tt

graph_built : from_graph (lists TaskNode) graph ≡ some started
unfolding program
graph_built = refl

abbrev outcome : ℕ → Bool
outcome n = not (n == 2)

abbrev accepts : ℕ → Bool
accepts n = true

abbrev joined : List (ℕ × Bool)
joined = (1, true) ∷ (3, true) ∷ (2, false) ∷ []

abbrev joined' : List (ℕ × Bool)
joined' = (3, true) ∷ (1, true) ∷ (2, false) ∷ []

-- The heavier `lib` goes first, and `app` is never sent.
sent_in_order : (run accepts joined started).sent ≡ 1 ∷ 3 ∷ 2 ∷ []
unfolding program
sent_in_order = refl

ends_skipped :
    (run accepts joined started).walker.states
    ≡ (0, skipped) ∷ (1, succeeded) ∷ (2, failed) ∷ (3, succeeded) ∷ []
unfolding program
ends_skipped = refl

graph_unique : Distinct (keys ((lists TaskNode).node_references graph))
unfolding program
graph_unique = omega arith

agrees : Agrees outcome joined
agrees = (refl, (refl, (refl, tt)))

agrees' : Agrees outcome joined'
agrees' = (refl, (refl, (refl, tt)))

finished : IsFinished (run accepts joined started)
unfolding program
finished = refl

finished' : IsFinished (run accepts joined' started)
unfolding program
finished' = refl

app_known : In 0 (keys ((lists TaskNode).node_references graph))
unfolding program
app_known = inl refl

dispatch_order_example :
    Distinct (run accepts joined started).sent
    × ((n b : ℕ)
        → In n (run accepts joined started).sent
        → In (n, b) ((lists TaskNode).edge_references graph)
        → lookup b (run accepts joined started).walker.states ≡ some succeeded)
dispatch_order_example =
    dispatch_order (lists TaskNode) (lists-IsPetgraph TaskNode) graph started graph_built
      graph_unique outcome accepts joined agrees

-- `app` waits for the failed `ui`.
final-Verdict_example :
    Verdict
      ((lists TaskNode).edge_references graph)
      outcome
      (run accepts joined started).walker.states
      0
      (lookup 0 (run accepts joined started).walker.states)
final-Verdict_example =
    final-Verdict (lists TaskNode) (lists-IsPetgraph TaskNode) graph started graph_built
      graph_unique outcome accepts joined agrees finished 0 app_known

order_independent_example :
    lookup 0 (run accepts joined started).walker.states
    ≡ lookup 0 (run accepts joined' started).walker.states
order_independent_example =
    order_independent (lists TaskNode) (lists-IsPetgraph TaskNode) graph started graph_built
      graph_unique outcome accepts accepts joined joined' agrees agrees' finished finished' 0
      app_known

-- The awaited task that was sent first ends first.
abbrev first_awaited : List ℕ → ℕ
first_awaited [] = 0
first_awaited (n ∷ _) = n

first_awaited-In : (js : List ℕ) (n : ℕ) → In n js → In (first_awaited js) js
first_awaited-In [] n i = absurd i
first_awaited-In (m ∷ js) n i = inl refl

run_finishes_example :
    IsFinished (run accepts (run_schedule outcome accepts first_awaited started) started)
run_finishes_example =
    run_finishes (lists TaskNode) (lists-IsPetgraph TaskNode) graph started graph_built graph_unique
      outcome accepts (λ n. refl) first_awaited first_awaited-In

skipped_iff_failed_below_example :
    (lookup 0 (run accepts joined started).walker.states ≡ some skipped) ↔ (
      (b : ℕ) × Trail ((lists TaskNode).edge_references graph) 0 b
      × (lookup b (run accepts joined started).walker.states ≡ some failed))
skipped_iff_failed_below_example =
    skipped_iff_failed_below (lists TaskNode) (lists-IsPetgraph TaskNode) graph started graph_built
      graph_unique outcome accepts joined agrees finished 0 app_known

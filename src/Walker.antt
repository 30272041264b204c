-- ===== src/Walker.antt =====
-- crates/luchta-engine/src/walker.rs: the driver that hands out the ready tasks of a graph. The
-- locks and the channels of the source are gone: a method that takes `&self` and writes behind a lock
-- is a function that returns the new state.
pub mod Start
pub mod Tally
pub mod Skips
pub mod Invariant
pub mod Driver
pub mod Outcome
pub mod Runs
use Prim.Native.Nat.{Ordering, compare}
use Prim.Native.String.{compare as compare_str}
use luchta.Prelude.{
  ℕ, zero, suc, ◌+◌, ◌-◌, Bool, true, false, not, ◌&&◌, Option, none, some, List, [], ◌∷◌, ◌++◌,
  contains, filter, ◌==◌, nat_eq, ltb, if◌then◌else◌,
}
use luchta.Prelude.Maps.{Map, lookup, lookup_or, insert, keys}
use luchta.Prelude.Sort.{then_with, sort_by}
use luchta.TaskGraph.{TaskNode, no_task}

pub data NodeState : Type 0 where
  pending running succeeded failed skipped : NodeState

pub record WalkerState : Type 0 where
  pub nodes : Map ℕ TaskNode
  pub dependencies_remaining : Map ℕ ℕ
  pub dependents : Map ℕ (List ℕ)
  pub downstream_weights : Map ℕ ℕ
  pub states : Map ℕ NodeState
  pub terminal_count : ℕ
  pub total_count : ℕ

-- What a lookup in `states` says.
abbrev pub is_pending : Option NodeState → Bool
is_pending (some pending) = true
is_pending _ = false

abbrev pub is_running : Option NodeState → Bool
is_running (some running) = true
is_running _ = false

-- The comparison of `take_ready_nodes`: heavier downstream first, then heavier, then by name. Each
-- ready node is a key of `nodes`, so the default is not read.
unfoldable pub compare_ready : WalkerState → ℕ → ℕ → Ordering
compare_ready s left right =
    let l = lookup_or no_task left s.nodes in
    let r = lookup_or no_task right s.nodes in
    then_with
      (compare (lookup_or 0 right s.downstream_weights) (lookup_or 0 left s.downstream_weights))
      (then_with (compare r.weight l.weight)
        (then_with (compare_str l.id.pkg r.id.pkg) (compare_str l.id.task r.id.task)))

unfoldable pub is_ready : WalkerState → ℕ → Bool
is_ready s n = is_pending (lookup n s.states) && lookup_or 0 n s.dependencies_remaining == 0

unfoldable pub take_ready_nodes : WalkerState → List ℕ
unfolding is_ready
take_ready_nodes s = sort_by (compare_ready s) (filter (is_ready s) (keys s.nodes))

unfoldable pub set_running : WalkerState → ℕ → WalkerState
set_running s n =
    if is_pending (lookup n s.states) then record s { states = insert n running s.states } else s

abbrev bump_terminal_count : WalkerState → ℕ → WalkerState
bump_terminal_count s count = record s { terminal_count = s.terminal_count + count }

-- The body of the loop of `mark_succeeded`. `from_graph` gives each node a count, so the branch
-- without one, where the source panics, is not taken.
unfoldable pub decrement : Map ℕ NodeState → ℕ → Map ℕ ℕ → Map ℕ ℕ
decrement states dependent remaining =
    if is_pending (lookup dependent states)
    then elim (lookup dependent remaining) [
      | some count ↦ insert dependent (count - 1) remaining
      | none ↦ remaining
    ]
    else remaining

unfoldable pub release : Map ℕ NodeState → List ℕ → Map ℕ ℕ → Map ℕ ℕ
release states [] remaining = remaining
release states (dependent ∷ dependents) remaining =
    release states dependents (decrement states dependent remaining)

unfoldable pub mark_succeeded : WalkerState → ℕ → WalkerState
mark_succeeded s n =
    let s' = record s { states = insert n succeeded s.states } in
    if is_running (lookup n s.states)
    then record (bump_terminal_count s' 1) {
      dependencies_remaining =
          release s'.states (lookup_or [] n s.dependents) s.dependencies_remaining;
    }
    else s'

-- The loop of `skip_dependents`: the states, and how many nodes it has skipped. The fuel bounds the
-- nodes that are skipped, so the number of nodes is enough (`skip_loop-Skips`).
unfoldable pub skip_loop :
    ℕ → Map ℕ (List ℕ) → (visited queue : List ℕ) → Map ℕ NodeState → ℕ → Map ℕ NodeState × ℕ
skip_loop fuel dependents visited [] states count = (states, count)
skip_loop zero dependents visited (d ∷ queue) states count = elim (contains visited d) [
  | true ↦ skip_loop zero dependents visited queue states count
  | false ↦ elim (is_pending (lookup d states)) [
    | true ↦ (states, count)
    | false ↦ skip_loop zero dependents (d ∷ visited) queue states count
  ]
]
skip_loop (suc fuel) dependents visited (d ∷ queue) states count = elim (contains visited d) [
  | true ↦ skip_loop (suc fuel) dependents visited queue states count
  | false ↦ elim (is_pending (lookup d states)) [
    | true ↦
        skip_loop fuel dependents (d ∷ visited) (queue ++ lookup_or [] d dependents)
          (insert d skipped states) (count + 1)
    | false ↦ skip_loop (suc fuel) dependents (d ∷ visited) queue states count
  ]
]

unfoldable pub skip_dependents : WalkerState → ℕ → WalkerState
skip_dependents s n =
    let (states, count) =
      skip_loop s.total_count s.dependents [] (lookup_or [] n s.dependents) s.states 0 in
    if ltb 0 count
    then bump_terminal_count (record s { states = states }) count
    else record s { states = states }

unfoldable pub mark_failed : WalkerState → ℕ → WalkerState
mark_failed s n =
    let s' = record s { states = insert n failed s.states } in
    if is_running (lookup n s.states) then skip_dependents (bump_terminal_count s' 1) n else s'

-- `match outcome` of the loop in `run`.
unfoldable pub settle : WalkerState → ℕ → Bool → WalkerState
settle s n outcome = if outcome then mark_succeeded s n else mark_failed s n

-- The driver: the walker's state, the nodes whose completion is awaited, and the nodes whose task
-- was sent, in order.
pub record Drive : Type 0 where
  pub walker : WalkerState
  pub join_set : List ℕ
  pub sent : List ℕ

abbrev pub new_drive : WalkerState → Drive
new_drive s = record { walker = s; join_set = []; sent = [] }

-- `accepts n` says whether the receiver still takes the message about `n`.
module _ (accepts : ℕ → Bool) where
  -- The loop of `enqueue_ready_nodes`. It ends when a message is not taken.
  unfoldable pub enqueue : List ℕ → Drive → Drive
  enqueue [] w = w
  enqueue (n ∷ ready) w =
      if accepts n
      then enqueue ready (record {
        walker = set_running w.walker n;
        join_set = w.join_set ++ n ∷ [];
        sent = w.sent ++ n ∷ [];
      })
      else record w { walker = set_running w.walker n }

  unfoldable pub enqueue_ready_nodes : Drive → Drive
  enqueue_ready_nodes w = enqueue (take_ready_nodes w.walker) w

  -- One round of the loop in `run`, after `join_next` has returned `(n, outcome)`. A node is spawned
  -- once, so removing it leaves no other entry for it.
  unfoldable pub resume : Drive → ℕ → Bool → Drive
  resume w n outcome = enqueue_ready_nodes (record w {
    walker = settle w.walker n outcome;
    join_set = filter (λ m. not (m == n)) w.join_set;
  })

  -- The loop of `run` over what `join_next` returns, in order. It stops when all nodes are terminal,
  -- and when nothing is awaited; a result for a node that is not awaited cannot come.
  unfoldable pub run_loop : List (ℕ × Bool) → Drive → Drive
  run_loop [] w = w
  run_loop ((n, outcome) ∷ joined) w =
      let rest = run_loop joined (resume w n outcome) in
      if ltb w.walker.terminal_count w.walker.total_count && contains w.join_set n then rest else w

  unfoldable pub run : List (ℕ × Bool) → WalkerState → Drive
  run joined s = run_loop joined (enqueue_ready_nodes (new_drive s))

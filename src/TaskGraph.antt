-- ===== src/TaskGraph.antt =====
-- crates/luchta-engine/src/task_graph.rs
pub mod Checks
pub mod Edges
pub mod Upstream
use luchta.Prelude.{ℕ, Bool, List, Result, ok, err, map, nat_eq}
use luchta.Prelude.Maps.{Map, lookup_or}
use mathlib.Core.List.{reverse}
use luchta.Types.{TaskId, task_id, TaskDefinition}
use luchta.Petgraph.{Digraph}

pub record TaskNode : Type 0 where
  pub id : TaskId
  pub weight : ℕ

-- Read by no lookup below: each is at an index of the graph.
abbrev pub no_task : TaskNode
no_task = record { id = task_id "" ""; weight = 0 }

module _ (d : Digraph TaskNode) where
  open d use {Graph, node_references, toposort}

  -- `graph[index]`
  abbrev pub node_at : Graph → ℕ → TaskNode
  node_at g n = lookup_or no_task n (node_references g)

  pub record TaskGraph : Type 0 where
    pub graph : Graph
    pub indices_by_id : Map TaskId ℕ
    pub definitions_by_id : Map TaskId TaskDefinition
    pub inputs_from_worker_by_id : Map TaskId Bool

  -- `topological_order`: dependencies first. The error names a task on a cycle.
  unfoldable pub topological_order : Graph → Result (List TaskNode) TaskId
  topological_order g = elim (toposort g) [
    | err n ↦ err (node_at g n).id
    | ok order ↦ ok (reverse (map (node_at g) order))
  ]

-- ===== src/Walker/Driver.antt =====
-- The loop of `run` with `enqueue_ready_nodes` (crates/luchta-engine/src/walker.rs): what holds after
-- each round, whatever order the tasks end in, and that the loop does not get stuck.
pub mod Settle
pub mod Dispatch
pub mod Progress
pub mod Finish

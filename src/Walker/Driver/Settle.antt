-- ===== src/Walker/Driver/Settle.antt =====
-- The end of one task (crates/luchta-engine/src/walker.rs, `mark_succeeded` and `mark_failed`), seen
-- as one change of the states.
use luchta.Prelude.{
  ℕ, ◌<◌, ◌≡◌, refl, Bool, true, false, inl, ◌⊎◌, some, List, ◌==◌, nat_eq, arith, if◌then◌else◌,
  nat_beq_iff,
}
use luchta.Prelude.Maps.{lookup, lookup-insert}
use luchta.Walker.{
  NodeState, pending, running, succeeded, failed, skipped, WalkerState, mark_succeeded, settle,
}
use luchta.Walker.Invariant.{
  IsSound, mark_succeeded-IsSound, mark_failed-eq, mark_failed-IsSound, fail-Skips,
}

abbrev pub ended : Bool → NodeState
ended true = succeeded
ended false = failed

module _ {es : List (ℕ × ℕ)} {nodes : List ℕ} (s : WalkerState) (n : ℕ) (sound : IsSound es nodes s)
    (was : lookup n s.states ≡ some running) where
  pub settle-IsSound : (outcome : Bool) → IsSound es nodes (settle s n outcome)
  unfolding settle
  settle-IsSound true = mark_succeeded-IsSound s n sound was
  settle-IsSound false = mark_failed-IsSound s n sound was

  pub settle-nodes : (outcome : Bool) → (settle s n outcome).nodes ≡ s.nodes
  unfolding settle mark_succeeded
  settle-nodes true = ground arith
  settle-nodes false = rw (mark_failed-eq s n sound was)

  -- The node has its end state, and other nodes keep theirs or are skipped while they wait.
  pub lookup-settle :
      (outcome : Bool) (k : ℕ)
      → (lookup k (settle s n outcome).states
          ≡ (if n == k then some (ended outcome) else lookup k s.states))
        ⊎ (lookup k s.states ≡ some pending) × (lookup k (settle s n outcome).states ≡ some skipped)
  unfolding settle mark_succeeded
  lookup-settle true k = inl (ground (arith, lookup-insert n k succeeded s.states))
  lookup-settle false k = rw (mark_failed-eq s n sound was) (
      ground (
        arith,
        (fail-Skips s n sound was 0).only k,
        lookup-insert n k failed s.states,
        nat_beq_iff n k,
      ))

  -- At least the node itself is counted.
  pub settle-counts :
      (outcome : Bool)
      → (s.terminal_count < (settle s n outcome).terminal_count)
        × ((settle s n outcome).total_count ≡ s.total_count)
  unfolding settle mark_succeeded
  settle-counts true = ground arith
  settle-counts false = rw (mark_failed-eq s n sound was) (omega arith, refl)

-- ===== src/Walker/Driver/Progress.antt =====
-- The loop of `run` does not stop early (crates/luchta-engine/src/walker.rs): while the receiver takes
-- every message and a node is not terminal, some task is awaited, and each result that comes in makes
-- at least one more node terminal.
use luchta.Prelude.{
  ℕ, ◌≡◌, Bool, true, false, not, inl, inr, some, List, [], ◌∷◌, In, In-append, In-filter, ◌==◌,
  nat_eq, arith, nat_beq_iff, Bool-cases,
}
use luchta.Prelude.Maps.{lookup, lookup-insert, keys}
use luchta.Prelude.Sort.{In-sort_by}
use luchta.Walker.{
  running, WalkerState, compare_ready, is_ready, take_ready_nodes, set_running, Drive, enqueue,
  enqueue_ready_nodes, resume,
}
use luchta.Walker.Invariant.{ready_dependencies}
use luchta.Walker.Driver.Settle.{lookup-settle}
use luchta.Walker.Driver.Dispatch.{IsDriven, settled-IsDriven}

-- Every running node is awaited.
abbrev pub IsComplete : Drive → Type 0
IsComplete w = (n : ℕ) → lookup n w.walker.states ≡ some running → In n w.join_set

-- No ready node is left.
abbrev pub IsFlushed : Drive → Type 0
IsFlushed w = (n : ℕ) → is_ready w.walker n ≡ false

ready-set_running :
    (s : WalkerState) (n k : ℕ)
    → is_ready (set_running s n) k ≡ true
    → (is_ready s k ≡ true) × ¬ (k ≡ n)
unfolding is_ready set_running
ready-set_running s n k h = (
  ground (arith, lookup-insert n k running s.states),
  λ same. ground (arith, lookup-insert n k running s.states, nat_beq_iff n k),
)

module _ (accepts : ℕ → Bool) (takes : (n : ℕ) → accepts n ≡ true) where
  pub enqueue-IsComplete :
      (ready : List ℕ) (w : Drive) → IsComplete w → IsComplete (enqueue accepts ready w)
  unfolding enqueue set_running
  enqueue-IsComplete [] w c = c
  enqueue-IsComplete (n ∷ ready) w c =
      rw (takes n, enqueue)
        (enqueue-IsComplete ready _ (λ k h.
          (In-append k w.join_set (n ∷ [])).1
            (ground (arith, lookup-insert n k running w.walker.states, nat_beq_iff n k, c k))))

  -- What is ready after the loop was ready before, and was not handed out.
  enqueue-ready_left :
      (ready : List ℕ) (w : Drive) (k : ℕ)
      → is_ready (enqueue accepts ready w).walker k ≡ true
      → (is_ready w.walker k ≡ true) × (¬ In k ready)
  unfolding enqueue
  enqueue-ready_left [] w k h = (h, λ m. m)
  enqueue-ready_left (n ∷ ready) w k h =
      let (later, absent) = enqueue-ready_left ready _ k (rw (takes n, enqueue) at h) in
      let (before, other) = ready-set_running w.walker n k later in
      (before, λ m. elim m [ inl q ↦ other q | inr r ↦ absent r ])

  module _ {es : List (ℕ × ℕ)} {nodes : List ℕ} {outcome : ℕ → Bool} where
    pub flush :
        (w : Drive) → IsDriven es nodes outcome w → IsFlushed (enqueue_ready_nodes accepts w)
    unfolding enqueue_ready_nodes take_ready_nodes
    flush w d n = elim (Bool-cases (is_ready (enqueue_ready_nodes accepts w).walker n)) [
      | inr idle ↦ idle
      | inl ready ↦
          let (before, absent) = enqueue-ready_left (take_ready_nodes w.walker) w n ready in
          let waits = (ready_dependencies w.walker n d.sound before).0 in
          let listed = (d.sound.listed n).0 (ground arith) in
          absurd (
            absent (
              (In-sort_by (compare_ready w.walker) n _).1 (
                (In-filter (is_ready w.walker) n (keys w.walker.nodes)).1
                  (rw (d.named) listed, before))))
    ]

    pub resume-IsComplete :
        (w : Drive) (n : ℕ)
        → In n w.join_set
        → IsDriven es nodes outcome w
        → IsComplete w
        → IsComplete (resume accepts w n (outcome n))
    unfolding resume enqueue_ready_nodes
    resume-IsComplete w n i d c =
        let at = lookup-settle w.walker n d.sound (d.awaited n i) (outcome n) in
        enqueue-IsComplete _ _ (λ k h.
          (In-filter (λ m. not (m == n)) k w.join_set).1
            (c k (ground (arith, at k)), ground (arith, at k, nat_beq_iff k n, nat_beq_iff n k)))

    -- The state that `resume` hands to `enqueue_ready_nodes` is driven too.
    pub resume-IsFlushed :
        (w : Drive) (n : ℕ)
        → In n w.join_set
        → IsDriven es nodes outcome w
        → IsFlushed (resume accepts w n (outcome n))
    unfolding resume
    resume-IsFlushed w n i d = flush _ (settled-IsDriven es nodes outcome w n i d)

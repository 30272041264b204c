-- ===== src/Walker/Invariant.antt =====
-- What holds of the walker's state between the calls of its methods
-- (crates/luchta-engine/src/walker.rs), and that each method keeps it.
use luchta.Prelude.{
  ℕ, ◌+◌, ◌≡◌, sym, ap, subst, Bool, true, false, inl, inr, ◌↔◌, Option, some, none, List, [], In,
  Distinct, length, ◌==◌, nat_eq, arith, nat_beq_iff, Bool-cases,
}
use luchta.Prelude.Maps.{Map, lookup, lookup_or, insert, lookup-insert}
use luchta.Petgraph.{sources, occurrences}
use luchta.Walker.{
  NodeState, running, succeeded, failed, skipped, WalkerState, is_pending, is_ready, set_running,
  mark_succeeded, skip_loop, skip_dependents, mark_failed,
}
use luchta.Walker.Tally.{
  tally, tally-insert, tally-le-length, unfinished, unfinished-insert_succeeded, unfinished-congr,
  succeeded_of_unfinished-eq-zero, lookup-release,
}
use luchta.Walker.Skips.{
  is_dead, is_terminal, In-sources, HasCause, Cascade, Skips, skip_loop-Skips,
}

abbrev pub is_known : Option NodeState → Bool
is_known none = false
is_known (some _) = true

-- The node was dispatched.
abbrev pub is_started : Option NodeState → Bool
is_started (some running) = true
is_started (some succeeded) = true
is_started (some failed) = true
is_started _ = false

-- `es` are the edges of the graph, from each node to those that it depends on.
pub record IsSound (es : List (ℕ × ℕ)) (nodes : List ℕ) (s : WalkerState) : Type 0 where
  pub unique : Distinct nodes
  pub total : s.total_count ≡ length nodes
  pub wired : (n : ℕ) → lookup_or [] n s.dependents ≡ sources n es
  pub listed : (n : ℕ) → (is_known (lookup n s.states) ≡ true) ↔ In n nodes
  pub counted :
      (n : ℕ)
      → is_pending (lookup n s.states) ≡ true
      → lookup n s.dependencies_remaining ≡ some (unfinished es s.states n)
  pub active :
      (a b : ℕ)
      → In (a, b) es
      → is_started (lookup a s.states) ≡ true
      → lookup b s.states ≡ some succeeded
  pub clean :
      (a b : ℕ)
      → In (a, b) es
      → is_dead (lookup b s.states) ≡ true
      → is_pending (lookup a s.states) ≡ false
  pub blamed : (a : ℕ) → lookup a s.states ≡ some skipped → HasCause es s.states a
  pub tallied : s.terminal_count ≡ tally is_terminal nodes s.states

module _ {es : List (ℕ × ℕ)} {nodes : List ℕ} (s : WalkerState) (n : ℕ)
    (sound : IsSound es nodes s) where
  open sound use {unique, wired, listed, counted, active, clean, blamed, tallied}

  listed-insert :
      (v : NodeState)
      → is_known (lookup n s.states) ≡ true
      → (k : ℕ) → (is_known (lookup k (insert n v s.states)) ≡ true) ↔ In k nodes
  listed-insert v known k = (
    λ h. ground (arith, lookup-insert n k v s.states, nat_beq_iff n k, (listed k).0),
    λ h. ground (arith, lookup-insert n k v s.states, (listed k).1 h),
  )

  -- All dependencies of a ready node have succeeded.
  pub ready_dependencies :
      is_ready s n ≡ true
      → (is_pending (lookup n s.states) ≡ true)
        × ((b : ℕ) → In (n, b) es → lookup b s.states ≡ some succeeded)
  unfolding is_ready
  ready_dependencies ready =
      let waits : is_pending (lookup n s.states) ≡ true = ground arith in
      let idle : unfinished es s.states n ≡ 0 = ground (arith, counted n waits) in
      (waits, λ b e. ground (arith, succeeded_of_unfinished-eq-zero es s.states n b idle e))

  pub set_running-IsSound : is_ready s n ≡ true → IsSound es nodes (set_running s n)
  unfolding set_running
  set_running-IsSound ready =
      let (waits, deps) = ready_dependencies ready in
      let at = λ (k : ℕ). lookup-insert n k running s.states in
      rw (waits, set_running)
        (record {
          unique = unique;
          total = sound.total;
          wired = wired;
          listed = listed-insert running (ground arith);
          counted = λ k h. ground (
            arith,
            at k,
            nat_beq_iff n k,
            counted k,
            unfinished-congr es s.states (insert n running s.states) k
                (λ j. ground (arith, at j, nat_beq_iff n j)),
          );
          active = λ a b e h. elim (Bool-cases (n == a)) [
            | inl same ↦
                ground (
                  arith,
                  at b,
                  deps b (subst (λ k. In (k, b) es) (sym ((nat_beq_iff n a).0 same)) e),
                )
            | inr other ↦ ground (arith, at a, at b, nat_beq_iff n b, active a b e)
          ];
          clean =
              λ a b e h. ground (arith, at a, at b, nat_beq_iff n a, nat_beq_iff n b, clean a b e);
          blamed = λ a h.
              let (b, e, dead) = blamed a (ground (arith, at a)) in
              (b, e, ground (arith, at b, nat_beq_iff n b));
          tallied = ground (
            arith,
            tallied,
            tally-insert is_terminal n running s.states nodes unique ((listed n).0 (ground arith)),
          );
        })

  pub mark_succeeded-IsSound :
      lookup n s.states ≡ some running → IsSound es nodes (mark_succeeded s n)
  unfolding mark_succeeded
  mark_succeeded-IsSound was =
      let at = λ (k : ℕ). lookup-insert n k succeeded s.states in
      rw (was, mark_succeeded)
        (record {
          unique = unique;
          total = sound.total;
          wired = wired;
          listed = listed-insert succeeded (ground arith);
          counted = λ k h.
              let before : is_pending (lookup k s.states) ≡ true =
                ground (arith, at k, nat_beq_iff n k) in
              ground (
                arith,
                lookup-release (insert n succeeded s.states) k h (lookup_or [] n s.dependents)
                    s.dependencies_remaining (unfinished es s.states k) (counted k before),
                ap (occurrences k) (wired n),
                unfinished-insert_succeeded es n s.states k (ground arith),
              );
          active = λ a b e h. elim (Bool-cases (n == a)) [
            | inl same ↦
                let edge = subst (λ k. In (k, b) es) (sym ((nat_beq_iff n a).0 same)) e in
                ground (arith, at b, active n b edge (ground arith))
            | inr other ↦ ground (arith, at a, at b, active a b e)
          ];
          clean =
              λ a b e h. ground (arith, at a, at b, nat_beq_iff n a, nat_beq_iff n b, clean a b e);
          blamed = λ a h.
              let (b, e, dead) = blamed a (ground (arith, at a)) in
              (b, e, ground (arith, at b, nat_beq_iff n b));
          tallied = ground (
            arith,
            tallied,
            tally-insert is_terminal n succeeded s.states nodes unique
                ((listed n).0 (ground arith)),
          );
        })

  -- A failed node's pending dependents stand in the queue of `skip_dependents`.
  fail-Cascade :
      lookup n s.states ≡ some running
      → Cascade es [] (lookup_or [] n s.dependents) (insert n failed s.states)
  fail-Cascade was =
      let at = λ (k : ℕ). lookup-insert n k failed s.states in
      record {
        covered = λ a b e dead waits. elim (Bool-cases (n == b)) [
          | inl same ↦
              rw (wired n) (
                (In-sources a n es).1
                  (subst (λ k. In (a, k) es) (sym ((nat_beq_iff n b).0 same)) e))
          | inr other ↦ absurd (ground (arith, at a, at b, nat_beq_iff n a, clean a b e))
        ];
        seen = λ a v. absurd v;
        caused = λ a q.
            (n, (In-sources a n es).0 (rw (wired n) at q), ground (arith, at n, nat_beq_iff n n));
      }

  pub fail-Skips :
      lookup n s.states ≡ some running
      → (count : ℕ)
      → Skips es nodes
          (insert n failed s.states)
          (skip_loop s.total_count s.dependents []
            (lookup_or [] n s.dependents)
            (insert n failed s.states)
            count).0
          count
          (skip_loop s.total_count s.dependents []
            (lookup_or [] n s.dependents)
            (insert n failed s.states)
            count).1
  fail-Skips was count =
      skip_loop-Skips es s.dependents wired nodes unique s.total_count [] _
        (insert n failed s.states) count (fail-Cascade was)
        (λ k waits.
          (listed k).0 (ground (arith, lookup-insert n k failed s.states, nat_beq_iff n k)))
        (omega (arith, tally-le-length is_pending nodes (insert n failed s.states), sound.total))

  -- The state after the failure of `n` and the skips that it causes.
  fail_end-IsSound :
      (was : lookup n s.states ≡ some running) (m : Map ℕ NodeState) (k : ℕ)
      → Skips es nodes (insert n failed s.states) m 0 k
      → IsSound es nodes (record s { states = m; terminal_count = s.terminal_count + 1 + k })
  fail_end-IsSound was m k skips =
      let at = λ (j : ℕ). lookup-insert n j failed s.states in
      let only = skips.only in
      record {
        unique = unique;
        total = sound.total;
        wired = wired;
        listed = λ j. (
          λ h. ground (arith, only j, at j, nat_beq_iff n j, (listed j).0),
          λ h. ground (arith, only j, at j, nat_beq_iff n j, (listed j).1 h),
        );
        counted = λ j h. ground (
          arith,
          only j,
          at j,
          nat_beq_iff n j,
          counted j,
          unfinished-congr es s.states m j (λ i. ground (arith, only i, at i, nat_beq_iff n i)),
        );
        active = λ a b e h. elim (Bool-cases (n == a)) [
          | inl same ↦
              let edge = subst (λ j. In (j, b) es) (sym ((nat_beq_iff n a).0 same)) e in
              ground (arith, at b, only b, nat_beq_iff n b, active n b edge (ground arith))
          | inr other ↦ ground (arith, at a, at b, only a, only b, nat_beq_iff n b, active a b e)
        ];
        clean = skips.clean;
        blamed = λ a h. elim (only a) [
          | inl kept ↦
              let (b, e, dead) = blamed a (ground (arith, at a)) in
              (b, e, ground (arith, at b, only b, nat_beq_iff n b))
          | inr (waited, _) ↦ skips.blamed a waited h
        ];
        tallied = ground (
          arith,
          tallied,
          skips.counted,
          tally-insert is_terminal n failed s.states nodes unique ((listed n).0 (ground arith)),
        );
      }

  -- The result of `skip_dependents` for a running node that has failed.
  abbrev pub cascade : Map ℕ NodeState × ℕ
  cascade =
      skip_loop s.total_count s.dependents [] (lookup_or [] n s.dependents)
        (insert n failed s.states) 0

  pub mark_failed-eq :
      lookup n s.states ≡ some running
      → mark_failed s n
        ≡ record s { states = cascade.0; terminal_count = s.terminal_count + 1 + cascade.1 }
  unfolding mark_failed skip_dependents
  mark_failed-eq was = ground arith

  pub mark_failed-IsSound : lookup n s.states ≡ some running → IsSound es nodes (mark_failed s n)
  mark_failed-IsSound was = rw (mark_failed-eq was) (fail_end-IsSound was _ _ (fail-Skips was 0))

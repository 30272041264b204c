-- ===== src/Walker/Skips.antt =====
-- `skip_dependents` (crates/luchta-engine/src/walker.rs): the queue over the dependents of a failed
-- node ends with its fuel unspent, skips pending nodes only, each for a cause, and leaves no pending
-- node behind a dead one.
use luchta.Prelude.{
  ℕ, zero, suc, ◌+◌, ◌≤◌, ◌≡◌, refl, sym, subst, Bool, true, false, inl, inr, ◌⊎◌, ◌↔◌, Option,
  some, List, [], ◌∷◌, ◌++◌, In, Distinct, In-append, contains, contains-In, ◌==◌, nat_eq, arith,
  nat_beq_iff, Bool-cases,
}
use luchta.Prelude.Maps.{Map, lookup, lookup_or, insert, lookup-insert}
use luchta.Petgraph.{sources}
use luchta.Walker.{NodeState, pending, succeeded, failed, skipped, is_pending, skip_loop}
use luchta.Walker.Tally.{tally, tally-insert, tally-pos}

abbrev pub is_dead : Option NodeState → Bool
is_dead (some failed) = true
is_dead (some skipped) = true
is_dead _ = false

abbrev pub is_terminal : Option NodeState → Bool
is_terminal (some succeeded) = true
is_terminal (some failed) = true
is_terminal (some skipped) = true
is_terminal _ = false

pub In-sources : (a n : ℕ) (es : List (ℕ × ℕ)) → In a (sources n es) ↔ In (a, n) es
In-sources a n [] = (λ m. m, λ m. m)
In-sources a n ((x, y) ∷ es) = ground (arith, nat_beq_iff y n, In-sources a n es)

-- Some changes of state: pending nodes are skipped, and nothing else.
abbrev pub OnlySkips : (m m' : Map ℕ NodeState) → Type 0
OnlySkips m m' =
    (n : ℕ)
    → (lookup n m' ≡ lookup n m) ⊎ (lookup n m ≡ some pending) × (lookup n m' ≡ some skipped)

dead-OnlySkips :
    (m m' : Map ℕ NodeState)
    → OnlySkips m m'
    → (b : ℕ) → is_dead (lookup b m) ≡ true
    → is_dead (lookup b m') ≡ true
dead-OnlySkips m m' only b h = ground (arith, only b)

module _ (es : List (ℕ × ℕ)) where
  -- A dead node that `a` depends on.
  abbrev pub HasCause : Map ℕ NodeState → ℕ → Type 0
  HasCause m a = (b : ℕ) × In (a, b) es × (is_dead (lookup b m) ≡ true)

  -- What the loop keeps: the pending dependents of the dead nodes stand in the queue.
  pub record Cascade (visited queue : List ℕ) (m : Map ℕ NodeState) : Type 0 where
    pub covered :
        (a b : ℕ)
        → In (a, b) es
        → is_dead (lookup b m) ≡ true
        → is_pending (lookup a m) ≡ true
        → In a queue
    pub seen : (a : ℕ) → In a visited → is_pending (lookup a m) ≡ false
    pub caused : (a : ℕ) → In a queue → HasCause m a

  -- What the loop does to the states.
  pub record Skips (nodes : List ℕ) (m m' : Map ℕ NodeState) (count count' : ℕ) : Type 0 where
    pub only : OnlySkips m m'
    pub clean :
        (a b : ℕ) → In (a, b) es → is_dead (lookup b m') ≡ true → is_pending (lookup a m') ≡ false
    pub blamed : (a : ℕ) → lookup a m ≡ some pending → lookup a m' ≡ some skipped → HasCause m' a
    pub counted : tally is_terminal nodes m' + count ≡ tally is_terminal nodes m + count'

  -- A queue entry that is not pending is dropped.
  drop-Cascade :
      (visited visited' queue : List ℕ) (d : ℕ) (m : Map ℕ NodeState)
      → is_pending (lookup d m) ≡ false
      → ((a : ℕ) → In a visited' → (a ≡ d) ⊎ In a visited)
      → Cascade visited (d ∷ queue) m
      → Cascade visited' queue m
  drop-Cascade visited visited' queue d m idle grows c = record {
    covered = λ a b e dead waits. ground (arith, c.covered a b e dead waits);
    seen = λ a v. ground (arith, grows a v, c.seen a);
    caused = λ a q. c.caused a (inr q);
  }

  module _ (dependents : Map ℕ (List ℕ))
      (wired : (n : ℕ) → lookup_or [] n dependents ≡ sources n es) where
    In-requeued :
        (a d : ℕ) (queue : List ℕ)
        → In a (queue ++ lookup_or [] d dependents) ↔ (In a queue ⊎ In (a, d) es)
    In-requeued a d queue =
        rw (wired d) (ground (arith, In-append a queue (sources d es), In-sources a d es))

    -- A pending queue entry is skipped, and its dependents are queued.
    skip-Cascade :
        (visited queue : List ℕ) (d : ℕ) (m : Map ℕ NodeState)
        → is_pending (lookup d m) ≡ true
        → Cascade visited (d ∷ queue) m
        → Cascade (d ∷ visited) (queue ++ lookup_or [] d dependents) (insert d skipped m)
    skip-Cascade visited queue d m waits c = record {
      covered = λ a b e dead idle. (In-requeued a d queue).1 (elim (Bool-cases (d == b)) [
        | inl same ↦ inr (subst (λ k. In (a, k) es) (sym ((nat_beq_iff d b).0 same)) e)
        | inr other ↦ ground (
          arith,
          lookup-insert d b skipped m,
          lookup-insert d a skipped m,
          nat_beq_iff d a,
          c.covered a b e,
        )
      ]);
      seen = λ a v. ground (arith, lookup-insert d a skipped m, nat_beq_iff d a, c.seen a);
      caused = λ a q. elim ((In-requeued a d queue).0 q) [
        | inl old ↦
            let (b, e, dead) = c.caused a (inr old) in
            (b, e, ground (arith, lookup-insert d b skipped m))
        | inr new ↦ (d, new, ground (arith, lookup-insert d d skipped m, nat_beq_iff d d))
      ];
    }

    module _ (nodes : List ℕ) (unique : Distinct nodes) where
      -- The rest of the loop after `d` is skipped, seen from before.
      prepend-Skips :
          (visited queue : List ℕ) (d : ℕ) (m m' : Map ℕ NodeState) (count count' : ℕ)
          → is_pending (lookup d m) ≡ true
          → In d nodes
          → Cascade visited (d ∷ queue) m
          → Skips nodes (insert d skipped m) m' (count + 1) count'
          → Skips nodes m m' count count'
      prepend-Skips visited queue d m m' count count' waits listed c s = record {
        only = λ n. ground (arith, lookup-insert d n skipped m, nat_beq_iff d n, s.only n);
        clean = s.clean;
        blamed = λ a was now. elim (Bool-cases (d == a)) [
          | inl same ↦
              let (b, e, dead) = c.caused d (inl refl) in
              (
                b,
                subst (λ k. In (k, b) es) ((nat_beq_iff d a).0 same) e,
                ground (arith, lookup-insert d b skipped m, s.only b),
              )
          | inr other ↦ s.blamed a (ground (arith, lookup-insert d a skipped m)) now
        ];
        counted =
            ground (arith, s.counted, tally-insert is_terminal d skipped m nodes unique listed);
      }

      pub skip_loop-Skips :
          (fuel : ℕ) (visited queue : List ℕ) (m : Map ℕ NodeState) (count : ℕ)
          → Cascade visited queue m
          → ((n : ℕ) → is_pending (lookup n m) ≡ true → In n nodes)
          → tally is_pending nodes m ≤ fuel
          → Skips nodes m
              (skip_loop fuel dependents visited queue m count).0
              count
              (skip_loop fuel dependents visited queue m count).1
      unfolding skip_loop
      skip_loop-Skips fuel visited [] m count c listed h = record {
        only = λ n. inl refl;
        clean = λ a b e dead. ground (arith, c.covered a b e dead);
        blamed = λ a was now. cc;
        counted = refl;
      }
      skip_loop-Skips zero visited (d ∷ queue) m count c listed h =
          elim (Bool-cases (contains visited d)) [
            | inl old ↦
                rw (old, skip_loop)
                  (skip_loop-Skips zero visited queue m count
                    (drop-Cascade visited visited queue d m (c.seen d (contains-In d visited old))
                      (λ a v. inr v) c)
                    listed h)
            | inr new ↦ elim (Bool-cases (is_pending (lookup d m))) [
              | inl waits ↦
                  absurd (tally-pos is_pending d m nodes (listed d waits) waits (omega arith))
              | inr idle ↦
                  rw (new, idle, skip_loop)
                    (skip_loop-Skips zero (d ∷ visited) queue m count
                      (drop-Cascade visited (d ∷ visited) queue d m idle (λ a v. v) c) listed h)
            ]
          ]
      skip_loop-Skips (suc fuel) visited (d ∷ queue) m count c listed h =
          elim (Bool-cases (contains visited d)) [
            | inl old ↦
                rw (old, skip_loop)
                  (skip_loop-Skips (suc fuel) visited queue m count
                    (drop-Cascade visited visited queue d m (c.seen d (contains-In d visited old))
                      (λ a v. inr v) c)
                    listed h)
            | inr new ↦ elim (Bool-cases (is_pending (lookup d m))) [
              | inl waits ↦
                  rw (new, waits, skip_loop)
                    (prepend-Skips visited queue d m _ count _ waits (listed d waits) c (
                      skip_loop-Skips fuel (d ∷ visited) (queue ++ lookup_or [] d dependents)
                        (insert d skipped m) (count + 1) (skip-Cascade visited queue d m waits c)
                        (λ n w. listed n (ground (arith, lookup-insert d n skipped m)))
                        (ground (
                          arith,
                          tally-insert is_pending d skipped m nodes unique (listed d waits),
                        ))))
              | inr idle ↦
                  rw (new, idle, skip_loop)
                    (skip_loop-Skips (suc fuel) (d ∷ visited) queue m count
                      (drop-Cascade visited (d ∷ visited) queue d m idle (λ a v. v) c) listed h)
            ]
          ]

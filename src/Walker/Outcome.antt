-- ===== src/Walker/Outcome.antt =====
-- What a whole run of the walker does (crates/luchta-engine/src/walker.rs, `run`): which tasks are
-- sent, how the nodes end, and that the order in which the tasks end does not matter.
use luchta.Prelude.{
  ℕ, zero, suc, ◌<◌, ◌≡◌, refl, subst, Bool, true, false, inl, inr, ◌⊎◌, ◌↔◌, Option, some, none,
  List, In, Distinct, nat_eq, arith, Bool-cases,
}
use luchta.Prelude.Maps.{Map, lookup, keys}
use luchta.Petgraph.{Trail, edge, step}
use luchta.Walker.{
  NodeState, pending, running, succeeded, failed, skipped, WalkerState, Drive, new_drive,
  take_ready_nodes, enqueue_ready_nodes, run,
}
use luchta.Walker.Tally.{holds_of_tally-eq-length}
use luchta.Walker.Skips.{is_dead, is_terminal, HasCause}
use luchta.Walker.Invariant.{IsSound}
use luchta.Walker.Driver.Dispatch.{
  IsDriven, Agrees, enqueue_ready_nodes-IsDriven, run_loop-IsDriven,
}
use luchta.Walker.Driver.Progress.{flush, enqueue-IsComplete}
use luchta.Walker.Driver.Finish.{IsRanked, IsFinished, enqueue-counts, schedule, finishes}

-- A state of the walker before anything was sent.
pub record IsFresh (es : List (ℕ × ℕ)) (nodes : List ℕ) (s : WalkerState) : Type 0 where
  pub sound : IsSound es nodes s
  pub named : keys s.nodes ≡ nodes
  pub waiting : (n : ℕ) → (lookup n s.states ≡ none) ⊎ (lookup n s.states ≡ some pending)

abbrev is_skipped : Option NodeState → Bool
is_skipped (some skipped) = true
is_skipped _ = false

-- How a node ends, from how its dependencies end and what its task returned.
abbrev pub Verdict : List (ℕ × ℕ) → (ℕ → Bool) → Map ℕ NodeState → ℕ → Option NodeState → Type 0
Verdict es outcome m n (some succeeded) =
    (outcome n ≡ true) × ((b : ℕ) → In (n, b) es → lookup b m ≡ some succeeded)
Verdict es outcome m n (some failed) =
    (outcome n ≡ false) × ((b : ℕ) → In (n, b) es → lookup b m ≡ some succeeded)
Verdict es outcome m n (some skipped) = HasCause es m n
Verdict es outcome m n _ = ⊥

-- The results of a run in which `next` picks the awaited task that ends next, one for each node.
abbrev pub run_schedule :
    (outcome accepts : ℕ → Bool) → (List ℕ → ℕ) → WalkerState → List (ℕ × Bool)
run_schedule outcome accepts next s =
    schedule accepts outcome next s.total_count (enqueue_ready_nodes accepts (new_drive s))

module _ {es : List (ℕ × ℕ)} {nodes : List ℕ} (outcome : ℕ → Bool) (accepts : ℕ → Bool)
    (s : WalkerState) (fresh : IsFresh es nodes s) where
  start-IsDriven : IsDriven es nodes outcome (new_drive s)
  start-IsDriven = record {
    sound = fresh.sound;
    named = fresh.named;
    awaited = λ n i. absurd i;
    sent_once = tt;
    sent_started = λ n i. absurd i;
    succeeds = λ n h. ground (arith, fresh.waiting n);
    fails = λ n h. ground (arith, fresh.waiting n);
  }

  pub run-IsDriven :
      (joined : List (ℕ × Bool))
      → Agrees outcome joined
      → IsDriven es nodes outcome (run accepts joined s)
  unfolding run
  run-IsDriven joined agrees =
      run_loop-IsDriven es nodes outcome accepts joined _ agrees
        (enqueue_ready_nodes-IsDriven es nodes outcome accepts (new_drive s) start-IsDriven)

  -- Each task is sent at most once, and only after all that it depends on has succeeded.
  pub run-sent :
      (joined : List (ℕ × Bool))
      → Agrees outcome joined
      → Distinct (run accepts joined s).sent
        × ((n b : ℕ)
            → In n (run accepts joined s).sent
            → In (n, b) es
            → lookup b (run accepts joined s).walker.states ≡ some succeeded)
  run-sent joined agrees =
      let d = run-IsDriven joined agrees in
      (d.sent_once, λ n b i e. d.sound.active n b e (d.sent_started n i))

  terminal_of_finished :
      (w : Drive)
      → IsDriven es nodes outcome w
      → IsFinished w
      → (n : ℕ) → In n nodes
      → is_terminal (lookup n w.walker.states) ≡ true
  terminal_of_finished w d f n i =
      holds_of_tally-eq-length is_terminal nodes w.walker.states
        (omega (arith, d.sound.tallied, d.sound.total)) n i

  Verdict-at :
      (w : Drive)
      → IsDriven es nodes outcome w
      → (n : ℕ) (o : Option NodeState) → lookup n w.walker.states ≡ o
      → is_terminal o ≡ true
      → Verdict es outcome w.walker.states n o
  Verdict-at w d n none q t = cc
  Verdict-at w d n (some pending) q t = cc
  Verdict-at w d n (some running) q t = cc
  Verdict-at w d n (some succeeded) q t = (d.succeeds n q, λ b e. d.sound.active n b e (rw q refl))
  Verdict-at w d n (some failed) q t = (d.fails n q, λ b e. d.sound.active n b e (rw q refl))
  Verdict-at w d n (some skipped) q t = d.sound.blamed n q

  pub Verdict-of_finished :
      (w : Drive)
      → IsDriven es nodes outcome w
      → IsFinished w
      → (n : ℕ) → In n nodes
      → Verdict es outcome w.walker.states n (lookup n w.walker.states)
  Verdict-of_finished w d f n i =
      Verdict-at w d n (lookup n w.walker.states) refl (terminal_of_finished w d f n i)

-- The run whose results come in as `next` picks them ends with all nodes terminal.
pub run-finishes :
    {es : List (ℕ × ℕ)} {nodes : List ℕ} {rank : ℕ → ℕ} (ranked : IsRanked es nodes rank)
    (outcome accepts : ℕ → Bool)
    → ((n : ℕ) → accepts n ≡ true)
    → (next : List ℕ → ℕ) → ((js : List ℕ) (n : ℕ) → In n js → In (next js) js)
    → (s : WalkerState) → IsFresh es nodes s
    → IsFinished (run accepts (run_schedule outcome accepts next s) s)
unfolding run enqueue_ready_nodes
run-finishes {es} {nodes} ranked outcome accepts takes next picks s fresh =
    let d = start-IsDriven outcome accepts s fresh in
    finishes ranked accepts takes next picks s.total_count
      (enqueue_ready_nodes accepts (new_drive s))
      (enqueue_ready_nodes-IsDriven es nodes outcome accepts (new_drive s) d)
      (enqueue-IsComplete accepts takes _ (new_drive s) (λ n h. ground (arith, fresh.waiting n)))
      (flush accepts takes (new_drive s) d)
      (omega (arith, enqueue-counts accepts (take_ready_nodes s) (new_drive s)))

-- Two families of end states that satisfy the verdicts are equal, so the verdicts describe one
-- result: they do not mention the order in which the tasks ended.
module _ {es : List (ℕ × ℕ)} {nodes : List ℕ} {rank : ℕ → ℕ} (ranked : IsRanked es nodes rank)
    (outcome : ℕ → Bool) (m m' : Map ℕ NodeState)
    (first : (n : ℕ) → In n nodes → Verdict es outcome m n (lookup n m))
    (second : (n : ℕ) → In n nodes → Verdict es outcome m' n (lookup n m')) where
  agree_at :
      (n : ℕ) (o o' : Option NodeState)
      → ((b : ℕ) → In (n, b) es → lookup b m ≡ lookup b m')
      → Verdict es outcome m n o
      → Verdict es outcome m' n o'
      → o ≡ o'
  agree_at n (some succeeded) (some succeeded) ih v v' = refl
  agree_at n (some succeeded) (some failed) ih v v' = cc
  agree_at n (some succeeded) (some skipped) ih v (b, e, dead) = ground (arith, ih b e, v.1 b e)
  agree_at n (some failed) (some failed) ih v v' = refl
  agree_at n (some failed) (some succeeded) ih v v' = cc
  agree_at n (some failed) (some skipped) ih v (b, e, dead) = ground (arith, ih b e, v.1 b e)
  agree_at n (some skipped) (some skipped) ih v v' = refl
  agree_at n (some skipped) (some succeeded) ih (b, e, dead) v' = ground (arith, ih b e, v'.1 b e)
  agree_at n (some skipped) (some failed) ih (b, e, dead) v' = ground (arith, ih b e, v'.1 b e)
  agree_at n none o' ih v v' = absurd v
  agree_at n (some pending) o' ih v v' = absurd v
  agree_at n (some running) o' ih v v' = absurd v
  agree_at n (some succeeded) none ih v v' = absurd v'
  agree_at n (some succeeded) (some pending) ih v v' = absurd v'
  agree_at n (some succeeded) (some running) ih v v' = absurd v'
  agree_at n (some failed) none ih v v' = absurd v'
  agree_at n (some failed) (some pending) ih v v' = absurd v'
  agree_at n (some failed) (some running) ih v v' = absurd v'
  agree_at n (some skipped) none ih v v' = absurd v'
  agree_at n (some skipped) (some pending) ih v v' = absurd v'
  agree_at n (some skipped) (some running) ih v v' = absurd v'

  agree_below : (k n : ℕ) → rank n < k → In n nodes → lookup n m ≡ lookup n m'
  agree_below zero n h i = absurd (omega arith)
  agree_below (suc k) n h i =
      agree_at n (lookup n m) (lookup n m')
        (λ b e. agree_below k b (omega (arith, ranked.falls n b e)) (ranked.within n b e).1)
        (first n i) (second n i)

  pub verdicts_agree : (n : ℕ) → In n nodes → lookup n m ≡ lookup n m'
  verdicts_agree n i = agree_below (suc (rank n)) n (omega arith) i

-- The skipped nodes are those that depend, through whatever chain, on a failed one.
module _ {es : List (ℕ × ℕ)} {nodes : List ℕ} {rank : ℕ → ℕ} (ranked : IsRanked es nodes rank)
    (outcome : ℕ → Bool) (m : Map ℕ NodeState)
    (ends : (n : ℕ) → In n nodes → Verdict es outcome m n (lookup n m)) where
  skipped_at :
      (n b : ℕ) (o : Option NodeState)
      → In (n, b) es
      → is_dead (lookup b m) ≡ true
      → Verdict es outcome m n o
      → o ≡ some skipped
  skipped_at n b (some skipped) e dead v = refl
  skipped_at n b (some succeeded) e dead v = absurd (ground (arith, v.1 b e))
  skipped_at n b (some failed) e dead v = absurd (ground (arith, v.1 b e))
  skipped_at n b none e dead v = absurd v
  skipped_at n b (some pending) e dead v = absurd v
  skipped_at n b (some running) e dead v = absurd v

  skipped_of_Trail :
      {n b : ℕ} → Trail es n b → is_dead (lookup b m) ≡ true → lookup n m ≡ some skipped
  skipped_of_Trail (edge {a} {b} e) dead =
      skipped_at a b (lookup a m) e dead (ends a (ranked.within a b e).0)
  skipped_of_Trail (step {a} {b} e t) dead =
      let below = skipped_of_Trail t dead in
      skipped_at a b (lookup a m) e (ground arith) (ends a (ranked.within a b e).0)

  Trail-below :
      (k n : ℕ) → rank n < k → HasCause es m n → (b : ℕ) × Trail es n b × (lookup b m ≡ some failed)
  Trail-below zero n h c = absurd (omega arith)
  Trail-below (suc k) n h (b, e, dead) = elim (Bool-cases (is_skipped (lookup b m))) [
    | inl skips ↦
        let v = ends b (ranked.within n b e).1 in
        let q : lookup b m ≡ some skipped = ground arith in
        let (c, t, f) =
          Trail-below k b (omega (arith, ranked.falls n b e))
            (subst (Verdict es outcome m b) q v) in
        (c, step e t, f)
    | inr other ↦ (b, edge e, ground arith)
  ]

  pub skipped_iff :
      (n : ℕ)
      → In n nodes
      → (lookup n m ≡ some skipped) ↔ ((b : ℕ) × Trail es n b × (lookup b m ≡ some failed))
  skipped_iff n i = (
    λ q. Trail-below (suc (rank n)) n (omega arith) (subst (Verdict es outcome m n) q (ends n i)),
    λ (b, t, f). skipped_of_Trail t (ground arith),
  )

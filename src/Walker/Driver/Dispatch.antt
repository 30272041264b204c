-- ===== src/Walker/Driver/Dispatch.antt =====
-- What holds of the driver after each round (crates/luchta-engine/src/walker.rs, `run` and
-- `enqueue_ready_nodes`): which nodes are awaited, and which tasks were sent.
use luchta.Prelude.{
  ℕ, ◌≡◌, refl, sym, subst, Bool, true, false, not, inl, inr, some, List, [], ◌∷◌, ◌++◌, In,
  In-append, In-filter, Distinct, Distinct-concat, filter, filter-Distinct, contains, contains-In,
  ltb, ◌==◌, nat_eq, arith, nat_beq_iff, Bool-cases, ◌&&◌,
}
use luchta.Prelude.Maps.{lookup, lookup-insert, keys}
use luchta.Prelude.Sort.{In-sort_by, sort_by-Distinct}
use luchta.Walker.{
  NodeState, running, WalkerState, compare_ready, is_ready, take_ready_nodes, set_running, settle,
  Drive, enqueue, enqueue_ready_nodes, resume, run_loop,
}
use luchta.Walker.Invariant.{is_started, IsSound, set_running-IsSound, ready_dependencies}
use luchta.Walker.Driver.Settle.{settle-IsSound, settle-nodes, lookup-settle}

-- Results that agree with `outcome`.
abbrev pub Agrees : (ℕ → Bool) → List (ℕ × Bool) → Type 0
Agrees outcome [] = Unit
Agrees outcome ((n, b) ∷ joined) = (b ≡ outcome n) × Agrees outcome joined

module _ (es : List (ℕ × ℕ)) (nodes : List ℕ) (outcome : ℕ → Bool) where
  pub record IsDriven (w : Drive) : Type 0 where
    pub sound : IsSound es nodes w.walker
    pub named : keys w.walker.nodes ≡ nodes
    pub awaited : (n : ℕ) → In n w.join_set → lookup n w.walker.states ≡ some running
    pub sent_once : Distinct w.sent
    pub sent_started : (n : ℕ) → In n w.sent → is_started (lookup n w.walker.states) ≡ true
    -- The end states follow the results of the tasks.
    pub succeeds : (n : ℕ) → lookup n w.walker.states ≡ some NodeState.succeeded → outcome n ≡ true
    pub fails : (n : ℕ) → lookup n w.walker.states ≡ some NodeState.failed → outcome n ≡ false

  -- The end of an awaited task, before the next nodes are handed out.
  pub settled-IsDriven :
      (w : Drive) (n : ℕ)
      → In n w.join_set
      → IsDriven w
      → IsDriven (record w {
        walker = settle w.walker n (outcome n);
        join_set = filter (λ m. not (m == n)) w.join_set;
      })
  settled-IsDriven w n i d =
      let was = d.awaited n i in
      let at = lookup-settle w.walker n d.sound was (outcome n) in
      record {
        sound = settle-IsSound w.walker n d.sound was (outcome n);
        named = rw (settle-nodes w.walker n d.sound was (outcome n)) (d.named);
        awaited = λ k j.
            let (old, other) = (In-filter (λ m. not (m == n)) k w.join_set).0 j in
            ground (arith, at k, d.awaited k old, nat_beq_iff n k, nat_beq_iff k n);
        sent_once = d.sent_once;
        sent_started = λ k j. ground (arith, at k, d.sent_started k j);
        succeeds = λ k h. ground (arith, at k, d.succeeds k, nat_beq_iff n k);
        fails = λ k h. ground (arith, at k, d.fails k, nat_beq_iff n k);
      }

  module _ (accepts : ℕ → Bool) where
    AllReady : List ℕ → WalkerState → Type 0
    AllReady ready s = (k : ℕ) → In k ready → is_ready s k ≡ true

    set_running-AllReady :
        (n : ℕ) (ready : List ℕ) (s : WalkerState)
        → ¬ In n ready
        → AllReady (n ∷ ready) s
        → AllReady ready (set_running s n)
    unfolding AllReady set_running is_ready
    set_running-AllReady n ready s fresh all k i =
        let other : ¬ (n ≡ k) = λ q. fresh (subst (λ j. In j ready) (sym q) i) in
        ground (arith, all k (inr i), lookup-insert n k running s.states, nat_beq_iff n k)

    -- Handing out one ready node.
    dispatch-IsDriven :
        (n : ℕ) (w : Drive)
        → is_ready w.walker n ≡ true
        → IsDriven w
        → IsDriven (record {
          walker = set_running w.walker n;
          join_set = w.join_set ++ n ∷ [];
          sent = w.sent ++ n ∷ [];
        })
    unfolding set_running
    dispatch-IsDriven n w ready d =
        let at = λ (k : ℕ). lookup-insert n k running w.walker.states in
        let waits = (ready_dependencies w.walker n d.sound ready).0 in
        record {
          sound = set_running-IsSound w.walker n d.sound ready;
          named = ground (arith, d.named);
          awaited = λ k i.
              ground
                (arith, (In-append k w.join_set (n ∷ [])).0 i, at k, nat_beq_iff n k, d.awaited k);
          sent_once =
              Distinct-concat n w.sent (λ i. ground (arith, d.sent_started n i)) d.sent_once;
          sent_started = λ k i.
              ground
                (arith, (In-append k w.sent (n ∷ [])).0 i, at k, nat_beq_iff n k, d.sent_started k);
          succeeds = λ k h. ground (arith, at k, d.succeeds k);
          fails = λ k h. ground (arith, at k, d.fails k);
        }

    -- A node that is set running, and whose message is not taken.
    drop-IsDriven :
        (n : ℕ) (w : Drive)
        → is_ready w.walker n ≡ true
        → IsDriven w
        → IsDriven (record w { walker = set_running w.walker n })
    unfolding set_running
    drop-IsDriven n w ready d =
        let at = λ (k : ℕ). lookup-insert n k running w.walker.states in
        let waits = (ready_dependencies w.walker n d.sound ready).0 in
        record {
          sound = set_running-IsSound w.walker n d.sound ready;
          named = ground (arith, d.named);
          awaited = λ k i. ground (arith, at k, nat_beq_iff n k, d.awaited k i);
          sent_once = d.sent_once;
          sent_started = λ k i. ground (arith, at k, nat_beq_iff n k, d.sent_started k i);
          succeeds = λ k h. ground (arith, at k, d.succeeds k);
          fails = λ k h. ground (arith, at k, d.fails k);
        }

    enqueue-IsDriven :
        (ready : List ℕ) (w : Drive)
        → Distinct ready
        → AllReady ready w.walker
        → IsDriven w
        → IsDriven (enqueue accepts ready w)
    unfolding enqueue AllReady
    enqueue-IsDriven [] w u all d = d
    enqueue-IsDriven (n ∷ ready) w u all d = elim (Bool-cases (accepts n)) [
      | inl taken ↦
          rw (taken, enqueue)
            (enqueue-IsDriven ready _ u.1 (set_running-AllReady n ready w.walker u.0 all)
              (dispatch-IsDriven n w (all n (inl refl)) d))
      | inr refused ↦ rw (refused, enqueue) (drop-IsDriven n w (all n (inl refl)) d)
    ]

    take_ready_nodes-AllReady : (s : WalkerState) → AllReady (take_ready_nodes s) s
    unfolding take_ready_nodes AllReady
    take_ready_nodes-AllReady s k i =
        ((In-filter (is_ready s) k (keys s.nodes)).0 ((In-sort_by (compare_ready s) k _).0 i)).1

    pub enqueue_ready_nodes-IsDriven :
        (w : Drive) → IsDriven w → IsDriven (enqueue_ready_nodes accepts w)
    unfolding enqueue_ready_nodes take_ready_nodes
    enqueue_ready_nodes-IsDriven w d =
        enqueue-IsDriven (take_ready_nodes w.walker) w
          (sort_by-Distinct (compare_ready w.walker) _
            (filter-Distinct (is_ready w.walker) _ (rw (d.named) (d.sound.unique))))
          (take_ready_nodes-AllReady w.walker) d

    pub resume-IsDriven :
        (w : Drive) (n : ℕ)
        → In n w.join_set
        → IsDriven w
        → IsDriven (resume accepts w n (outcome n))
    unfolding resume
    resume-IsDriven w n i d = enqueue_ready_nodes-IsDriven _ (settled-IsDriven w n i d)

    pub run_loop-IsDriven :
        (joined : List (ℕ × Bool)) (w : Drive)
        → Agrees outcome joined
        → IsDriven w
        → IsDriven (run_loop accepts joined w)
    unfolding run_loop
    run_loop-IsDriven [] w a d = d
    run_loop-IsDriven ((n, b) ∷ joined) w a d =
        elim (Bool-cases
          (ltb w.walker.terminal_count w.walker.total_count && contains w.join_set n)) [
            | inl goes ↦
                rw (goes, run_loop)
                  (run_loop-IsDriven joined _ a.1 (
                    subst (λ c. IsDriven (resume accepts w n c)) (sym a.0)
                      (resume-IsDriven w n (contains-In n w.join_set (ground arith)) d)))
            | inr stops ↦ rw (stops, run_loop) d
          ]

-- ===== src/Walker/Start/Fresh.antt =====
-- The state that `from_graph` builds (crates/luchta-engine/src/walker.rs) is one in which nothing was
-- sent, for a graph that behaves as petgraph documents.
use luchta.Prelude.{
  ℕ, ◌≡◌, refl, sym, ap, ◌∙◌, false, inl, inr, ◌⊎◌, some, none, List, [], ◌∷◌, ◌++◌, In, Distinct,
  length, ◌==◌, nat_eq, nat_beq_iff, arith, Bool-cases, Option-cases,
}
use mathlib.Core.List.{append-nil, append_assoc}
use luchta.Prelude.Maps.{Map, lookup, lookup_or, insert, keys, length-keys, lookup_or-insert}
use luchta.Petgraph.{Digraph, IsPetgraph, sources, targets}
use luchta.TaskGraph.{TaskNode}
use luchta.Walker.{NodeState, pending, WalkerState}
use luchta.Walker.Tally.{tally, unfinished, is_succeeded}
use luchta.Walker.Skips.{is_terminal}
use luchta.Walker.Invariant.{IsSound}
use luchta.Walker.Outcome.{IsFresh}
use luchta.Walker.Start.{
  push_dependents, tabulate, compute_downstream_weights, dependents_first, from_graph,
}

lookup-tabulate :
    {V : Type 0} (f : ℕ → V) (nodes : List (ℕ × TaskNode)) (n : ℕ)
    → (lookup n (tabulate f nodes) ≡ some (f n)) × In n (keys nodes)
      ⊎ (lookup n (tabulate f nodes) ≡ none) × (¬ In n (keys nodes))
unfolding lookup
lookup-tabulate f [] n = inr (refl, λ m. m)
lookup-tabulate f (p ∷ nodes) n = elim (Bool-cases (p.0 == n)) [
  | inl same ↦
      let q = (nat_beq_iff p.0 n).0 same in inl (rw same (ap (λ k. some (f k)) q), inl (sym q))
  | inr other ↦
      let apart : ¬ (n ≡ p.0) = λ q. ground (arith, nat_beq_iff p.0 n) in
      elim (lookup-tabulate f nodes n) [
        | inl (found, i) ↦ inl (rw other found, inr i)
        | inr (absent, i) ↦ inr (rw other absent, λ m. elim m [ inl q ↦ apart q | inr r ↦ i r ])
      ]
]

lookup-push_dependents :
    (es : List (ℕ × ℕ)) (m : Map ℕ (List ℕ)) (n : ℕ)
    → lookup_or [] n (push_dependents es m) ≡ lookup_or [] n m ++ sources n es
unfolding push_dependents
lookup-push_dependents [] m n = sym (append-nil _)
lookup-push_dependents ((a, b) ∷ es) m n =
    rw (lookup-push_dependents es (insert b (lookup_or [] b m ++ a ∷ []) m) n) (
      rw (lookup_or-insert [] b n (lookup_or [] b m ++ a ∷ []) m) (elim (Bool-cases (b == n)) [
        | inl same ↦ rw same (
            append_assoc (lookup_or [] b m) (a ∷ []) (sources n es)
            ∙ ap (λ k. lookup_or [] k m ++ (a ∷ sources n es)) ((nat_beq_iff b n).0 same))
        | inr other ↦ rw other
      ]))

nothing_yet :
    (nodes : List (ℕ × TaskNode)) (n : ℕ)
    → ◌≡◌ {A = List ℕ} (lookup_or [] n (tabulate (λ _. []) nodes)) []
nothing_yet nodes n = ground (arith, lookup-tabulate {V = List ℕ} (λ _. []) nodes n)

-- The dependents that a walker starts with are the sources of the edges.
pub start_dependents :
    (es : List (ℕ × ℕ)) (nodes : List (ℕ × TaskNode)) (n : ℕ)
    → lookup_or [] n (push_dependents es (tabulate (λ _. []) nodes)) ≡ sources n es
start_dependents es nodes n =
    lookup-push_dependents es (tabulate (λ _. []) nodes) n
    ∙ ap (λ l. l ++ sources n es) (nothing_yet nodes n)

-- Before the start no dependency has succeeded.
unfinished-start :
    (es : List (ℕ × ℕ)) (m : Map ℕ NodeState) (n : ℕ)
    → ((k : ℕ) → is_succeeded (lookup k m) ≡ false)
    → unfinished es m n ≡ length (targets n es)
unfolding unfinished
unfinished-start [] m n h = refl
unfinished-start ((a, b) ∷ es) m n h = ground (arith, h b, unfinished-start es m n h)

tally-start :
    (ns : List ℕ) (m : Map ℕ NodeState)
    → ((k : ℕ) → is_terminal (lookup k m) ≡ false)
    → tally is_terminal ns m ≡ 0
unfolding tally
tally-start [] m h = refl
tally-start (n ∷ ns) m h = ground (arith, h n, tally-start ns m h)

keys-tabulate :
    {V : Type 0} (f : ℕ → V) (nodes : List (ℕ × TaskNode)) → keys (tabulate f nodes) ≡ keys nodes
keys-tabulate f [] = refl
keys-tabulate f (p ∷ nodes) = ap (λ ks. p.0 ∷ ks) (keys-tabulate f nodes)

module _ (d : Digraph TaskNode) (laws : IsPetgraph d) (g : d.Graph)
    (unique : Distinct (keys (d.node_references g))) where
  abbrev es : List (ℕ × ℕ)
  es = d.edge_references g

  abbrev start_of : Map ℕ ℕ → WalkerState
  start_of weights = record {
    nodes = d.node_references g;
    dependencies_remaining =
        tabulate (λ n. length (d.neighbors_outgoing g n)) (d.node_references g);
    dependents = push_dependents es (tabulate (λ _. []) (d.node_references g));
    downstream_weights = weights;
    states = tabulate (λ _. pending) (d.node_references g);
    terminal_count = 0;
    total_count = length (d.node_references g);
  }

  waits_at :
      (weights : Map ℕ ℕ) (n : ℕ)
      → (lookup n (start_of weights).states ≡ none)
        ⊎ (lookup n (start_of weights).states ≡ some pending)
  waits_at weights n = ground (arith, lookup-tabulate (λ _. pending) (d.node_references g) n)

  start_of-IsSound :
      (weights : Map ℕ ℕ) → IsSound es (keys (d.node_references g)) (start_of weights)
  start_of-IsSound weights =
      let at = λ (n : ℕ). waits_at weights n in
      record {
        unique = unique;
        total = sym (length-keys (d.node_references g));
        wired = start_dependents es (d.node_references g);
        listed = λ n. ground (arith, lookup-tabulate (λ _. pending) (d.node_references g) n);
        counted = λ n h. ground (
          arith,
          lookup-tabulate (λ k. length (d.neighbors_outgoing g k)) (d.node_references g) n,
          lookup-tabulate (λ _. pending) (d.node_references g) n,
          laws.outgoing_count g n,
          unfinished-start es (start_of weights).states n (λ k. ground (arith, at k)),
        );
        active = λ a b e h. ground (arith, at a);
        clean = λ a b e h. ground (arith, at b);
        blamed = λ a h. absurd (ground (arith, at a));
        tallied = sym (tally-start _ _ (λ k. ground (arith, at k)));
      }

  -- What `from_graph` returns.
  from_graph-eq :
      (s : WalkerState) → from_graph d g ≡ some s → (weights : Map ℕ ℕ) × (s ≡ start_of weights)
  unfolding from_graph
  from_graph-eq s h = elim (Option-cases (dependents_first d g)) [
    | inl stuck ↦ absurd (ground arith)
    | inr (order, found) ↦
        elim (Option-cases
          (compute_downstream_weights (d.node_references g) (start_of []).dependents order)) [
            | inl stuck ↦ absurd (ground arith)
            | inr (weights, weighed) ↦ (weights, ground arith)
          ]
  ]

  pub from_graph-IsFresh :
      (s : WalkerState) → from_graph d g ≡ some s → IsFresh es (keys (d.node_references g)) s
  from_graph-IsFresh s h =
      let (weights, q) = from_graph-eq s h in
      rw q (record { sound = start_of-IsSound weights; named = refl; waiting = waits_at weights })

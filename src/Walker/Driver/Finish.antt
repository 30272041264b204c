-- ===== src/Walker/Driver/Finish.antt =====
-- The loop of `run` ends with all nodes terminal (crates/luchta-engine/src/walker.rs), in whatever
-- order the awaited tasks end, provided that the graph has no cycle and the receiver takes each
-- message.
use luchta.Prelude.{
  ℕ, zero, suc, ◌+◌, ◌≤◌, ◌<◌, ◌≡◌, refl, Bool, true, false, inl, inr, ◌⊎◌, not, filter, some, List,
  [], ◌∷◌, ◌++◌, In, ltb, ltb→lt, contains, In-contains, nat_eq, arith, if◌then◌else◌, Bool-cases,
  ◌&&◌, ◌==◌,
}
use luchta.Prelude.Maps.{lookup}
use luchta.Walker.{
  running, WalkerState, is_pending, is_ready, take_ready_nodes, set_running, settle, Drive, enqueue,
  enqueue_ready_nodes, resume, run_loop,
}
use luchta.Walker.Tally.{tally-le-length, unfinished, unfinished-pos, exists_of_tally-lt}
use luchta.Walker.Skips.{is_terminal}
use luchta.Walker.Invariant.{IsSound}
use luchta.Walker.Driver.Settle.{settle-counts}
use luchta.Walker.Driver.Dispatch.{IsDriven, resume-IsDriven}
use luchta.Walker.Driver.Progress.{IsComplete, IsFlushed, resume-IsComplete, resume-IsFlushed}

-- A rank that falls along each edge, and edges between nodes only.
pub record IsRanked (es : List (ℕ × ℕ)) (nodes : List ℕ) (rank : ℕ → ℕ) : Type 0 where
  pub falls : (a b : ℕ) → In (a, b) es → rank b < rank a
  pub within : (a b : ℕ) → In (a, b) es → In a nodes × In b nodes

-- The counts that the loop tests.
abbrev pub done_count : Drive → ℕ
done_count w = w.walker.terminal_count

abbrev pub all_count : Drive → ℕ
all_count w = w.walker.total_count

-- All nodes are terminal.
abbrev pub IsFinished : Drive → Type 0
IsFinished w = done_count w ≡ all_count w

pub enqueue-counts :
    (accepts : ℕ → Bool) (ready : List ℕ) (w : Drive)
    → (done_count (enqueue accepts ready w) ≡ done_count w)
      × (all_count (enqueue accepts ready w) ≡ all_count w)
unfolding enqueue set_running
enqueue-counts accepts [] w = (refl, refl)
enqueue-counts accepts (n ∷ ready) w = ground (
  arith,
  enqueue-counts accepts ready (record {
    walker = set_running w.walker n;
    join_set = w.join_set ++ n ∷ [];
    sent = w.sent ++ n ∷ [];
  }),
)

-- The results that come in when `next` picks, of the awaited tasks, the one that ends next.
unfoldable pub schedule :
    (accepts outcome : ℕ → Bool) (next : List ℕ → ℕ) → ℕ → Drive → List (ℕ × Bool)
schedule accepts outcome next zero w = []
schedule accepts outcome next (suc rounds) w =
    let n = next w.join_set in
    let rest = schedule accepts outcome next rounds (resume accepts w n (outcome n)) in
    if ltb (done_count w) (all_count w) then (n, outcome n) ∷ rest else []

module _ {es : List (ℕ × ℕ)} {nodes : List ℕ} {rank : ℕ → ℕ} (ranked : IsRanked es nodes rank)
    (s : WalkerState) (sound : IsSound es nodes s) (idle : (n : ℕ) → is_ready s n ≡ false) where
  -- A pending node that is not ready waits for a node that is pending or running.
  waits_for :
      (n : ℕ)
      → is_pending (lookup n s.states) ≡ true
      → (b : ℕ) × In (n, b) es
        × ((is_pending (lookup b s.states) ≡ true) ⊎ (lookup b s.states ≡ some running))
  unfolding is_ready
  waits_for n waits =
      let stuck : ¬ (unfinished es s.states n ≡ 0) =
        λ z. ground (arith, idle n, sound.counted n waits) in
      let (b, e, q) = unfinished-pos es s.states n stuck in
      (b, e, ground (arith, sound.clean n b e, (sound.listed b).1 (ranked.within n b e).1))

  -- Below a pending node with none ready, some node is running.
  running_below :
      (k n : ℕ)
      → rank n < k
      → is_pending (lookup n s.states) ≡ true
      → (m : ℕ) × (lookup m s.states ≡ some running)
  running_below zero n h waits = absurd (omega arith)
  running_below (suc k) n h waits =
      let (b, e, q) = waits_for n waits in
      elim q [
        | inl too ↦ running_below k b (omega (arith, ranked.falls n b e)) too
        | inr runs ↦ (b, runs)
      ]

  -- If not all nodes are terminal, some node is running.
  running_exists : s.terminal_count < s.total_count → (m : ℕ) × (lookup m s.states ≡ some running)
  running_exists h =
      let (n, i, q) =
        exists_of_tally-lt is_terminal nodes s.states (omega (arith, sound.tallied, sound.total)) in
      elim (Bool-cases (is_pending (lookup n s.states))) [
        | inl waits ↦ running_below (suc (rank n)) n (omega arith) waits
        | inr other ↦ (n, ground (arith, (sound.listed n).1 i))
      ]

module _ {es : List (ℕ × ℕ)} {nodes : List ℕ} {outcome : ℕ → Bool} where
  -- Each result makes a node terminal.
  resume-counts :
      (accepts : ℕ → Bool) (w : Drive) (n : ℕ)
      → In n w.join_set
      → IsDriven es nodes outcome w
      → (done_count w < done_count (resume accepts w n (outcome n)))
        × (all_count (resume accepts w n (outcome n)) ≡ all_count w)
  unfolding resume enqueue_ready_nodes
  resume-counts accepts w n i d =
      let counts = settle-counts w.walker n d.sound (d.awaited n i) (outcome n) in
      ground (
        arith,
        enqueue-counts accepts (take_ready_nodes (settle w.walker n (outcome n))) (record w {
          walker = settle w.walker n (outcome n);
          join_set = filter (λ m. not (m == n)) w.join_set;
        }),
      )

  module _ {rank : ℕ → ℕ} (ranked : IsRanked es nodes rank) (accepts : ℕ → Bool)
      (takes : (n : ℕ) → accepts n ≡ true) where
    done-le-all : (w : Drive) → IsDriven es nodes outcome w → done_count w ≤ all_count w
    done-le-all w d =
        omega
          (arith, d.sound.tallied, d.sound.total, tally-le-length is_terminal nodes w.walker.states)

    -- While a node is not terminal, some task is awaited.
    pub awaited_exists :
        (w : Drive)
        → IsDriven es nodes outcome w
        → IsComplete w
        → IsFlushed w
        → done_count w < all_count w
        → (n : ℕ) × In n w.join_set
    awaited_exists w d c f h =
        let (n, runs) = running_exists ranked w.walker d.sound f h in (n, c n runs)

    pub finishes :
        (next : List ℕ → ℕ)
        → ((js : List ℕ) (n : ℕ) → In n js → In (next js) js)
        → (rounds : ℕ) (w : Drive) → IsDriven es nodes outcome w
        → IsComplete w
        → IsFlushed w
        → all_count w ≤ done_count w + rounds
        → IsFinished (run_loop accepts (schedule accepts outcome next rounds w) w)
    unfolding schedule run_loop
    finishes next picks zero w d c f h = omega (arith, done-le-all w d)
    finishes next picks (suc rounds) w d c f h =
        elim (Bool-cases (ltb (done_count w) (all_count w))) [
          | inr over ↦ rw (over, schedule) (ground (arith, done-le-all w d))
          | inl more ↦
              let n = next w.join_set in
              let (some_n, j) = awaited_exists w d c f (ltb→lt _ _ more) in
              let i = picks w.join_set some_n j in
              let goes : (ltb (done_count w) (all_count w) && contains w.join_set n) ≡ true =
                ground (arith, In-contains n w.join_set i) in
              let counts = resume-counts accepts w n i d in
              rw (more, schedule, goes, run_loop)
                (finishes next picks rounds (resume accepts w n (outcome n))
                  (resume-IsDriven es nodes outcome accepts w n i d)
                  (resume-IsComplete accepts takes w n i d c)
                  (resume-IsFlushed accepts takes w n i d) (omega arith))
        ]

-- ===== src/Walker/Tally.antt =====
-- Counting nodes by their state, and the unfinished dependencies of a node
-- (crates/luchta-engine/src/walker.rs).
use luchta.Prelude.{
  ℕ, ◌+◌, ◌-◌, ◌≤◌, ◌<◌, ◌≡◌, refl, sym, ap, subst, Option-cases, Bool, true, false, not, ◌&&◌, inl,
  inr, Option, some, List, [], ◌∷◌, In, Distinct, length, ◌==◌, nat_eq, arith, if◌then◌else◌,
  nat_beq_iff, Bool-cases,
}
use luchta.Prelude.Maps.{Map, lookup, insert, lookup-insert}
use luchta.Petgraph.{sources, occurrences}
use luchta.Walker.{NodeState, succeeded, is_pending, decrement, release}

abbrev pub bit : Bool → ℕ
bit true = 1
bit false = 0

abbrev pub is_succeeded : Option NodeState → Bool
is_succeeded (some NodeState.succeeded) = true
is_succeeded _ = false

-- How many of the nodes have a state with the property.
unfoldable pub tally : (Option NodeState → Bool) → List ℕ → Map ℕ NodeState → ℕ
tally p [] m = 0
tally p (n ∷ ns) m = bit (p (lookup n m)) + tally p ns m

module _ (p : Option NodeState → Bool) (d : ℕ) (v : NodeState) (m : Map ℕ NodeState) where
  tally-insert_absent : (ns : List ℕ) → ¬ In d ns → tally p ns (insert d v m) ≡ tally p ns m
  unfolding tally
  tally-insert_absent [] h = refl
  tally-insert_absent (n ∷ ns) h =
      ground
        (arith, lookup-insert d n v m, nat_beq_iff d n, tally-insert_absent ns (λ r. h (inr r)))

  pub tally-insert :
      (ns : List ℕ)
      → Distinct ns
      → In d ns
      → tally p ns (insert d v m) + bit (p (lookup d m)) ≡ tally p ns m + bit (p (some v))
  unfolding tally
  tally-insert [] u h = absurd h
  tally-insert (n ∷ ns) u (inl q) = rw (← q) (
      rw (lookup-insert d d v m)
        (ground (arith, nat_beq_iff d d, tally-insert_absent ns (λ r. u.0 (rw q at r)))))
  tally-insert (n ∷ ns) u (inr r) = ground (
    arith,
    lookup-insert d n v m,
    nat_beq_iff d n,
    tally-insert ns u.1 r,
    λ (q : d ≡ n). u.0 (rw q at r),
  )

-- A node with the property is counted.
pub tally-pos :
    (p : Option NodeState → Bool) (d : ℕ) (m : Map ℕ NodeState) (ns : List ℕ)
    → In d ns
    → p (lookup d m) ≡ true
    → ¬ (tally p ns m ≡ 0)
unfolding tally
tally-pos p d m [] i holds = absurd i
tally-pos p d m (n ∷ ns) (inl q) holds =
    let now : p (lookup n m) ≡ true = rw q at holds in ground arith
tally-pos p d m (n ∷ ns) (inr r) holds = ground (arith, tally-pos p d m ns r holds)

pub tally-le-length :
    (p : Option NodeState → Bool) (ns : List ℕ) (m : Map ℕ NodeState) → tally p ns m ≤ length ns
unfolding tally
tally-le-length p [] m = omega arith
tally-le-length p (n ∷ ns) m = ground (arith, tally-le-length p ns m)

-- The edges out of `n` whose target has not succeeded.
unfoldable pub unfinished : List (ℕ × ℕ) → Map ℕ NodeState → ℕ → ℕ
unfinished [] m n = 0
unfinished ((a, b) ∷ es) m n =
    if a == n then bit (not (is_succeeded (lookup b m))) + unfinished es m n else unfinished es m n

-- A success takes one off for each edge to it.
pub unfinished-insert_succeeded :
    (es : List (ℕ × ℕ)) (t : ℕ) (m : Map ℕ NodeState) (n : ℕ)
    → is_succeeded (lookup t m) ≡ false
    → unfinished es (insert t succeeded m) n + occurrences n (sources t es) ≡ unfinished es m n
unfolding unfinished
unfinished-insert_succeeded [] t m n h = refl
unfinished-insert_succeeded ((a, b) ∷ es) t m n h = ground (
  arith,
  lookup-insert t b succeeded m,
  nat_beq_iff t b,
  nat_beq_iff b t,
  nat_beq_iff a n,
  nat_beq_iff n a,
  unfinished-insert_succeeded es t m n h,
)

pub unfinished-congr :
    (es : List (ℕ × ℕ)) (m m' : Map ℕ NodeState) (n : ℕ)
    → ((k : ℕ) → is_succeeded (lookup k m') ≡ is_succeeded (lookup k m))
    → unfinished es m' n ≡ unfinished es m n
unfolding unfinished
unfinished-congr [] m m' n h = refl
unfinished-congr ((a, b) ∷ es) m m' n h = ground (arith, h b, unfinished-congr es m m' n h)

pub succeeded_of_unfinished-eq-zero :
    (es : List (ℕ × ℕ)) (m : Map ℕ NodeState) (n b : ℕ)
    → unfinished es m n ≡ 0
    → In (n, b) es
    → is_succeeded (lookup b m) ≡ true
unfolding unfinished
succeeded_of_unfinished-eq-zero [] m n b h e = absurd e
succeeded_of_unfinished-eq-zero ((a, c) ∷ es) m n b h (inl q) = ground (arith, nat_beq_iff a n)
succeeded_of_unfinished-eq-zero ((a, c) ∷ es) m n b h (inr r) =
    ground (arith, succeeded_of_unfinished-eq-zero es m n b)

pub unfinished-eq-zero_of_succeeded :
    (es : List (ℕ × ℕ)) (m : Map ℕ NodeState) (n : ℕ)
    → ((b : ℕ) → In (n, b) es → is_succeeded (lookup b m) ≡ true)
    → unfinished es m n ≡ 0
unfolding unfinished
unfinished-eq-zero_of_succeeded [] m n h = refl
unfinished-eq-zero_of_succeeded ((a, c) ∷ es) m n h = ground (
  arith,
  nat_beq_iff a n,
  λ (q : a ≡ n). h c (inl (ap (λ (x : ℕ). (x, c)) (sym q))),
  unfinished-eq-zero_of_succeeded es m n (λ b r. h b (inr r)),
)

pub holds_of_tally-eq-length :
    (p : Option NodeState → Bool) (ns : List ℕ) (m : Map ℕ NodeState)
    → tally p ns m ≡ length ns
    → (n : ℕ) → In n ns
    → p (lookup n m) ≡ true
unfolding tally
holds_of_tally-eq-length p [] m h n i = absurd i
holds_of_tally-eq-length p (k ∷ ns) m h n (inl q) = rw q (ground (arith, tally-le-length p ns m))
holds_of_tally-eq-length p (k ∷ ns) m h n (inr i) =
    holds_of_tally-eq-length p ns m (ground (arith, tally-le-length p ns m)) n i

pub unfinished-pos :
    (es : List (ℕ × ℕ)) (m : Map ℕ NodeState) (n : ℕ)
    → ¬ (unfinished es m n ≡ 0)
    → (b : ℕ) × In (n, b) es × (is_succeeded (lookup b m) ≡ false)
unfolding unfinished
unfinished-pos [] m n h = absurd (h refl)
unfinished-pos ((a, c) ∷ es) m n h = elim (Bool-cases (a == n && not (is_succeeded (lookup c m)))) [
  | inl here ↦
      (c, inl (ap (λ (x : ℕ). (x, c)) (sym ((nat_beq_iff a n).0 (ground arith)))), ground arith)
  | inr later ↦ let (b, e, q) = unfinished-pos es m n (ground arith) in (b, inr e, q)
]

pub exists_of_tally-lt :
    (p : Option NodeState → Bool) (ns : List ℕ) (m : Map ℕ NodeState)
    → tally p ns m < length ns
    → (n : ℕ) × In n ns × (p (lookup n m) ≡ false)
unfolding tally
exists_of_tally-lt p [] m h = absurd (omega arith)
exists_of_tally-lt p (n ∷ ns) m h = elim (Bool-cases (p (lookup n m))) [
  | inl holds ↦ let (k, i, q) = exists_of_tally-lt p ns m (ground arith) in (k, inr i, q)
  | inr fails ↦ (n, inl refl, fails)
]

module _ (states : Map ℕ NodeState) (n : ℕ) (waits : is_pending (lookup n states) ≡ true) where
  lookup-decrement :
      (d : ℕ) (remaining : Map ℕ ℕ) (c : ℕ)
      → lookup n remaining ≡ some c
      → lookup n (decrement states d remaining) ≡ some (if n == d then c - 1 else c)
  unfolding decrement
  lookup-decrement d remaining c h = elim (Bool-cases (n == d)) [
    | inl same ↦
        subst (λ k. lookup n (decrement states k remaining) ≡ some (if n == k then c - 1 else c))
          ((nat_beq_iff n d).0 same)
          (ground (arith, lookup-insert n n (c - 1) remaining, nat_beq_iff n n))
    | inr other ↦ elim (Option-cases (lookup d remaining)) [
      | inl absent ↦ ground arith
      | inr (k, found) ↦
          ground (arith, lookup-insert d n (k - 1) remaining, nat_beq_iff d n, nat_beq_iff n d)
    ]
  ]

  -- `release` takes one off the count of a pending node for each time that it is listed.
  pub lookup-release :
      (ds : List ℕ) (remaining : Map ℕ ℕ) (c : ℕ)
      → lookup n remaining ≡ some c
      → lookup n (release states ds remaining) ≡ some (c - occurrences n ds)
  unfolding release
  lookup-release [] remaining c h = ground arith
  lookup-release (d ∷ ds) remaining c h = elim (Bool-cases (n == d)) [
    | inl same ↦
        let ih =
          lookup-release ds (decrement states d remaining) (c - 1)
            (rw same at (lookup-decrement d remaining c h)) in
        rw (ih, same) (ground arith)
    | inr other ↦
        let ih =
          lookup-release ds (decrement states d remaining) c
            (rw other at (lookup-decrement d remaining c h)) in
        rw (ih, other)
  ]

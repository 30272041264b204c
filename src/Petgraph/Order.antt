-- ===== src/Petgraph/Order.antt =====
-- A topological order as a rank that falls along each edge.
use luchta.Prelude.{
  ℕ, suc, ◌≤◌, ◌<◌, ◌≡◌, sym, subst, inl, inr, List, [], ◌∷◌, In, Distinct, length, ◌==◌, nat_eq,
  nat_beq_iff, arith, if◌then◌else◌,
}
use luchta.Petgraph.{Before}

-- How many entries stand from `n` on.
pub rank : ℕ → List ℕ → ℕ
rank n [] = 0
rank n (x ∷ xs) = if x == n then suc (length xs) else rank n xs

rank-le-length : (n : ℕ) (xs : List ℕ) → rank n xs ≤ length xs
unfolding rank
rank-le-length n [] = omega arith
rank-le-length n (x ∷ xs) = ground (arith, rank-le-length n xs)

pub Before-In : (a b : ℕ) (xs : List ℕ) → Before a b xs → In a xs × In b xs
Before-In a b [] h = absurd h
Before-In a b (x ∷ xs) (inl (q, m)) = (inl (sym q), inr m)
Before-In a b (x ∷ xs) (inr h) = let (i, j) = Before-In a b xs h in (inr i, inr j)

pub rank-lt_of_Before :
    (a b : ℕ) (xs : List ℕ) → Distinct xs → Before a b xs → rank b xs < rank a xs
unfolding rank
rank-lt_of_Before a b [] u h = absurd h
rank-lt_of_Before a b (x ∷ xs) u (inl (q, m)) =
    let other : ¬ (x ≡ b) = λ e. u.0 (subst (λ k. In k xs) (sym e) m) in
    ground (arith, nat_beq_iff x a, nat_beq_iff x b, rank-le-length b xs)
rank-lt_of_Before a b (x ∷ xs) u (inr h) =
    let (i, j) = Before-In a b xs h in
    let not_a : ¬ (x ≡ a) = λ e. u.0 (subst (λ k. In k xs) (sym e) i) in
    let not_b : ¬ (x ≡ b) = λ e. u.0 (subst (λ k. In k xs) (sym e) j) in
    ground (arith, nat_beq_iff x a, nat_beq_iff x b, rank-lt_of_Before a b xs u.1 h)

-- ===== src/PackageGraph/Search.antt =====
-- The work lists of `PackageGraph::transitive_neighbors` (crates/luchta-workspace/src/package_graph.rs)
-- and `transitive_upstream_packages` (crates/luchta-engine/src/task_graph.rs). Both mark what they put
-- on the list; one takes the newest entry, the other the oldest.
pub mod Chain
pub mod Offers
pub mod Reach
pub mod Work
use luchta.Prelude.{
  ℕ, zero, suc, Bool, Result, ok, err, ◌>>=◌, List, [], ◌∷◌, ◌++◌, PartialEq, ◌==◌, contains,
  if◌then◌else◌,
}

abbrev pub push_front : {A : Type 0} → List A → A → List A
push_front pending x = x ∷ pending

abbrev pub push_back : {A : Type 0} → List A → A → List A
push_back pending x = pending ++ x ∷ []

pub record Search (A : Type 0) : Type 0 where
  pub visited : List A
  pub pending : List A

module _ {A E : Type 0} ⦃e : PartialEq A⦄ (push : List A → A → List A)
    (next : A → Result (List A) E) where
  -- `if visited.insert(x) { pending.push(x) }`
  unfoldable pub offer : Search A → A → Search A
  offer s x =
      if contains s.visited x
      then s
      else record { visited = x ∷ s.visited; pending = push s.pending x }

  unfoldable pub offer_all : Search A → List A → Search A
  offer_all s [] = s
  offer_all s (x ∷ xs) = offer_all (offer s x) xs

  -- The loop, with fuel for the elements that are taken off the list; `Reach` shows what is enough.
  unfoldable pub explore : ℕ → Search A → Result (List A) E
  explore zero s = ok s.visited
  explore (suc less) s = elim s.pending [
    | [] ↦ ok s.visited
    | x ∷ rest ↦ do found ← next x; explore less (offer_all (record s { pending = rest }) found)
  ]

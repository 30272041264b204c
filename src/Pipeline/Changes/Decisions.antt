-- ===== src/Pipeline/Changes/Decisions.antt =====
-- When the answers of the workers are accepted (`resolve` of crates/luchta-engine/src/task_graph.rs).
use luchta.Prelude.{refl, inl, inr, ◌↔◌, Result, ok, err, List, [], ◌∷◌, String, In, subst, sym}
use luchta.Prelude.Sort.{In-sort_by}
use luchta.Types.{TaskId}
use luchta.Pipeline.{ResolvedPipeline, PrunedTask}
use luchta.Pipeline.Changes.{
  ResolveDecision, accept, modify, prune, reject, ResolveMode, run_mode, check_mode, ResolveError,
  apply_outcomes, resolve,
}

-- The worker answered, and in check mode it did not reject.
abbrev pub IsAcceptable : ResolveMode → TaskId × Result ResolveDecision String → Type 0
IsAcceptable mode (i, err message) = ⊥
IsAcceptable mode (i, ok accept) = Unit
IsAcceptable mode (i, ok (modify m)) = Unit
IsAcceptable mode (i, ok (prune reason)) = Unit
IsAcceptable check_mode (i, ok (reject message)) = ⊥
IsAcceptable run_mode (i, ok (reject message)) = Unit

abbrev pub Succeeds : Result (ResolvedPipeline × List PrunedTask) ResolveError → Type 0
Succeeds (ok r) = Unit
Succeeds (err e) = ⊥

abbrev AllAcceptable : ResolveMode → List (TaskId × Result ResolveDecision String) → Type 0
AllAcceptable mode os = (o : TaskId × Result ResolveDecision String) → In o os → IsAcceptable mode o

first :
    (mode : ResolveMode) (o : TaskId × Result ResolveDecision String)
    (os : List (TaskId × Result ResolveDecision String))
    → IsAcceptable mode o
    → AllAcceptable mode os
    → AllAcceptable mode (o ∷ os)
first mode o os h hs o' (inl q) = subst (λ x. IsAcceptable mode x) (sym q) h
first mode o os h hs o' (inr i) = hs o' i

Succeeds-AllAcceptable :
    (mode : ResolveMode) (os : List (TaskId × Result ResolveDecision String)) (p : ResolvedPipeline)
    (done : List PrunedTask)
    → Succeeds (apply_outcomes mode os p done)
    → AllAcceptable mode os
unfolding apply_outcomes
Succeeds-AllAcceptable mode [] p done h = λ o i. absurd i
Succeeds-AllAcceptable mode ((i, err message) ∷ os) p done h = absurd h
Succeeds-AllAcceptable mode ((i, ok accept) ∷ os) p done h =
    first mode _ os tt (Succeeds-AllAcceptable mode os p done h)
Succeeds-AllAcceptable mode ((i, ok (modify m)) ∷ os) p done h =
    first mode _ os tt (Succeeds-AllAcceptable mode os _ done h)
Succeeds-AllAcceptable mode ((i, ok (prune reason)) ∷ os) p done h =
    first mode _ os tt (Succeeds-AllAcceptable mode os p _ h)
Succeeds-AllAcceptable check_mode ((i, ok (reject message)) ∷ os) p done h = absurd h
Succeeds-AllAcceptable run_mode ((i, ok (reject message)) ∷ os) p done h =
    first run_mode _ os tt (Succeeds-AllAcceptable run_mode os p _ h)

AllAcceptable-Succeeds :
    (mode : ResolveMode) (os : List (TaskId × Result ResolveDecision String)) (p : ResolvedPipeline)
    (done : List PrunedTask)
    → AllAcceptable mode os
    → Succeeds (apply_outcomes mode os p done)
unfolding apply_outcomes
AllAcceptable-Succeeds mode [] p done h = tt
AllAcceptable-Succeeds mode ((i, err message) ∷ os) p done h = absurd (h _ (inl refl))
AllAcceptable-Succeeds mode ((i, ok accept) ∷ os) p done h =
    AllAcceptable-Succeeds mode os p done (λ o m. h o (inr m))
AllAcceptable-Succeeds mode ((i, ok (modify m)) ∷ os) p done h =
    AllAcceptable-Succeeds mode os _ done (λ o m. h o (inr m))
AllAcceptable-Succeeds mode ((i, ok (prune reason)) ∷ os) p done h =
    AllAcceptable-Succeeds mode os p _ (λ o m. h o (inr m))
AllAcceptable-Succeeds check_mode ((i, ok (reject message)) ∷ os) p done h = absurd (h _ (inl refl))
AllAcceptable-Succeeds run_mode ((i, ok (reject message)) ∷ os) p done h =
    AllAcceptable-Succeeds run_mode os p _ (λ o m. h o (inr m))

-- The resolution succeeds when, and only when, each worker answered and, in check mode, none
-- rejected.
pub resolve-Succeeds :
    (mode : ResolveMode) (outcomes : List (TaskId × Result ResolveDecision String))
    (p : ResolvedPipeline)
    → Succeeds (resolve mode outcomes p)
      ↔ ((o : TaskId × Result ResolveDecision String) → In o outcomes → IsAcceptable mode o)
unfolding resolve
resolve-Succeeds mode outcomes p = (
  λ h o i. Succeeds-AllAcceptable mode _ p [] h o ((In-sort_by _ o outcomes).1 i),
  λ h. AllAcceptable-Succeeds mode _ p [] (λ o i. h o ((In-sort_by _ o outcomes).0 i)),
)

-- ===== src/Pipeline/Changes/Prunes.antt =====
-- What prunes remove (`apply_prunes` of crates/luchta-engine/src/task_graph.rs).
use luchta.Prelude.{◌≡◌, refl, none, List, [], ◌∷◌, arith, ◌==◌, any, if◌then◌else◌}
use luchta.Prelude.Maps.{lookup, lookup-remove}
use luchta.Types.{TaskId, task_id_eq}
use luchta.Pipeline.{ResolvedPipeline, PrunedTask}
use luchta.Pipeline.Changes.{apply_prune, apply_prunes}

-- The pruned tasks are gone, and every other task is as it was.
pub apply_prunes_lem :
    (i : TaskId) (entries : List PrunedTask) (p : ResolvedPipeline)
    → lookup i (apply_prunes entries p).tasks_by_id
      ≡ (if any (λ (e : PrunedTask). e.id == i) entries then none else lookup i p.tasks_by_id)
unfolding apply_prunes apply_prune
apply_prunes_lem i [] p = refl
apply_prunes_lem i (entry ∷ entries) p = ground (
  arith,
  apply_prunes_lem i entries (apply_prune entry p),
  lookup-remove entry.id i p.tasks_by_id,
)

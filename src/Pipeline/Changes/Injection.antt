-- ===== src/Pipeline/Changes/Injection.antt =====
-- The dependencies that workers bring (`inject_worker_dependencies` of
-- crates/luchta-engine/src/task_graph.rs).
use mathlib.Core.Option.{some-injective}
use luchta.Prelude.{
  ◌≡◌, refl, sym, ap, subst, ◌∙◌, inl, inr, ◌↔◌, some, List, [], ◌∷◌, ◌++◌, String, string_eq, ◌==◌,
  eq_of_beq, differs_of_beq, arith, map, contains, contains-In, In-contains, In, In-append,
  append_assoc, append_nil, Distinct, Bool-cases,
}
use luchta.Prelude.Maps.{Map, lookup}
use luchta.Types.{TaskId, task_id_eq, DependsOn, depends_on_eq, TaskDefinition, WorkerDefinition}
use luchta.Pipeline.{ResolvedPipeline}
use luchta.Pipeline.Changes.{
  worker_of, inject_from, inject_into, inject_definition, inject_worker_dependencies,
}

-- What is added: what the worker has and the task has not, each once.
abbrev pub Added : (own worker added : List DependsOn) → Type 0
Added own worker added =
    Distinct added × ((d : DependsOn) → In d added ↔ (In d worker × (¬ In d own)))

Added-old :
    (own worker added : List DependsOn) (dep : DependsOn)
    → In dep own
    → Added own worker added
    → Added own (dep ∷ worker) added
Added-old own worker added dep i (once, exact) = (
  once,
  λ d. (
    λ j. (inr ((exact d).0 j).0, ((exact d).0 j).1),
    λ (j, n). elim j [
      | inl q ↦ absurd (n (subst (λ x. In x own) (sym q) i))
      | inr k ↦ (exact d).1 (k, n)
    ],
  ),
)

Added-new :
    (own worker added : List DependsOn) (dep : DependsOn)
    → (¬ In dep own)
    → Added (own ++ dep ∷ []) worker added
    → Added own (dep ∷ worker) (dep ∷ added)
Added-new own worker added dep n (once, exact) = (
  (λ i. ((exact dep).0 i).1 ((In-append dep own (dep ∷ [])).1 (inr (inl refl))), once),
  λ d. (
    λ j. elim j [
      | inl q ↦ (inl q, λ i. n (subst (λ x. In x own) q i))
      | inr k ↦
          let (w, m) = (exact d).0 k in (inr w, λ i. m ((In-append d own (dep ∷ [])).1 (inl i)))
    ],
    λ (j, m). elim (Bool-cases (d == dep)) [
      | inl same ↦ inl (eq_of_beq d dep same)
      | inr other ↦
          let differs = differs_of_beq d dep other in
          inr (
            (exact d).1 (
              elim j [ inl q ↦ absurd (differs q) | inr w ↦ w ],
              λ i. elim ((In-append d own (dep ∷ [])).0 i) [
                | inl old ↦ m old
                | inr (inl q) ↦ differs q
                | inr (inr e) ↦ e
              ],
            ))
    ],
  ),
)

inject_into-Added :
    (own worker : List DependsOn)
    → (added : List DependsOn) × (inject_into own worker ≡ own ++ added) × Added own worker added
unfolding inject_into
inject_into-Added own [] = ([], sym (append_nil own), (tt, λ d. (λ i. absurd i, λ t. absurd t.0)))
inject_into-Added own (dep ∷ deps) = elim (Bool-cases (contains own dep)) [
  | inl old ↦
      let (added, q, a) = inject_into-Added own deps in
      rw old (added, q, Added-old own deps added dep (contains-In dep own old) a)
  | inr new ↦
      let (added, q, a) = inject_into-Added (own ++ dep ∷ []) deps in
      let n : ¬ In dep own = λ i. absurd (ground (arith, In-contains dep own i)) in
      rw new (dep ∷ added, q ∙ append_assoc own dep added, Added-new own deps added dep n a)
]

lookup-map :
    (f : TaskDefinition → TaskDefinition) (i : TaskId) (m : Map TaskId TaskDefinition)
    (t : TaskDefinition)
    → lookup i m ≡ some t
    → lookup i (map (λ (e : TaskId × TaskDefinition). (e.0, f e.1)) m) ≡ some (f t)
unfolding lookup
lookup-map f i [] t h = cc
lookup-map f i ((j, u) ∷ m) t h = elim (Bool-cases (j == i)) [
  | inl now ↦ rw now (ap (λ x. some (f x)) (some-injective u t (rw now at h)))
  | inr later ↦ rw later (lookup-map f i m t (rw later at h))
]

-- A task with a defined worker keeps its dependencies, in order, followed by exactly those of the
-- worker that it does not have, each once; nothing else of it changes.
pub inject_worker_dependencies_lem :
    (workers : Map String WorkerDefinition) (p : ResolvedPipeline) (i : TaskId) (t : TaskDefinition)
    (name : String) (w : WorkerDefinition)
    → lookup i p.tasks_by_id ≡ some t
    → t.worker ≡ some name
    → lookup name workers ≡ some w
    → (added : List DependsOn) × Added t.depends_on w.depends_on added
      × (lookup i (inject_worker_dependencies workers p).tasks_by_id
          ≡ some (record t { depends_on = t.depends_on ++ added }))
unfolding inject_worker_dependencies inject_definition
inject_worker_dependencies_lem workers p i t name w found named known =
    let (added, q, a) = inject_into-Added t.depends_on w.depends_on in
    (
      added,
      a,
      lookup-map (inject_definition workers) i p.tasks_by_id t found
          ∙ ap some (with_worker ∙ ap (λ deps. record t { depends_on = deps }) q),
    )
  where
    with_worker :
        inject_definition workers t
        ≡ record t { depends_on = inject_into t.depends_on w.depends_on }
    with_worker = ap (λ o. inject_from o t) (ap (worker_of workers) named ∙ known)

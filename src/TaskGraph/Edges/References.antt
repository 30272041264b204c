-- ===== src/TaskGraph/Edges/References.antt =====
-- What the references of a task mean
-- (crates/luchta-engine/src/task_graph.rs).
use luchta.Prelude.{
  ◌≡◌, ◌≢◌, refl, sym, subst, ap, ◌∙◌, inl, inr, ◌↔◌, Option-cases, none_not_some, ok, List,
  string_eq, ◌==◌, eq_of_beq, beq_of_eq, nat_eq, In, In-filter, Distinct,
}
use luchta.Prelude.Maps.{lookup, keys, In-keys_of_lookup, lookup_of_In-keys}
use luchta.Petgraph.{Digraph, IsPetgraph}
use luchta.Types.{
  PackageName, TaskName, TaskId, task_id, task_id_eq, root_package_name, TaskDefinition, DependsOn,
  same_package, specific, direct_upstream, transitive_upstream, root,
}
use luchta.PackageGraph.{PackageNode, PackageGraph}
use luchta.PackageGraph.Names.{package_names}
use luchta.PackageGraph.Edges.{Read, IsBuilt}
use luchta.PackageGraph.Depends.{Depends}
use luchta.Pipeline.{ResolvedPipeline}
use luchta.TaskGraph.{TaskNode, TaskGraph}
use luchta.TaskGraph.Upstream.{upstream_source_package, is_direct_upstream, is_transitive_upstream}
use luchta.TaskGraph.Upstream.Meaning.{
  Upstream, is_direct_upstream-Depends, is_transitive_upstream-Upstream,
}
use luchta.TaskGraph.Edges.{
  task_definition, task_definition_candidates, if_defined, expand_dependency,
}

-- What a reference of a task asks for; `home` is the package whose dependencies count as upstream.
abbrev pub RefersTo :
    Read → List PackageNode → (home : PackageName) (source : TaskId) → DependsOn → TaskId → Type 0
RefersTo read packages home source (same_package name) t = t ≡ task_id source.pkg name
RefersTo read packages home source (specific i) t = t ≡ i
RefersTo read packages home source (direct_upstream name) t =
    (t.task ≡ name) × (t.pkg ≢ root_package_name) × Depends read packages home t.pkg
RefersTo read packages home source (transitive_upstream name) t =
    (t.task ≡ name) × (t.pkg ≢ root_package_name) × Upstream read packages home t.pkg
RefersTo read packages home source (root name) t = (t.task ≡ name) × (t.pkg ≡ root_package_name)

module _ (w : Digraph PackageNode) (read : Read) (packages : List PackageNode) (pg : PackageGraph w)
    (p : ResolvedPipeline) where
  -- What `source` asks for by one of its references, and the pipeline has.
  abbrev pub Asks : TaskId → DependsOn → TaskId → Type 0
  Asks source dependency t =
      RefersTo read packages (upstream_source_package w pg source) source dependency t
      × In t (keys p.tasks_by_id)

  -- One of the references asks for it.
  abbrev pub AsksOne : TaskDefinition → TaskId → TaskId → Type 0
  AsksOne definition s t =
      (dependency : DependsOn) × In dependency definition.depends_on × Asks s dependency t

  -- The task `s` of the pipeline has a reference that asks for `t`.
  abbrev pub Requires : TaskId → TaskId → Type 0
  Requires s t =
      (definition : TaskDefinition) × In (s, definition) p.tasks_by_id × AsksOne definition s t

module _ (w : Digraph PackageNode) (package_laws : IsPetgraph w) (read : Read)
    (packages : List PackageNode) (pg : PackageGraph w)
    (b : IsBuilt w package_laws read packages pg) (distinct : Distinct (package_names packages))
    (d : Digraph TaskNode) (laws : IsPetgraph d) (p : ResolvedPipeline) where
  In-if_defined :
      (g : TaskGraph d)
      → g.definitions_by_id ≡ p.tasks_by_id
      → (i t : TaskId) → In t (if_defined d g i) ↔ ((t ≡ i) × In t (keys p.tasks_by_id))
  unfolding if_defined task_definition
  In-if_defined g same i t = elim (Option-cases (lookup i g.definitions_by_id)) [
    | inl missing ↦
        rw (missing, if_defined, task_definition)
          (
            λ k. absurd k,
            λ (q, k).
                let (definition, found) =
                  lookup_of_In-keys i p.tasks_by_id (subst (λ z. In z (keys p.tasks_by_id)) q k) in
                absurd (none_not_some (sym missing ∙ (ap (lookup i) same ∙ found))),
          )
    | inr (definition, found) ↦
        rw (found, if_defined, task_definition)
          (
            λ k. elim k [
              | inr n ↦ absurd n
              | inl q ↦ (
                q,
                subst (λ z. In z (keys p.tasks_by_id)) (sym q)
                    (In-keys_of_lookup i p.tasks_by_id (sym (ap (lookup i) same) ∙ found)),
              )
            ],
            λ (q, k). inl q,
          )
  ]

  In-candidates :
      (name : TaskName) (t : TaskId)
      → In t (task_definition_candidates p name) ↔ ((t.task ≡ name) × In t (keys p.tasks_by_id))
  unfolding task_definition_candidates
  In-candidates name t =
      let kept = In-filter (λ (i : TaskId). i.task == name) t (keys p.tasks_by_id) in
      (
        λ k. let (i, h) = kept.0 k in (eq_of_beq t.task name h, i),
        λ (q, i). kept.1 (i, beq_of_eq t.task name q),
      )

  -- Every reference is expanded, to what it asks for.
  pub expand_dependency-Asks :
      (g : TaskGraph d)
      → g.definitions_by_id ≡ p.tasks_by_id
      → (source : TaskId) (dependency : DependsOn)
      → (found : List TaskId) × (expand_dependency d w pg g p root_package_name source dependency
          ≡ ok found)
        × ((t : TaskId) → In t found ↔ Asks w read packages pg p source dependency t)
  unfolding expand_dependency
  expand_dependency-Asks g same source (same_package name) = (
    if_defined d g (task_id source.pkg name),
    refl,
    In-if_defined g same (task_id source.pkg name),
  )
  expand_dependency-Asks g same source (specific i) =
      (if_defined d g i, refl, In-if_defined g same i)
  expand_dependency-Asks g same source (direct_upstream name) = (
    _,
    refl,
    λ t.
        let kept =
          In-filter (is_direct_upstream w pg root_package_name source) t
            (task_definition_candidates p name) in
        let candidate = In-candidates name t in
        let test =
          is_direct_upstream-Depends w package_laws read packages pg b distinct root_package_name
            source t in
        (
          λ k.
              let (i, h) = kept.0 k in
              let (q, j) = candidate.0 i in let (n, r) = test.0 h in ((q, n, r), j),
          λ ((q, n, r), j). kept.1 (candidate.1 (q, j), test.1 (n, r)),
        ),
  )
  expand_dependency-Asks g same source (transitive_upstream name) = (
    _,
    refl,
    λ t.
        let kept =
          In-filter (is_transitive_upstream w pg root_package_name source) t
            (task_definition_candidates p name) in
        let candidate = In-candidates name t in
        let test =
          is_transitive_upstream-Upstream w package_laws read packages pg b distinct
            root_package_name source t in
        (
          λ k.
              let (i, h) = kept.0 k in
              let (q, j) = candidate.0 i in let (n, r) = test.0 h in ((q, n, r), j),
          λ ((q, n, r), j). kept.1 (candidate.1 (q, j), test.1 (n, r)),
        ),
  )
  expand_dependency-Asks g same source (root name) = (
    _,
    refl,
    λ t.
        let kept =
          In-filter (λ (i : TaskId). i.pkg == root_package_name) t
            (task_definition_candidates p name) in
        let candidate = In-candidates name t in
        (
          λ k.
              let (i, h) = kept.0 k in
              let (q, j) = candidate.0 i in ((q, eq_of_beq t.pkg root_package_name h), j),
          λ ((q, r), j). kept.1 (candidate.1 (q, j), beq_of_eq t.pkg root_package_name r),
        ),
  )

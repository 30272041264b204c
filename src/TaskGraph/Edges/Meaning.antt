-- ===== src/TaskGraph/Edges/Meaning.antt =====
-- What the references of the tasks mean for the edges of the task graph
-- (crates/luchta-engine/src/task_graph.rs).
use luchta.Prelude.{
  ◌≡◌, refl, sym, subst, ap, ◌∙◌, inl, inr, ◌⊎◌, ◌↔◌, ok, bind-ok, ok-injective, List, [], ◌∷◌,
  string_eq, nat_eq, In, In-map, Distinct,
}
use luchta.Prelude.Maps.{Map, keys}
use luchta.Petgraph.{Digraph, IsPetgraph}
use luchta.Petgraph.Indexed.{empty-IsTable}
use luchta.Types.{TaskId, task_id_eq, root_package_name, TaskDefinition, DependsOn}
use luchta.PackageGraph.{PackageNode, PackageGraph}
use luchta.PackageGraph.Names.{package_names}
use luchta.PackageGraph.Edges.{Read, IsBuilt}
use luchta.Pipeline.{ResolvedPipeline}
use luchta.TaskGraph.{TaskNode, TaskGraph, topological_order}
use luchta.TaskGraph.Edges.{
  add_edges_if_present, expand_dependency, add_references, add_dependencies, from_resolved_pipeline,
  validate_acyclic,
}
use luchta.TaskGraph.Edges.Tasks.{
  id_of, add_tasks-IsTable, IsTasks, Linked, add_edges_if_present-Linked,
}
use luchta.TaskGraph.Edges.References.{Asks, AsksOne, Requires, expand_dependency-Asks}

module _ (w : Digraph PackageNode) (package_laws : IsPetgraph w) (read : Read)
    (packages : List PackageNode) (pg : PackageGraph w)
    (b : IsBuilt w package_laws read packages pg) (distinct : Distinct (package_names packages))
    (d : Digraph TaskNode) (laws : IsPetgraph d) (p : ResolvedPipeline) where
  pub add_references-Linked :
      (dependencies : List DependsOn) (g g' : TaskGraph d) (source : TaskId)
      → IsTasks d laws p.tasks_by_id g
      → add_references d w pg g p source dependencies ≡ ok g'
      → IsTasks d laws p.tasks_by_id g'
        × ((s t : TaskId)
            → Linked d laws g' s t ↔ (
                Linked d laws g s t
                ⊎ ((s ≡ source)
                    × In source (keys p.tasks_by_id)
                    × ((dependency : DependsOn) × In dependency dependencies
                        × Asks w read packages pg p source dependency t))))
  unfolding add_references
  add_references-Linked [] g g' source v h =
      let q = ok-injective g g' h in
      (
        subst (IsTasks d laws p.tasks_by_id) q v,
        λ s t. (
          λ l. inl (subst (λ z. Linked d laws z s t) (sym q) l),
          λ l. elim l [
            | inl old ↦ subst (λ z. Linked d laws z s t) q old
            | inr (e, i, (dependency, n, r)) ↦ absurd n
          ],
        ),
      )
  add_references-Linked (dependency ∷ more) g g' source v h =
      let (found, q, exact) =
        expand_dependency-Asks w package_laws read packages pg b distinct d laws p g v.defined
          source dependency in
      let (found', r, h') =
        bind-ok (expand_dependency d w pg g p root_package_name source dependency) _ g' h in
      let same : found' ≡ found = ok-injective {_, 0} found' found (sym r ∙ q) in
      let (v', first) = add_edges_if_present-Linked d laws p.tasks_by_id found' g source v in
      let (v'', rest) =
        add_references-Linked more (add_edges_if_present d g source found') g' source v' h' in
      (
        v'',
        λ s t. (
          λ l. elim ((rest s t).0 l) [
            | inr (e, i, (dependency', j, a)) ↦ inr (e, i, (dependency', inr j, a))
            | inl l' ↦ elim ((first s t).0 l') [
              | inl old ↦ inl old
              | inr (e, j, i, k) ↦
                  inr (e, i, (dependency, inl refl, (exact t).0 (subst (In t) same j)))
            ]
          ],
          λ l. (rest s t).1 (elim l [
            | inl old ↦ inl ((first s t).1 (inl old))
            | inr (e, i, (dependency', inr j, a)) ↦ inr (e, i, (dependency', j, a))
            | inr (e, i, (dependency', inl z, a)) ↦
                let a' = subst (λ y. Asks w read packages pg p source y t) z a in
                inl ((first s t).1 (inr (e, subst (In t) (sym same) ((exact t).1 a'), i, a'.1)))
          ]),
        ),
      )

  -- What a task of the list asks for.
  abbrev AskedBy : Map TaskId TaskDefinition → TaskId → TaskId → Type 0
  AskedBy tasks s t =
      (definition : TaskDefinition) × In (s, definition) tasks
      × In s (keys p.tasks_by_id)
      × AsksOne w read packages pg p definition s t

  pub add_dependencies-Linked :
      (tasks : Map TaskId TaskDefinition) (g g' : TaskGraph d)
      → IsTasks d laws p.tasks_by_id g
      → add_dependencies d w pg g p tasks ≡ ok g'
      → IsTasks d laws p.tasks_by_id g'
        × ((s t : TaskId) → Linked d laws g' s t ↔ (Linked d laws g s t ⊎ AskedBy tasks s t))
  unfolding add_dependencies
  add_dependencies-Linked [] g g' v h =
      let q = ok-injective g g' h in
      (
        subst (IsTasks d laws p.tasks_by_id) q v,
        λ s t. (
          λ l. inl (subst (λ z. Linked d laws z s t) (sym q) l),
          λ l. elim l [
            | inl old ↦ subst (λ z. Linked d laws z s t) q old
            | inr (definition, n, i, r) ↦ absurd n
          ],
        ),
      )
  add_dependencies-Linked ((source, definition) ∷ tasks) g g' v h =
      let (next, q, h') = bind-ok (add_references d w pg g p source definition.depends_on) _ g' h in
      let (v', first) = add_references-Linked definition.depends_on g next source v q in
      let (v'', rest) = add_dependencies-Linked tasks next g' v' h' in
      (
        v'',
        λ s t. (
          λ l. elim ((rest s t).0 l) [
            | inr (definition', m, i, a) ↦ inr (definition', inr m, i, a)
            | inl l' ↦ elim ((first s t).0 l') [
              | inl old ↦ inl old
              | inr (e, i, a) ↦ inr (
                definition,
                inl (ap (λ z. (z, definition)) e),
                subst (λ z. In z (keys p.tasks_by_id)) (sym e) i,
                subst (λ z. AsksOne w read packages pg p definition z t) (sym e) a,
              )
            ]
          ],
          λ l. (rest s t).1 (elim l [
            | inl old ↦ inl ((first s t).1 (inl old))
            | inr (definition', inr m, i, a) ↦ inr (definition', m, i, a)
            | inr (definition', inl e, i, a) ↦
                let (source_listed, asked) =
                  subst
                    (λ (y : TaskId × TaskDefinition).
                      In (y.0) (keys p.tasks_by_id) × AsksOne w read packages pg p (y.1) (y.0) t)
                    e (i, a) in
                inl (
                  (first s t).1
                    (inr (ap (λ (y : TaskId × TaskDefinition). y.0) e, source_listed, asked)))
          ]),
        ),
      )

  pub from_resolved_pipeline-Linked :
      (g : TaskGraph d)
      → Distinct (keys p.tasks_by_id)
      → from_resolved_pipeline d w pg p ≡ ok g
      → IsTasks d laws p.tasks_by_id g
        × ((s t : TaskId) → Linked d laws g s t ↔ Requires w read packages pg p s t)
        × ((order : List TaskNode) × (topological_order d g.graph ≡ ok order))
  unfolding from_resolved_pipeline validate_acyclic
  from_resolved_pipeline-Linked g unique h =
      let (table, exact) =
        add_tasks-IsTable d laws p.tasks_by_id d.empty [] (empty-IsTable id_of d laws) unique
          (λ i k l. l) in
      let (with_edges, q, h') = bind-ok (add_dependencies d w pg _ p p.tasks_by_id) _ g h in
      let (done, r, h'') = bind-ok (validate_acyclic d with_edges) _ g h' in
      let (order, sorted, e) = bind-ok (topological_order d with_edges.graph) _ done r in
      let same = ok-injective with_edges g h'' in
      let (tasks, linked) =
        add_dependencies-Linked p.tasks_by_id _ with_edges
          (record {
            indexed = table.0;
            defined = refl;
            known = λ i. (
              λ k. elim ((exact i).0 k) [ inl n ↦ absurd n | inr l ↦ l ],
              λ k. (exact i).1 (inr k),
            );
          })
          q in
      (
        subst (IsTasks d laws p.tasks_by_id) same tasks,
        λ s t. (
          λ l. elim ((linked s t).0 (subst (λ z. Linked d laws z s t) (sym same) l)) [
            | inl (a, b, i, j, m) ↦ absurd (subst (In (a, b)) table.1 m)
            | inr (definition, i, k, asked) ↦ (definition, i, asked)
          ],
          λ (definition, i, asked).
              subst (λ z. Linked d laws z s t) same
                ((linked s t).1 (
                  inr (
                    definition,
                    i,
                    In-map (λ (y : TaskId × TaskDefinition). y.0) (s, definition) p.tasks_by_id i,
                    asked,
                  ))),
        ),
        (order, subst (λ z. topological_order d z.graph ≡ ok order) same sorted),
      )

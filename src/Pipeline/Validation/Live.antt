-- ===== src/Pipeline/Validation/Live.antt =====
-- Which references of `dependsOn` lead to a task, stated on the tables of the pipeline
-- (`DependencyContext` of crates/luchta-engine/src/task_graph.rs).
use luchta.Prelude.{
  ◌≡◌, refl, sym, inl, inr, ◌⊎◌, ◌↔◌, Bool, true, false, not, ◌&&◌, ◌||◌, none, some, none_not_some,
  some-injective, Option-cases, List, In, In-any, any-In, contains, In-contains, contains-In,
  string_eq, ◌==◌, eq_of_beq, beq_of_eq, subst, arith, Bool-cases,
}
use luchta.Prelude.Maps.{lookup, values}
use luchta.Types.{
  PackageName, TaskName, TaskId, task_id, task_id_eq, task_is_root, DependsOn, same_package,
  specific, direct_upstream, transitive_upstream, root,
}
use luchta.Pipeline.Validation.{
  DeadDependencyReason, unknown_task_everywhere, DependencyContext, contains_package_task,
  contains_root_task, task_exists_in_any_package, pruned_has_package_task, pruned_has_root_task,
  dead_unless, same_package_reason, specific_reason, upstream_reason, root_reason,
  dead_dependency_reason,
}

abbrev pub IsRoot : TaskId → Type 0
IsRoot i = i.pkg ≡ "//root"

module _ (c : DependencyContext) where
  -- The package declares the task.
  abbrev pub PackageHas : PackageName → TaskName → Type 0
  PackageHas name task =
      (tasks : List TaskName) × (lookup name c.resolved_pipeline.task_names_by_package ≡ some tasks)
      × In task tasks

  -- A package declares the task, or declared it until it was pruned.
  abbrev pub SomePackageHas : TaskName → Type 0
  SomePackageHas task =
      ((tasks : List TaskName) × In tasks (values c.resolved_pipeline.task_names_by_package)
        × In task tasks)
      ⊎ ((i : TaskId) × In i c.pruned × (i.task ≡ task) × (¬ IsRoot i))

  -- The task is a root task, or was one until it was pruned.
  abbrev pub RootHas : TaskName → Type 0
  RootHas task =
      In task c.resolved_pipeline.root_task_names
      ⊎ ((i : TaskId) × In i c.pruned × (i.task ≡ task) × IsRoot i)

  -- The reference of the task `source` leads to something.
  abbrev pub IsLive : TaskId → DependsOn → Type 0
  IsLive source (same_package task) =
      (IsRoot source × RootHas task) ⊎ ((¬ IsRoot source) × SomePackageHas task)
  IsLive source (specific i) = In i.pkg c.package_names × (PackageHas i.pkg i.task ⊎ In i c.pruned)
  IsLive source (direct_upstream task) = SomePackageHas task
  IsLive source (transitive_upstream task) = SomePackageHas task
  IsLive source (root task) = RootHas task

  dead_unless-none :
      (exists gone : Bool) (reason : DeadDependencyReason)
      → (dead_unless exists gone reason ≡ none) ↔ ((exists ≡ true) ⊎ (gone ≡ true))
  dead_unless-none true gone reason = (λ _. inl refl, λ _. refl)
  dead_unless-none false true reason = (λ _. inr refl, λ _. refl)
  dead_unless-none false false reason = (λ h. cc, λ h. elim h [ inl q ↦ cc | inr q ↦ cc ])

  IsRoot-iff : (i : TaskId) → (task_is_root i ≡ true) ↔ IsRoot i
  IsRoot-iff i = (eq_of_beq i.pkg "//root", beq_of_eq i.pkg "//root")

  not-IsRoot_iff : (i : TaskId) → (task_is_root i ≡ false) ↔ (¬ IsRoot i)
  not-IsRoot_iff i = elim (Bool-cases (task_is_root i)) [
    | inl yes_root ↦ (λ h. cc, λ n. absurd (n ((IsRoot-iff i).0 yes_root)))
    | inr no_root ↦ (λ _ q. let h = (IsRoot-iff i).1 q in cc, λ _. no_root)
  ]

  both : (a b : Bool) → ((a && b) ≡ true) ↔ ((a ≡ true) × (b ≡ true))
  both a b = ground arith

  not_iff : (a : Bool) → (not a ≡ true) ↔ (a ≡ false)
  not_iff a = ground arith

  either : (a b : Bool) → ((a || b) ≡ true) ↔ ((a ≡ true) ⊎ (b ≡ true))
  either a b = ground arith

  contains_package_task-PackageHas :
      (name : PackageName) (task : TaskName)
      → (contains_package_task c.resolved_pipeline name task ≡ true) ↔ PackageHas name task
  unfolding contains_package_task
  contains_package_task-PackageHas name task =
      elim (Option-cases (lookup name c.resolved_pipeline.task_names_by_package)) [
        | inl missing ↦
            rw (contains_package_task, missing) (λ h. cc, λ (tasks, q, i). absurd (none_not_some q))
        | inr (tasks, found) ↦
            rw (contains_package_task, found)
              (
                λ h. (tasks, refl, contains-In task tasks h),
                λ (others, q, i).
                    In-contains task tasks
                      (subst (λ l. In task l) (sym (some-injective tasks others q)) i),
              )
      ]

  pruned_package_iff :
      (task : TaskName)
      → (pruned_has_package_task c task ≡ true)
        ↔ ((i : TaskId) × In i c.pruned × (i.task ≡ task) × (¬ IsRoot i))
  pruned_package_iff task = (
    λ h.
        let (i, j, q) = any-In _ c.pruned h in
        let (s, n) = (both (i.task == task) (not (task_is_root i))).0 q in
        (i, j, eq_of_beq i.task task s, (not-IsRoot_iff i).0 ((not_iff (task_is_root i)).0 n)),
    λ (i, j, s, n). In-any _ i c.pruned j (
        (both (i.task == task) (not (task_is_root i))).1
          (beq_of_eq i.task task s, (not_iff (task_is_root i)).1 ((not-IsRoot_iff i).1 n))),
  )

  pruned-IsRoot_iff :
      (task : TaskName)
      → (pruned_has_root_task c task ≡ true)
        ↔ ((i : TaskId) × In i c.pruned × (i.task ≡ task) × IsRoot i)
  pruned-IsRoot_iff task = (
    λ h.
        let (i, j, q) = any-In _ c.pruned h in
        let (s, r) = (both (i.task == task) (task_is_root i)).0 q in
        (i, j, eq_of_beq i.task task s, (IsRoot-iff i).0 r),
    λ (i, j, s, r).
        In-any _ i c.pruned j (
          (both (i.task == task) (task_is_root i)).1 (beq_of_eq i.task task s, (IsRoot-iff i).1 r)),
  )

  anywhere_iff :
      (task : TaskName)
      → (task_exists_in_any_package c.resolved_pipeline task ≡ true) ↔ (
          (tasks : List TaskName) × In tasks (values c.resolved_pipeline.task_names_by_package)
          × In task tasks)
  unfolding task_exists_in_any_package
  anywhere_iff task = (
    λ h.
        let (tasks, i, q) = any-In _ (values c.resolved_pipeline.task_names_by_package) h in
        (tasks, i, contains-In task tasks q),
    λ (tasks, i, j).
        In-any _ tasks (values c.resolved_pipeline.task_names_by_package) i
          (In-contains task tasks j),
  )

  upstream_reason-none : (task : TaskName) → (upstream_reason c task ≡ none) ↔ SomePackageHas task
  unfolding upstream_reason
  upstream_reason-none task =
      let test =
        dead_unless-none (task_exists_in_any_package c.resolved_pipeline task)
          (pruned_has_package_task c task) (unknown_task_everywhere task) in
      (
        λ h. elim (test.0 h) [
          | inl e ↦ inl ((anywhere_iff task).0 e)
          | inr p ↦ inr ((pruned_package_iff task).0 p)
        ],
        λ h. elim h [
          | inl e ↦ test.1 (inl ((anywhere_iff task).1 e))
          | inr p ↦ test.1 (inr ((pruned_package_iff task).1 p))
        ],
      )

  root_tests :
      (task : TaskName) (reason : DeadDependencyReason)
      → (dead_unless
            (contains_root_task c.resolved_pipeline task)
            (pruned_has_root_task c task)
            reason
          ≡ none)
        ↔ RootHas task
  unfolding contains_root_task
  root_tests task reason =
      let names = c.resolved_pipeline.root_task_names in
      let test = dead_unless-none (contains names task) (pruned_has_root_task c task) reason in
      (
        λ h. elim (test.0 h) [
          | inl e ↦ inl (contains-In task names e)
          | inr p ↦ inr ((pruned-IsRoot_iff task).0 p)
        ],
        λ h. elim h [
          | inl e ↦ test.1 (inl (In-contains task names e))
          | inr p ↦ test.1 (inr ((pruned-IsRoot_iff task).1 p))
        ],
      )

  specific_reason-none :
      (i : TaskId)
      → (specific_reason c i ≡ none)
        ↔ (In i.pkg c.package_names × (PackageHas i.pkg i.task ⊎ In i c.pruned))
  unfolding specific_reason
  specific_reason-none i = elim (Bool-cases (contains c.package_names i.pkg)) [
    | inr unknown ↦ rw unknown (
      λ h. absurd (none_not_some (sym h)),
      λ (j, _). let known = In-contains i.pkg c.package_names j in cc,
    )
    | inl known ↦ rw known (
      λ h. (
        contains-In i.pkg c.package_names known,
        elim ((here_or_gone _).0 h) [
          | inl e ↦ inl ((contains_package_task-PackageHas i.pkg i.task).0 e)
          | inr p ↦ inr (contains-In i c.pruned p)
        ],
      ),
      λ (_, h). (here_or_gone _).1 (elim h [
        | inl e ↦ inl ((contains_package_task-PackageHas i.pkg i.task).1 e)
        | inr p ↦ inr (In-contains i c.pruned p)
      ]),
    )
  ]
    where
      here_or_gone :
          (reason : DeadDependencyReason)
          → (dead_unless
                (contains_package_task c.resolved_pipeline i.pkg i.task)
                (contains c.pruned i)
                reason
              ≡ none)
            ↔ ((contains_package_task c.resolved_pipeline i.pkg i.task ≡ true)
                ⊎ (contains c.pruned i ≡ true))
      here_or_gone reason = dead_unless-none _ _ reason

  -- An id that was pruned is of a task that was pruned in some package.
  pruned_own_or_other :
      (source : TaskId) (task : TaskName)
      → ¬ IsRoot source
      → ((contains c.pruned (task_id source.pkg task) || pruned_has_package_task c task) ≡ true)
        ↔ ((i : TaskId) × In i c.pruned × (i.task ≡ task) × (¬ IsRoot i))
  pruned_own_or_other source task n =
      let id = task_id source.pkg task in
      let test = either (contains c.pruned id) (pruned_has_package_task c task) in
      (
        λ h. elim (test.0 h) [
          | inl own ↦ (id, contains-In id c.pruned own, refl, n)
          | inr other ↦ (pruned_package_iff task).0 other
        ],
        λ h. test.1 (inr ((pruned_package_iff task).1 h)),
      )

  same_package_reason-none :
      (source : TaskId) (task : TaskName)
      → (same_package_reason c source task ≡ none) ↔ IsLive source (same_package task)
  unfolding same_package_reason
  same_package_reason-none source task = elim (Bool-cases (task_is_root source)) [
    | inl at_root ↦
        let r = (IsRoot-iff source).0 at_root in
        let test = root_tests task (unknown_task_everywhere task) in
        rw at_root (
          λ h. inl (r, test.0 h),
          λ h. elim h [ inl (_, has) ↦ test.1 has | inr (n, _) ↦ absurd (n r) ],
        )
    | inr below ↦
        let n = (not-IsRoot_iff source).0 below in
        let gone = pruned_own_or_other source task n in
        let test =
          dead_unless-none (task_exists_in_any_package c.resolved_pipeline task)
            (contains c.pruned (task_id source.pkg task) || pruned_has_package_task c task)
            (unknown_task_everywhere task) in
        rw below (
          λ h. inr (
            n,
            elim (test.0 h) [ inl e ↦ inl ((anywhere_iff task).0 e) | inr p ↦ inr (gone.0 p) ],
          ),
          λ h. elim h [
            | inl (r, _) ↦ absurd (n r)
            | inr (_, inl e) ↦ test.1 (inl ((anywhere_iff task).1 e))
            | inr (_, inr p) ↦ test.1 (inr (gone.1 p))
          ],
        )
  ]

  pub dead_dependency_reason-IsLive :
      (source : TaskId) (dependency : DependsOn)
      → (dead_dependency_reason c source dependency ≡ none) ↔ IsLive source dependency
  unfolding dead_dependency_reason root_reason
  dead_dependency_reason-IsLive source (same_package task) = same_package_reason-none source task
  dead_dependency_reason-IsLive source (specific i) = specific_reason-none i
  dead_dependency_reason-IsLive source (direct_upstream task) = upstream_reason-none task
  dead_dependency_reason-IsLive source (transitive_upstream task) = upstream_reason-none task
  dead_dependency_reason-IsLive source (root task) = root_tests task _

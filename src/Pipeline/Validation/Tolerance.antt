-- ===== src/Pipeline/Validation/Tolerance.antt =====
-- Prunes make no reference dead: what was live before them is live or tolerated after
-- (crates/luchta-engine/src/task_graph.rs).
use mathlib.Core.Option.{some-injective}
use luchta.Prelude.{
  ◌≡◌, ◌≢◌, refl, sym, ap, subst, ◌∙◌, Bool, true, false, not, ◌&&◌, inl, inr, ◌⊎◌, Option, none,
  some, List, [], ◌∷◌, String, string_eq, option_eq, ◌==◌, beq_refl, eq_of_beq, differs_of_beq,
  arith, map, contains, contains-In, In-contains, In, In-any, In-filter, Bool-cases, if◌then◌else◌,
}
use luchta.Prelude.Maps.{Map, lookup, lookup-insert, lookup-remove}
use luchta.Types.{
  PackageName, TaskName, TaskId, task_id, task_id_eq, task_is_root, root_package_name,
}
use luchta.Pipeline.{ResolvedPipeline, PrunedTask}
use luchta.Pipeline.Changes.{set_remove, put_names, remove_task_name, apply_prune, apply_prunes}
use luchta.Pipeline.Validation.{
  contains_package_task, contains_root_task, DependencyContext, specific_reason, root_reason,
}

-- The package declares the task.
abbrev Declares : Map PackageName (List TaskName) → PackageName → TaskName → Type 0
Declares names p t = (tasks : List TaskName) × (lookup p names ≡ some tasks) × In t tasks

In-set_remove : (x y : String) (xs : List String) → x ≢ y → In y xs → In y (set_remove x xs)
In-set_remove x y xs n i =
    (In-filter (λ z. not (z == x)) y xs).1 (i, other (y == x) (λ h. n (sym (eq_of_beq y x h))))
  where
    other : (b : Bool) → (b ≡ true → ⊥) → not b ≡ true
    other true f = absurd (f refl)
    other false f = refl

lookup-put_names_other :
    (p q : PackageName) (tasks : List TaskName) (names : Map PackageName (List TaskName))
    → (p == q) ≡ false
    → lookup q (put_names p tasks names) ≡ lookup q names
lookup-put_names_other p q [] names h = lookup-remove p q names ∙ rw h refl
lookup-put_names_other p q (t ∷ tasks) names h = lookup-insert p q (t ∷ tasks) names ∙ rw h refl

put_names-Declares :
    (p : PackageName) (t : TaskName) (tasks : List TaskName)
    (names : Map PackageName (List TaskName))
    → In t tasks
    → Declares (put_names p tasks names) p t
put_names-Declares p t [] names i = absurd i
put_names-Declares p t (x ∷ tasks) names i =
    (x ∷ tasks, lookup-insert p p (x ∷ tasks) names ∙ rw (beq_refl p) refl, i)

id_eq : (i : TaskId) (p : PackageName) (t : TaskName) → i.pkg ≡ p → i.task ≡ t → i ≡ task_id p t
id_eq i p t e s = cc

remove_task_name-Declares :
    (i : TaskId) (p : PackageName) (t : TaskName) (names : Map PackageName (List TaskName))
    → Declares names p t
    → (i ≡ task_id p t) ⊎ Declares (remove_task_name i names) p t
unfolding remove_task_name
remove_task_name-Declares i p t names (tasks, found, member) =
    elim (Bool-cases (i == task_id p t)) [
      | inl same ↦ inl (eq_of_beq i (task_id p t) same)
      | inr other ↦ inr (kept (differs_of_beq i (task_id p t) other) (lookup i.pkg names) refl)
    ]
  where
    kept :
        i ≢ task_id p t
        → (o : Option (List TaskName)) → lookup i.pkg names ≡ o
        → Declares
            (elim o [
              | none ↦ names
              | some tasks' ↦ put_names i.pkg (set_remove i.task tasks') names
            ])
            p
            t
    kept n none q = (tasks, found, member)
    kept n (some tasks') q = elim (Bool-cases (i.pkg == p)) [
      | inr elsewhere ↦ (
        tasks,
        lookup-put_names_other i.pkg p (set_remove i.task tasks') names elsewhere ∙ found,
        member,
      )
      | inl here ↦
          let e : i.pkg ≡ p = eq_of_beq i.pkg p here in
          let same : tasks ≡ tasks' =
            some-injective tasks tasks' (sym found ∙ (ap (λ z. lookup z names) (sym e) ∙ q)) in
          subst (λ z. Declares (put_names i.pkg (set_remove i.task tasks') names) z t) e
            (put_names-Declares i.pkg t (set_remove i.task tasks') names (
              In-set_remove i.task t tasks' (λ s. n (id_eq i p t e s))
                (subst (λ ts. In t ts) same member)))
    ]

apply_prunes-Declares :
    (entries : List PrunedTask) (p : ResolvedPipeline) (name : PackageName) (t : TaskName)
    → Declares p.task_names_by_package name t
    → In (task_id name t) (map (λ (e : PrunedTask). e.id) entries)
      ⊎ Declares (apply_prunes entries p).task_names_by_package name t
unfolding apply_prunes apply_prune
apply_prunes-Declares [] p name t h = inr h
apply_prunes-Declares (entry ∷ entries) p name t h =
    elim (remove_task_name-Declares entry.id name t p.task_names_by_package h) [
      | inl q ↦ inl (inl (sym q))
      | inr kept ↦ elim (apply_prunes-Declares entries (apply_prune entry p) name t kept) [
        | inl i ↦ inl (inr i)
        | inr k ↦ inr k
      ]
    ]

contains_package_task-Declares :
    (p : ResolvedPipeline) (name : PackageName) (t : TaskName)
    → contains_package_task p name t ≡ true
    → Declares p.task_names_by_package name t
unfolding contains_package_task
contains_package_task-Declares p name t h = go (lookup name p.task_names_by_package) refl h
  where
    go :
        (o : Option (List TaskName))
        → lookup name p.task_names_by_package ≡ o
        → elim o [ none ↦ false | some tasks ↦ contains tasks t ] ≡ true
        → Declares p.task_names_by_package name t
    go none q h = cc
    go (some tasks) q h = (tasks, q, contains-In t tasks h)

Declares-contains_package_task :
    (p : ResolvedPipeline) (name : PackageName) (t : TaskName)
    → Declares p.task_names_by_package name t
    → contains_package_task p name t ≡ true
unfolding contains_package_task
Declares-contains_package_task p name t (tasks, q, i) =
    subst (λ o. elim o [ none ↦ false | some tasks ↦ contains tasks t ] ≡ true) (sym q)
      (In-contains t tasks i)

-- The context of a validation, with what was pruned.
abbrev pub context : List PackageName → List PrunedTask → ResolvedPipeline → DependencyContext
context names entries p = record {
  package_names = names;
  resolved_pipeline = apply_prunes entries p;
  pruned = map (λ (e : PrunedTask). e.id) entries;
}

-- A reference `pkg#task` that is live before prunes is not reported after them.
pub specific_reason-apply_prunes :
    (names : List PackageName) (entries : List PrunedTask) (p : ResolvedPipeline) (i : TaskId)
    → specific_reason (context names [] p) i ≡ none
    → specific_reason (context names entries p) i ≡ none
unfolding specific_reason apply_prunes
specific_reason-apply_prunes names entries p i h = elim (Bool-cases (contains names i.pkg)) [
  | inr unknown ↦ absurd (ground (arith, (rw unknown at h)))
  | inl known ↦ elim (Bool-cases (contains_package_task p i.pkg i.task)) [
    | inr missing ↦ absurd (ground (arith, (rw (known, missing) at h)))
    | inl there ↦
        elim (apply_prunes-Declares entries p i.pkg i.task
          (contains_package_task-Declares p i.pkg i.task there)) [
            | inl gone ↦ rw (known, In-contains i _ gone) (ground arith)
            | inr kept ↦
                rw
                  (known, Declares-contains_package_task (apply_prunes entries p) i.pkg i.task kept)
                  refl
          ]
  ]
]

-- A root task is still declared, or it was pruned.
apply_prunes-root :
    (entries : List PrunedTask) (p : ResolvedPipeline) (t : TaskName)
    → In t p.root_task_names
    → In (task_id root_package_name t) (map (λ (e : PrunedTask). e.id) entries)
      ⊎ In t (apply_prunes entries p).root_task_names
unfolding apply_prunes apply_prune
apply_prunes-root [] p t i = inr i
apply_prunes-root (entry ∷ entries) p t i =
    elim (Bool-cases (entry.id == task_id root_package_name t)) [
      | inl same ↦ inl (inl (sym (eq_of_beq entry.id (task_id root_package_name t) same)))
      | inr other ↦
          elim (apply_prunes-root entries (apply_prune entry p) t (
            kept entry.id (differs_of_beq entry.id (task_id root_package_name t) other)
              (task_is_root entry.id) refl)) [ inl gone ↦ inl (inr gone) | inr k ↦ inr k ]
    ]
  where
    kept :
        (j : TaskId)
        → j ≢ task_id root_package_name t
        → (b : Bool) → task_is_root j ≡ b
        → In t (if b then set_remove j.task p.root_task_names else p.root_task_names)
    kept j n false q = i
    kept j n true q =
        In-set_remove j.task t p.root_task_names
          (λ s. n (id_eq j root_package_name t (eq_of_beq j.pkg root_package_name q) s)) i

-- A reference `#task` that is live before prunes is not reported after them.
pub root_reason-apply_prunes :
    (names : List PackageName) (entries : List PrunedTask) (p : ResolvedPipeline) (t : TaskName)
    → root_reason (context names [] p) t ≡ none
    → root_reason (context names entries p) t ≡ none
unfolding root_reason contains_root_task apply_prunes
root_reason-apply_prunes names entries p t h = elim (Bool-cases (contains p.root_task_names t)) [
  | inr missing ↦ absurd (ground (arith, (rw missing at h)))
  | inl there ↦ elim (apply_prunes-root entries p t (contains-In t p.root_task_names there)) [
    | inl gone ↦
        rw
          (In-any (λ (i : TaskId). i.task == t && task_is_root i) (task_id root_package_name t)
            (map (λ (e : PrunedTask). e.id) entries) gone (rw (beq_refl t) refl))
          (ground arith)
    | inr kept ↦ rw (In-contains t (apply_prunes entries p).root_task_names kept) refl
  ]
]

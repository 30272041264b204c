-- ===== src/Cache/Decide/Facts.antt =====
-- The checks of `decide` as statements about the record and the present state
-- (crates/luchta-cache/src/decide.rs).
use luchta.Prelude.{
  ◌≡◌, ◌≢◌, refl, sym, ◌∙◌, ap, subst, Bool, true, not, inl, inr, ◌⊎◌, ◌↔◌, none, some, List, [],
  ◌∷◌, String, Result, ok, err, string_eq, list_eq, nat_eq, option_eq, ◌==◌, eq_of_beq, beq_of_eq,
  differs_of_beq, arith, filter, contains, In-contains, contains-In, In, In-append, In-filter,
  In-map, map-In, map, Distinct, Bool-cases, Option-cases,
}
use luchta.Prelude.Maps.{
  Map, lookup, keys, In-of_lookup, lookup_of_In, In-keys_of_lookup, lookup_of_In-keys,
}
use luchta.Cache.{Hash, FileEntry, TaskRunRecord, FileStateResolver, CurrentState}
use luchta.Cache.Diff.{files_changed}
use luchta.Cache.Diff.Contents.{content_at, path_changed-content, content_of_unchanged}
use luchta.Cache.Diff.Loop.{is_changed}
use luchta.Cache.Diff.Reference.{files_changed_iff}
use luchta.Cache.Decide.{
  FileEntryKind, inputs, outputs, resolve_kind, reason_of_resolved, change_reason,
  effective_input_patterns, effective_output_patterns, changed_dep_tasks, is_empty_list,
}

-- The patterns resolve, and every path has the content that was recorded.
abbrev pub Unchanged : FileEntryKind → FileStateResolver → List String → List FileEntry → Type 0
Unchanged kind r patterns prior =
    (current : List FileEntry) × (resolve_kind kind r patterns prior ≡ ok current)
    × ((path : String) → content_at path prior ≡ content_at path current)

abbrev pub OutputsUnchanged : TaskRunRecord → CurrentState → Type 0
OutputsUnchanged p c = Unchanged outputs c.resolver (effective_output_patterns p c) p.outputs

abbrev pub InputsUnchanged : TaskRunRecord → CurrentState → Type 0
InputsUnchanged p c = Unchanged inputs c.resolver (effective_input_patterns p c) p.inputs

-- The task has the same output hash, or none, on both sides.
abbrev pub SameDep : TaskRunRecord → CurrentState → String → Type 0
SameDep p c task = lookup task p.dep_outputs ≡ lookup task c.dep_outputs

reason_of_resolved-none :
    (kind : FileEntryKind) (prior : List FileEntry) (o : Result (List FileEntry) String)
    → reason_of_resolved kind prior o ≡ none
    → (current : List FileEntry) × (o ≡ ok current)
      × ((path : String) → content_at path prior ≡ content_at path current)
unfolding reason_of_resolved
reason_of_resolved-none kind prior (err e) h = cc
reason_of_resolved-none kind prior (ok current) h =
    elim (Bool-cases (files_changed prior current)) [
      | inl changed ↦ absurd (ground arith)
      | inr same ↦ (
        current,
        refl,
        λ path. elim (Bool-cases (is_changed prior current path)) [
          | inl bad ↦
              let n = (path_changed-content prior current path).0 bad in
              absurd (ground (arith, (files_changed_iff prior current).1 (path, n)))
          | inr good ↦ content_of_unchanged prior current path good
        ],
      )
    ]

unchanged-none :
    (kind : FileEntryKind) (prior current : List FileEntry)
    → ((path : String) → content_at path prior ≡ content_at path current)
    → reason_of_resolved kind prior (ok current) ≡ none
unfolding reason_of_resolved
unchanged-none kind prior current same = elim (Bool-cases (files_changed prior current)) [
  | inl changed ↦
      let (path, bad) = (files_changed_iff prior current).0 changed in absurd (bad (same path))
  | inr unchanged ↦ ground arith
]

pub change_reason_iff :
    (r : FileStateResolver) (patterns : List String) (prior : List FileEntry) (kind : FileEntryKind)
    → (change_reason r patterns prior kind ≡ none) ↔ Unchanged kind r patterns prior
unfolding change_reason
change_reason_iff r patterns prior kind = (
  λ h. reason_of_resolved-none kind prior (resolve_kind kind r patterns prior) h,
  λ (current, q, same).
      subst (λ o. reason_of_resolved kind prior o ≡ none) (sym q)
        (unchanged-none kind prior current same),
)

-- The maps hold each key once.
abbrev pub IsMap : Map String Hash → Type 0
IsMap m = Distinct (keys m)

not_both : {b : Bool} → b ≡ true → not b ≡ true → ⊥
not_both s t = ground arith

module _ (a b : Map String Hash) (d : IsMap a) where
  abbrev is_stale : String × Hash → Bool
  is_stale e = not (lookup e.0 b == some e.1)

  abbrev is_new : String → Bool
  is_new task = not (contains (keys a) task)

  stale_differs :
      (task : String) (e : String × Hash)
      → In e a
      → is_stale e ≡ true
      → task ≡ e.0
      → lookup task a ≢ lookup task b
  stale_differs task (k, v) i old q same =
      let found : lookup task a ≡ some v =
        subst (λ t. lookup t a ≡ some v) (sym q) (lookup_of_In k v a d i) in
      let there : lookup k b ≡ some v = subst (λ t. lookup t b ≡ some v) q (sym same ∙ found) in
      not_both (beq_of_eq (lookup k b) (some v) there) old

  new_differs :
      (task : String) → In task (keys b) → is_new task ≡ true → lookup task a ≢ lookup task b
  new_differs task i new same =
      let (v, found) = lookup_of_In-keys task b i in
      let known = In-contains task (keys a) (In-keys_of_lookup task a (same ∙ found)) in
      ground arith

  differs_listed :
      (task : String)
      → lookup task a ≢ lookup task b
      → In task (map (λ (e : String × Hash). e.0) (filter is_stale a))
        ⊎ In task (filter is_new (keys b))
  differs_listed task n = elim (Option-cases (lookup task a)) [
    | inr (v, found) ↦ elim (Bool-cases (lookup task b == some v)) [
      | inl same ↦ absurd (n (found ∙ sym (eq_of_beq (lookup task b) (some v) same)))
      | inr other ↦ inl (
          In-map (λ (e : String × Hash). e.0) (task, v) (filter is_stale a)
            ((In-filter is_stale (task, v) a).1 (In-of_lookup task v a found, ap not other)))
    ]
    | inl missing ↦ elim (Option-cases (lookup task b)) [
      | inl gone ↦ absurd (n (missing ∙ sym gone))
      | inr (w, found) ↦ elim (Bool-cases (contains (keys a) task)) [
        | inl known ↦
            let (v, here) = lookup_of_In-keys task a (contains-In task (keys a) known) in
            absurd (ground arith)
        | inr unknown ↦
            inr
              ((In-filter is_new task (keys b)).1 (In-keys_of_lookup task b found, ap not unknown))
      ]
    ]
  ]

pub In-changed_dep_tasks :
    (p : TaskRunRecord) (c : CurrentState)
    → IsMap p.dep_outputs
    → (task : String) → In task (changed_dep_tasks p c) ↔ (¬ SameDep p c task)
unfolding changed_dep_tasks
In-changed_dep_tasks p c d task =
    let a = p.dep_outputs in
    let b = c.dep_outputs in
    let olds = map (λ (e : String × Hash). e.0) (filter (is_stale a b d) a) in
    let news = filter (is_new a b d) (keys b) in
    (
      λ i. elim ((In-append task olds news).0 i) [
        | inl old ↦
            let (e, j, q) =
              map-In (λ (e : String × Hash). e.0) task (filter (is_stale a b d) a) old in
            let (k, s) = (In-filter (is_stale a b d) e a).0 j in stale_differs a b d task e k s q
        | inr new ↦
            let (k, s) = (In-filter (is_new a b d) task (keys b)).0 new in
            new_differs a b d task k s
      ],
      λ n. (In-append task olds news).1 (differs_listed a b d task n),
    )

-- No task has other outputs when the list is empty, and conversely.
pub changed_dep_tasks-empty :
    (p : TaskRunRecord) (c : CurrentState)
    → IsMap p.dep_outputs
    → (is_empty_list (changed_dep_tasks p c) ≡ true) ↔ ((task : String) → SameDep p c task)
changed_dep_tasks-empty p c d = go (changed_dep_tasks p c) (In-changed_dep_tasks p c d)
  where
    go :
        (tasks : List String)
        → ((task : String) → In task tasks ↔ (¬ SameDep p c task))
        → (is_empty_list tasks ≡ true) ↔ ((task : String) → SameDep p c task)
    go [] listed = (
      λ _ task. elim (Bool-cases (lookup task p.dep_outputs == lookup task c.dep_outputs)) [
        | inl same ↦ eq_of_beq (lookup task p.dep_outputs) (lookup task c.dep_outputs) same
        | inr other ↦ absurd (
            (listed task).1
              (differs_of_beq (lookup task p.dep_outputs) (lookup task c.dep_outputs) other))
      ],
      λ _. refl,
    )
    go (t ∷ tasks) listed = (λ h. cc, λ same. absurd ((listed t).0 (inl refl) (same t)))

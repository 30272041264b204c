-- ===== src/Cache/Decide/Reasons.antt =====
-- What a decision and its reason say about the record and the present state
-- (crates/luchta-cache/src/decide.rs).
use mathlib.Core.Option.{some-injective}
use luchta.Prelude.{
  ℕ, ◌≡◌, refl, sym, subst, Bool, true, false, not, inl, inr, ◌↔◌, Option, none, some, List, [],
  String, Result, ok, err, string_eq, list_eq, nat_eq, option_eq, ◌==◌, eq_of_beq, differs_of_beq,
  arith, In, Bool-cases, if◌then◌else◌,
}
use luchta.Cache.{
  FileEntry, FileDelta, RunReason, no_prior_record, prior_failed, nonce_changed, task_spec_mismatch,
  dep_output_mismatch, pkg_dep_mismatch, env_mismatch, input_changed, output_changed, cache_hit,
  shared_cache_hit, TaskRunRecord, skip, run, DecisionResult, CurrentState,
}
use luchta.Cache.Diff.{files_diff, files_changed}
use luchta.Cache.Decide.{
  inputs, outputs, change_reason, effective_input_patterns, effective_output_patterns, first_change,
  check_patterns_unchanged, changed_dep_tasks, is_empty_list, decide,
}
use luchta.Cache.Decide.{decide_files_diff_limit, decides_run, reason_of_resolved}
use luchta.Cache.Decide.Facts.{
  OutputsUnchanged, InputsUnchanged, SameDep, IsMap, change_reason_iff, In-changed_dep_tasks,
  changed_dep_tasks-empty,
}

-- The checks that come before the files, in the order of `decide`.
abbrev pub SameNonce : TaskRunRecord → CurrentState → Type 0
SameNonce p c = p.cache_nonce ≡ c.cache_nonce

abbrev pub SameSpec : TaskRunRecord → CurrentState → Type 0
SameSpec p c = p.task_spec_hash ≡ c.task_spec_hash

abbrev pub SameDeps : TaskRunRecord → CurrentState → Type 0
SameDeps p c = (task : String) → SameDep p c task

abbrev pub SamePackages : TaskRunRecord → CurrentState → Type 0
SamePackages p c = p.pkg_dep_hash ≡ c.pkg_dep_hash

abbrev pub SameEnv : TaskRunRecord → CurrentState → Type 0
SameEnv p c = p.env_hash ≡ c.env_hash

abbrev pub SameFacts : TaskRunRecord → CurrentState → Type 0
SameFacts p c =
    (p.succeeded ≡ true)
    × SameNonce p c
    × SameSpec p c
    × SameDeps p c
    × SamePackages p c
    × SameEnv p c

-- What a reason says: its check fails, and those before it hold.
abbrev pub Explains : TaskRunRecord → CurrentState → DecisionResult → Type 0
Explains p c r = elim r.reason [
  | no_prior_record ↦ ⊥
  | prior_failed ↦ (r.action ≡ run) × (p.succeeded ≡ false)
  | nonce_changed ↦ (r.action ≡ run) × (p.succeeded ≡ true) × (¬ SameNonce p c)
  | task_spec_mismatch ↦ (r.action ≡ run) × (p.succeeded ≡ true) × SameNonce p c × (¬ SameSpec p c)
  | dep_output_mismatch tasks ↦
      (r.action ≡ run)
      × (p.succeeded ≡ true)
      × SameNonce p c
      × SameSpec p c
      × (¬ SameDeps p c)
      × ((task : String) → In task tasks ↔ (¬ SameDep p c task))
  | pkg_dep_mismatch ↦
      (r.action ≡ run)
      × (p.succeeded ≡ true)
      × SameNonce p c
      × SameSpec p c
      × SameDeps p c
      × (¬ SamePackages p c)
  | env_mismatch ↦
      (r.action ≡ run)
      × (p.succeeded ≡ true)
      × SameNonce p c
      × SameSpec p c
      × SameDeps p c
      × SamePackages p c
      × (¬ SameEnv p c)
  | output_changed _ _ _ ↦ (r.action ≡ run) × SameFacts p c × (¬ OutputsUnchanged p c)
  | input_changed _ _ _ ↦
      (r.action ≡ run) × SameFacts p c × OutputsUnchanged p c × (¬ InputsUnchanged p c)
  | cache_hit ↦ (r.action ≡ skip) × SameFacts p c × OutputsUnchanged p c × InputsUnchanged p c
  | shared_cache_hit ↦ ⊥
]

reason_of_resolved-inputs :
    (prior : List FileEntry) (o : Result (List FileEntry) String) (r : RunReason)
    → reason_of_resolved inputs prior o ≡ some r
    → (changed : List FileDelta) × (truncated : Bool) × (count : ℕ) × (r
        ≡ input_changed changed truncated count)
unfolding reason_of_resolved
reason_of_resolved-inputs prior (err e) r h = ([], false, 0, sym (some-injective _ _ h))
reason_of_resolved-inputs prior (ok current) r h = elim (Bool-cases (files_changed prior current)) [
  | inl changed ↦
      let t = files_diff prior current decide_files_diff_limit in (t.0, t.1, t.2, ground arith)
  | inr same ↦ absurd (ground arith)
]

reason_of_resolved-outputs :
    (prior : List FileEntry) (o : Result (List FileEntry) String) (r : RunReason)
    → reason_of_resolved outputs prior o ≡ some r
    → (changed : List FileDelta) × (truncated : Bool) × (count : ℕ) × (r
        ≡ output_changed changed truncated count)
unfolding reason_of_resolved
reason_of_resolved-outputs prior (err e) r h = ([], false, 0, sym (some-injective _ _ h))
reason_of_resolved-outputs prior (ok current) r h =
    elim (Bool-cases (files_changed prior current)) [
      | inl changed ↦
          let t = files_diff prior current decide_files_diff_limit in (t.0, t.1, t.2, ground arith)
      | inr same ↦ absurd (ground arith)
    ]

module _ (p : TaskRunRecord) (c : CurrentState) where
  abbrev of_outputs : Option RunReason
  of_outputs = change_reason c.resolver (effective_output_patterns p c) p.outputs outputs

  abbrev of_inputs : Option RunReason
  of_inputs = change_reason c.resolver (effective_input_patterns p c) p.inputs inputs

  outputs_iff : (of_outputs ≡ none) ↔ OutputsUnchanged p c
  outputs_iff = change_reason_iff c.resolver (effective_output_patterns p c) p.outputs outputs

  inputs_iff : (of_inputs ≡ none) ↔ InputsUnchanged p c
  inputs_iff = change_reason_iff c.resolver (effective_input_patterns p c) p.inputs inputs

  outputs_reason :
      (r : RunReason)
      → of_outputs ≡ some r
      → (ds : List FileDelta) × (t : Bool) × (n : ℕ) × (r ≡ output_changed ds t n)
  unfolding change_reason
  outputs_reason r h = reason_of_resolved-outputs p.outputs _ r h

  inputs_reason :
      (r : RunReason)
      → of_inputs ≡ some r
      → (ds : List FileDelta) × (t : Bool) × (n : ℕ) × (r ≡ input_changed ds t n)
  unfolding change_reason
  inputs_reason r h = reason_of_resolved-inputs p.inputs _ r h

  first_change-explained :
      (o i : Option RunReason)
      → of_outputs ≡ o
      → of_inputs ≡ i
      → SameFacts p c
      → Explains p c (first_change o i)
  unfolding first_change
  first_change-explained (some r) i ho hi facts =
      let (ds, t, n, q) = outputs_reason r ho in
      rw q (refl, facts, λ u. absurd (ground (arith, outputs_iff.1 u)))
  first_change-explained none (some r) ho hi facts =
      let (ds, t, n, q) = inputs_reason r hi in
      rw q (refl, facts, outputs_iff.0 ho, λ u. absurd (ground (arith, inputs_iff.1 u)))
  first_change-explained none none ho hi facts = (refl, facts, outputs_iff.0 ho, inputs_iff.0 hi)

  check_patterns_unchanged-explained : SameFacts p c → Explains p c (check_patterns_unchanged p c)
  unfolding check_patterns_unchanged
  check_patterns_unchanged-explained facts =
      first_change-explained of_outputs of_inputs refl refl facts

-- The record passes all checks before the files.
pub passed :
    (p : TaskRunRecord) (c : CurrentState)
    → p.succeeded ≡ true
    → (p.cache_nonce == c.cache_nonce) ≡ true
    → (p.task_spec_hash == c.task_spec_hash) ≡ true
    → is_empty_list (changed_dep_tasks p c) ≡ true
    → (p.pkg_dep_hash == c.pkg_dep_hash) ≡ true
    → (p.env_hash == c.env_hash) ≡ true
    → decide (some p) c ≡ check_patterns_unchanged p c
unfolding decide
passed p c succeeded nonce spec deps packages env =
    rw (env, packages, deps, spec, nonce) (go p.succeeded succeeded)
  where
    go :
        (b : Bool)
        → b ≡ true
        → (if not b then decides_run prior_failed else check_patterns_unchanged p c)
          ≡ check_patterns_unchanged p c
    go true h = refl
    go false h = cc

-- If the dependency outputs of the record hold each key once, each reason that `decide` gives is the
-- true one: its check fails and all those before it hold.
pub decide-explained :
    (p : TaskRunRecord) (c : CurrentState) → IsMap p.dep_outputs → Explains p c (decide (some p) c)
unfolding decide changed_dep_tasks
decide-explained p c d = elim (Bool-cases p.succeeded) [
  | inr failed ↦ rw failed (refl, refl)
  | inl succeeded ↦ elim (Bool-cases (p.cache_nonce == c.cache_nonce)) [
    | inr nonce ↦
        rw (succeeded, nonce) (refl, refl, differs_of_beq p.cache_nonce c.cache_nonce nonce)
    | inl nonce ↦ elim (Bool-cases (p.task_spec_hash == c.task_spec_hash)) [
      | inr spec ↦
          rw (succeeded, nonce, spec)
            (
              refl,
              refl,
              eq_of_beq p.cache_nonce c.cache_nonce nonce,
              differs_of_beq p.task_spec_hash c.task_spec_hash spec,
            )
      | inl spec ↦ elim (Bool-cases (is_empty_list (changed_dep_tasks p c))) [
        | inr deps ↦
            rw (deps, spec, nonce, succeeded)
              (
                refl,
                refl,
                eq_of_beq p.cache_nonce c.cache_nonce nonce,
                eq_of_beq p.task_spec_hash c.task_spec_hash spec,
                (λ same. absurd (ground (arith, (changed_dep_tasks-empty p c d).1 same))),
                In-changed_dep_tasks p c d,
              )
        | inl deps ↦
            let same_nonce = eq_of_beq p.cache_nonce c.cache_nonce nonce in
            let same_spec = eq_of_beq p.task_spec_hash c.task_spec_hash spec in
            let same_deps = (changed_dep_tasks-empty p c d).0 deps in
            elim (Bool-cases (p.pkg_dep_hash == c.pkg_dep_hash)) [
              | inr packages ↦
                  rw (packages, deps, spec, nonce, succeeded)
                    (
                      refl,
                      refl,
                      same_nonce,
                      same_spec,
                      same_deps,
                      differs_of_beq p.pkg_dep_hash c.pkg_dep_hash packages,
                    )
              | inl packages ↦
                  let same_packages = eq_of_beq p.pkg_dep_hash c.pkg_dep_hash packages in
                  elim (Bool-cases (p.env_hash == c.env_hash)) [
                    | inr env ↦
                        rw (env, packages, deps, spec, nonce, succeeded)
                          (
                            refl,
                            refl,
                            same_nonce,
                            same_spec,
                            same_deps,
                            same_packages,
                            differs_of_beq p.env_hash c.env_hash env,
                          )
                    | inl env ↦
                        subst (λ r. Explains p c r)
                          (sym (passed p c succeeded nonce spec deps packages env))
                          (check_patterns_unchanged-explained p c (
                            succeeded,
                            same_nonce,
                            same_spec,
                            same_deps,
                            same_packages,
                            eq_of_beq p.env_hash c.env_hash env,
                          ))
                  ]
            ]
      ]
    ]
  ]
]

-- ===== src/Cache/Decide/Skips.antt =====
-- When a task is skipped, and when its result is taken from the shared cache
-- (crates/luchta-cache/src/decide.rs).
use luchta.Prelude.{
  ◌≡◌, refl, sym, ◌∙◌, Bool, true, ◌&&◌, inl, inr, ◌↔◌, Option, none, some, List, String, string_eq,
  list_eq, nat_eq, option_eq, ◌==◌, eq_of_beq, beq_of_eq, arith, all-In, all_of_In, Bool-cases,
}
use luchta.Prelude.Maps.{Map, lookup, In-of_lookup, lookup_of_In}
use luchta.Cache.{
  Hash, FileEntry, RunReason, no_prior_record, prior_failed, nonce_changed, task_spec_mismatch,
  dep_output_mismatch, pkg_dep_mismatch, env_mismatch, input_changed, output_changed, cache_hit,
  shared_cache_hit, TaskRunRecord, Decision, skip, DecisionResult, CurrentState,
}
use luchta.Cache.Decide.{
  inputs, outputs, effective_input_patterns, effective_output_patterns, first_change,
  check_patterns_unchanged, decide, entries_within, cacheable_prior,
}
use luchta.Cache.Decide.Facts.{
  OutputsUnchanged, InputsUnchanged, SameDep, IsMap, change_reason_iff, changed_dep_tasks-empty,
}
use luchta.Cache.Decide.{dependency_outputs_unchanged, decide_shared_restore}
use luchta.Cache.Decide.Reasons.{SameFacts, Explains, decide-explained, passed}

module _ (p : TaskRunRecord) (c : CurrentState) where
  facts_of_skip :
      (r : DecisionResult)
      → r.action ≡ skip
      → Explains p c r
      → SameFacts p c × OutputsUnchanged p c × InputsUnchanged p c
  facts_of_skip r h e = go r.action r.reason h e
    where
      go :
          (a : Decision) (reason : RunReason)
          → a ≡ skip
          → Explains p c (record { action = a; reason = reason })
          → SameFacts p c × OutputsUnchanged p c × InputsUnchanged p c
      go a no_prior_record h e = absurd e
      go a shared_cache_hit h e = absurd e
      go a cache_hit h e = (e.1, e.2, e.3)
      go a prior_failed h e = absurd (ground arith)
      go a nonce_changed h e = absurd (ground (arith, e.0))
      go a task_spec_mismatch h e = absurd (ground (arith, e.0))
      go a (dep_output_mismatch tasks) h e = absurd (ground (arith, e.0))
      go a pkg_dep_mismatch h e = absurd (ground (arith, e.0))
      go a env_mismatch h e = absurd (ground (arith, e.0))
      go a (input_changed ds t n) h e = absurd (ground (arith, e.0))
      go a (output_changed ds t n) h e = absurd (ground (arith, e.0))

  skip_of_facts :
      IsMap p.dep_outputs
      → SameFacts p c
      → OutputsUnchanged p c
      → InputsUnchanged p c
      → (decide (some p) c).action ≡ skip
  unfolding check_patterns_unchanged first_change
  skip_of_facts d (succeeded, nonce, spec, deps, packages, env) out inn =
      rw
        (
          passed p c succeeded (beq_of_eq _ _ nonce) (beq_of_eq _ _ spec)
              ((changed_dep_tasks-empty p c d).1 deps) (beq_of_eq _ _ packages) (beq_of_eq _ _ env),
          (change_reason_iff c.resolver (effective_output_patterns p c) p.outputs outputs).1 out,
          (change_reason_iff c.resolver (effective_input_patterns p c) p.inputs inputs).1 inn,
        )
        refl

-- If its dependency outputs hold each key once, a recorded task is skipped when, and only when, it
-- succeeded, nothing that it was run with has changed, and all its outputs and inputs have the
-- recorded contents.
pub decide-skip :
    (p : TaskRunRecord) (c : CurrentState)
    → IsMap p.dep_outputs
    → ((decide (some p) c).action ≡ skip)
      ↔ (SameFacts p c × OutputsUnchanged p c × InputsUnchanged p c)
decide-skip p c d = (
  λ h. facts_of_skip p c (decide (some p) c) h (decide-explained p c d),
  λ (facts, out, inn). skip_of_facts p c d facts out inn,
)

entries_within_iff :
    (a b : Map String Hash)
    → IsMap a
    → (entries_within a b ≡ true)
      ↔ ((task : String) (v : Hash) → lookup task a ≡ some v → lookup task b ≡ some v)
entries_within_iff a b d = (
  λ h task v found. eq_of_beq (lookup task b) (some v) (
      all-In (λ (e : String × Hash). lookup e.0 b == some e.1) a h (task, v)
        (In-of_lookup task v a found)),
  λ h.
      all_of_In (λ (e : String × Hash). lookup e.0 b == some e.1) a
        (λ (task, v) i. beq_of_eq (lookup task b) (some v) (h task v (lookup_of_In task v a d i))),
)

and_iff : (a b : Bool) → ((a && b) ≡ true) ↔ ((a ≡ true) × (b ≡ true))
and_iff a b = ground arith

-- The two inclusions of `dependency_outputs_unchanged` are the equality of the lookups.
same_deps_iff :
    (p : TaskRunRecord) (c : CurrentState)
    → IsMap p.dep_outputs
    → IsMap c.dep_outputs
    → (dependency_outputs_unchanged p c ≡ true) ↔ ((task : String) → SameDep p c task)
same_deps_iff p c d d' = (
  λ h task.
      let (l, r) =
        (and_iff (entries_within p.dep_outputs c.dep_outputs)
            (entries_within c.dep_outputs p.dep_outputs)).0
          h in
      same_of_within (lookup task p.dep_outputs) (lookup task c.dep_outputs)
        ((entries_within_iff p.dep_outputs c.dep_outputs d).0 l task)
        ((entries_within_iff c.dep_outputs p.dep_outputs d').0 r task),
  λ same.
      (and_iff (entries_within p.dep_outputs c.dep_outputs)
          (entries_within c.dep_outputs p.dep_outputs)).1
        (
          (entries_within_iff p.dep_outputs c.dep_outputs d).1
              (λ task v found. sym (same task) ∙ found),
          (entries_within_iff c.dep_outputs p.dep_outputs d').1 (λ task v found. same task ∙ found),
        ),
)
  where
    same_of_within :
        (o o' : Option Hash)
        → ((v : Hash) → o ≡ some v → o' ≡ some v)
        → ((v : Hash) → o' ≡ some v → o ≡ some v)
        → o ≡ o'
    same_of_within none none f g = refl
    same_of_within none (some v) f g = g v refl
    same_of_within (some v) o' f g = sym (f v refl)

conjuncts :
    (a b c d e f : Bool)
    → ((a && b && c && d && e && f) ≡ true)
      ↔ ((a ≡ true) × (b ≡ true) × (c ≡ true) × (d ≡ true) × (e ≡ true) × (f ≡ true))
conjuncts a b c d e f = ground arith

cacheable_prior_iff :
    (p : TaskRunRecord) (c : CurrentState)
    → IsMap p.dep_outputs
    → IsMap c.dep_outputs
    → (cacheable_prior p c ≡ true) ↔ SameFacts p c
unfolding cacheable_prior
cacheable_prior_iff p c d d' =
    let all_six =
      conjuncts p.succeeded (p.cache_nonce == c.cache_nonce) (p.task_spec_hash == c.task_spec_hash)
        (p.env_hash == c.env_hash) (p.pkg_dep_hash == c.pkg_dep_hash)
        (dependency_outputs_unchanged p c) in
    (
      λ h.
          let (s, n, t, e, k, o) = all_six.0 h in
          (
            s,
            eq_of_beq _ _ n,
            eq_of_beq _ _ t,
            (same_deps_iff p c d d').0 o,
            eq_of_beq _ _ k,
            eq_of_beq _ _ e,
          ),
      λ (s, n, t, o, k, e). all_six.1 (
        s,
        beq_of_eq _ _ n,
        beq_of_eq _ _ t,
        beq_of_eq _ _ e,
        beq_of_eq _ _ k,
        (same_deps_iff p c d d').1 o,
      ),
    )

-- If both maps of dependency outputs hold each key once, a shared result is restored when, and only
-- when, all that a local hit asks holds, the files aside, and its recorded inputs have the digest of
-- the present ones.
pub decide_shared_restore_iff :
    (combined_inputs_hash : List FileEntry → Hash) (p : TaskRunRecord) (c : CurrentState)
    (inputs_hash : Hash)
    → IsMap p.dep_outputs
    → IsMap c.dep_outputs
    → (decide_shared_restore combined_inputs_hash p c inputs_hash ≡ true)
      ↔ (SameFacts p c × (combined_inputs_hash p.inputs ≡ inputs_hash))
unfolding decide_shared_restore
decide_shared_restore_iff f p c h d d' = elim (Bool-cases (cacheable_prior p c)) [
  | inl holds ↦ rw holds (
    λ q. ((cacheable_prior_iff p c d d').0 holds, eq_of_beq _ _ q),
    λ (facts, q). beq_of_eq _ _ q,
  )
  | inr fails ↦
      rw fails
        (λ q. cc, λ (facts, q). absurd (ground (arith, (cacheable_prior_iff p c d d').1 facts)))
]

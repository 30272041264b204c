-- ===== src/TaskGraph/Checks/CacheFiles/Meaning.antt =====
-- When the rules for cache files find nothing (crates/luchta-engine/src/task_graph.rs).
use luchta.Prelude.{
  ◌≡◌, ◌≢◌, none, Option-cases, Bool-cases, refl, sym, ap, ◌∙◌, inl, inr, ◌⊎◌, ◌↔◌, Bool, true,
  false, not, List, [], ◌∷◌, ◌++◌, List-cases, In, In-filter, filter, String, string_eq, arith,
}
use luchta.Types.{TaskId, TaskDefinition, cache_enabled}
use luchta.Glob.{Globset, is_negated}
use luchta.TaskGraph.Checks.CacheFiles.{
  cache_file_pattern_stays_in_package, collides, validate_cache_file_role_overlaps,
  validate_cache_file_definition,
}
use luchta.TaskGraph.Checks.CacheFiles.Overlap.{Overlaps, IsExcluded, collides_iff}
use luchta.TaskGraph.Checks.CacheFiles.Sound.{
  IsNegation, StaysInPackage, is_negated-IsNegation,
  cache_file_pattern_stays_in_package-StaysInPackage,
}
use luchta.TaskGraph.Checks.Reasons.{
  cache_file_overlap, cache_files_require_cache, invalid_cache_file_pattern,
  TaskValidationDiagnostic, diagnostic, concat_map, report,
}

pub append-empty :
    {A : Type 0} (xs ys : List A) → (◌≡◌ {A = List A} (xs ++ ys) []) ↔ ((xs ≡ []) × (ys ≡ []))
append-empty [] ys = (λ h. (refl, h), λ (p, q). q)
append-empty (x ∷ xs) ys = (λ h. cc, λ (p, q). cc)

pub concat_map-empty :
    {A B : Type 0} (f : A → List B) (xs : List A)
    → (concat_map f xs ≡ []) ↔ ((x : A) → In x xs → f x ≡ [])
concat_map-empty f [] = (λ h x i. absurd i, λ h. refl)
concat_map-empty f (x ∷ xs) =
    let both = append-empty (f x) (concat_map f xs) in
    let rest = concat_map-empty f xs in
    (
      λ h y i. elim i [ inl q ↦ ap f q ∙ (both.0 h).0 | inr j ↦ rest.0 (both.0 h).1 y j ],
      λ h. both.1 (h x (inl refl), rest.1 (λ y i. h y (inr i))),
    )

pub report-empty : (b : Bool) (d : TaskValidationDiagnostic) → (report b d ≡ []) ↔ (b ≡ false)
report-empty true d = (λ h. cc, λ h. cc)
report-empty false d = (λ h. refl, λ h. refl)

pub not-false : {b : Bool} → b ≡ false → not b ≡ true
not-false h = rw h refl

pub not-true : {b : Bool} → b ≡ true → not b ≡ false
not-true h = rw h refl

pub false-not : {b : Bool} → not b ≡ true → b ≡ false
false-not h = ground arith

pub true_of_not : {b : Bool} → not b ≡ false → b ≡ true
true_of_not h = ground arith

cache_enabled_iff :
    (definition : TaskDefinition) → (cache_enabled definition ≡ true) ↔ (definition.cache ≢ none)
unfolding cache_enabled
cache_enabled_iff definition = elim (Option-cases definition.cache) [
  | inl missing ↦ (
    λ h. let off : cache_enabled definition ≡ false = rw (cache_enabled, missing) refl in cc,
    λ n. absurd (n missing),
  )
  | inr (c, found) ↦ (λ _ q. cc, λ _. rw (cache_enabled, found) refl)
]

plain-not : (pattern : String) → ¬ IsNegation pattern → not (is_negated pattern) ≡ true
plain-not pattern n = elim (Bool-cases (is_negated pattern)) [
  | inl negated ↦ absurd (n ((is_negated-IsNegation pattern).0 negated))
  | inr plain ↦ not-false plain
]

not-plain : (pattern : String) → not (is_negated pattern) ≡ true → ¬ IsNegation pattern
not-plain pattern h i = let negated = (is_negated-IsNegation pattern).1 i in cc (false-not h)

module _ (g : Globset) where
  -- A cache file and a pattern of the role, neither a negation, overlap only where a negation on the
  -- other side takes the one or the other out.
  abbrev pub IsApart : (cache_files role_patterns : List String) → Type 0
  IsApart cache_files role_patterns =
      (cache_file pattern : String)
      → In cache_file cache_files
      → ¬ IsNegation cache_file
      → In pattern role_patterns
      → ¬ IsNegation pattern
      → Overlaps g cache_file pattern
      → IsExcluded g cache_file role_patterns ⊎ IsExcluded g pattern cache_files

  -- A task with cache files is cached, and its cache files stay in the package, away from the inputs
  -- and the outputs.
  abbrev pub HasCacheFiles : TaskDefinition → Type 0
  HasCacheFiles definition =
      (definition.cache_files ≡ [])
      ⊎ ((definition.cache ≢ none)
          × ((pattern : String) → In pattern definition.cache_files → StaysInPackage pattern)
          × IsApart definition.cache_files definition.inputs
          × IsApart definition.cache_files definition.outputs)

  overlaps-IsApart :
      (i : TaskId) (definition : TaskDefinition) (role : String) (role_patterns : List String)
      → (validate_cache_file_role_overlaps g i definition role role_patterns ≡ [])
        ↔ IsApart definition.cache_files role_patterns
  unfolding validate_cache_file_role_overlaps
  overlaps-IsApart i definition role role_patterns =
      let kept =
        λ (pattern : String) (l : List String). In-filter (λ p. not (is_negated p)) pattern l in
      let inner = λ (cache_file : String).
        concat_map-empty
          (λ pattern.
            report (collides g definition.cache_files role_patterns cache_file pattern)
              (diagnostic i (cache_file_overlap cache_file role pattern)))
          (filter (λ p. not (is_negated p)) role_patterns) in
      let outer = concat_map-empty _ (filter (λ p. not (is_negated p)) definition.cache_files) in
      (
        λ h cache_file pattern j n k m.
            (collides_iff g definition.cache_files role_patterns cache_file pattern n m).0 (
              (report-empty _ _).0 (
                (inner cache_file).0
                  (outer.0 h cache_file
                    ((kept cache_file definition.cache_files).1 (j, plain-not cache_file n)))
                  pattern ((kept pattern role_patterns).1 (k, plain-not pattern m)))),
        λ h. outer.1 (λ cache_file j.
            let (j', n) = (kept cache_file definition.cache_files).0 j in
            (inner cache_file).1 (λ pattern k.
              let (k', m) = (kept pattern role_patterns).0 k in
              let n' = not-plain cache_file n in
              let m' = not-plain pattern m in
              (report-empty _ _).1 (
                (collides_iff g definition.cache_files role_patterns cache_file pattern n' m').1
                  (h cache_file pattern j' n' k' m')))),
      )

  cache_files_test :
      (i : TaskId) (definition : TaskDefinition)
      → (report (not (cache_enabled definition)) (diagnostic i cache_files_require_cache)
            ++ (concat_map
                  (λ pattern.
                    report
                      (not (cache_file_pattern_stays_in_package pattern))
                      (diagnostic i (invalid_cache_file_pattern pattern)))
                  definition.cache_files
                ++ (validate_cache_file_role_overlaps g i definition "input" definition.inputs
                    ++ validate_cache_file_role_overlaps g i definition "output"
                        definition.outputs))
          ≡ [])
        ↔ ((definition.cache ≢ none)
            × ((pattern : String) → In pattern definition.cache_files → StaysInPackage pattern)
            × IsApart definition.cache_files definition.inputs
            × IsApart definition.cache_files definition.outputs)
  cache_files_test i definition =
      let invalid =
        concat_map-empty
          (λ pattern.
            report (not (cache_file_pattern_stays_in_package pattern))
              (diagnostic i (invalid_cache_file_pattern pattern)))
          definition.cache_files in
      let inputs = overlaps-IsApart i definition "input" definition.inputs in
      let outputs = overlaps-IsApart i definition "output" definition.outputs in
      (
        λ h.
            let (cached, h') = (append-empty _ _).0 h in
            let (stays, h'') = (append-empty _ _).0 h' in
            let (first, second) = (append-empty _ _).0 h'' in
            (
              (cache_enabled_iff definition).0 (true_of_not ((report-empty _ _).0 cached)),
              λ pattern j.
                  (cache_file_pattern_stays_in_package-StaysInPackage pattern).0
                    (true_of_not ((report-empty _ _).0 (invalid.0 stays pattern j))),
              inputs.0 first,
              outputs.0 second,
            ),
        λ (cached, stays, first, second). (append-empty _ _).1 (
          (report-empty _ _).1 (not-true ((cache_enabled_iff definition).1 cached)),
          (append-empty _ _).1 (
            invalid.1 (λ pattern j. (report-empty _ _).1 (
                not-true (
                  (cache_file_pattern_stays_in_package-StaysInPackage pattern).1
                    (stays pattern j)))),
            (append-empty _ _).1 (inputs.1 first, outputs.1 second),
          ),
        ),
      )

  pub validate_cache_file_definition-HasCacheFiles :
      (i : TaskId) (definition : TaskDefinition)
      → (validate_cache_file_definition g i definition ≡ []) ↔ HasCacheFiles definition
  unfolding validate_cache_file_definition
  validate_cache_file_definition-HasCacheFiles i definition =
      let test = cache_files_test i definition in
      elim (List-cases definition.cache_files) [
        | inl empty ↦ (λ h. inl empty, λ h. absent definition.cache_files empty _)
        | inr (first, more, some_files) ↦ (
          λ h. inr (test.0 (sym (present definition.cache_files first more some_files _) ∙ h)),
          λ h. elim h [
            | inl empty ↦ absurd (clash first more (sym some_files ∙ empty))
            | inr sound ↦ present definition.cache_files first more some_files _ ∙ test.1 sound
          ],
        )
      ]
    where
      clash : (x : String) (xs : List String) → ◌≡◌ {A = List String} (x ∷ xs) [] → ⊥
      clash x xs h = cc

      absent :
          (files : List String)
          → files ≡ []
          → (rest : List TaskValidationDiagnostic) → (elim files [ [] ↦ [] | y ∷ ys ↦ rest ]) ≡ []
      absent files q rest = rw q refl

      present :
          (files : List String) (x : String) (xs : List String)
          → files ≡ x ∷ xs
          → (rest : List TaskValidationDiagnostic) → (elim files [ [] ↦ [] | y ∷ ys ↦ rest ]) ≡ rest
      present files x xs q rest = rw q refl

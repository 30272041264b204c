-- ===== src/TaskGraph/Checks/CacheFiles/Overlap.antt =====
-- When a cache file and a pattern of a role are in each other's way, stated on the patterns
-- (crates/luchta-engine/src/task_graph.rs).
use luchta.Prelude.{
  ◌≡◌, refl, sym, ap, ◌∙◌, subst, inl, inr, ◌⊎◌, ◌↔◌, Bool, true, false, not, ◌&&◌, ◌||◌, Result,
  ok, err, err_not_ok, ok-injective, List, In, In-any, any-In, filter, In-filter, String, string_eq,
  ◌==◌, eq_of_beq, beq_of_eq, arith,
}
use luchta.Types.{InputSemantics, literal, wildcard, classify_pattern}
use luchta.Glob.{Globset, split_negation, is_negated, unescape_literal}
use luchta.TaskGraph.Checks.CacheFiles.{
  is_literal, glob_matches, literal_matches_pattern, patterns_obviously_overlap,
  literal_is_excluded, literal_overlap_is_excluded, collides,
}
use luchta.TaskGraph.Checks.CacheFiles.Sound.{
  Negates, IsNegation, split_negation-cases, is_negated-IsNegation,
}

is_literal_iff : (s : InputSemantics) → (is_literal s ≡ true) ↔ (s ≡ literal)
is_literal_iff literal = (λ _. refl, λ _. refl)
is_literal_iff wildcard = (λ h. cc, λ h. cc)

-- Each of two tests, and either of them.
both : (a b : Bool) → ((a && b) ≡ true) ↔ ((a ≡ true) × (b ≡ true))
both a b = ground arith

either : (a b : Bool) → ((a || b) ≡ true) ↔ ((a ≡ true) ⊎ (b ≡ true))
either a b = ground arith

excused : (a b : Bool) → ((a && not b) ≡ false) ↔ (a ≡ true → b ≡ true)
excused true true = (λ _ _. refl, λ _. refl)
excused true false = (λ h. cc, λ f. let q = f refl in cc)
excused false b = (λ _ h. cc, λ _. refl)

module _ (g : Globset) where
  -- The pattern is a glob, and the path matches it.
  abbrev pub GlobMatches : (pattern path : String) → Type 0
  GlobMatches pattern path =
      (glob : g.Glob) × (g.build_path_glob pattern ≡ ok glob) × (g.glob_is_match glob path ≡ true)

  -- The first pattern is the name of one file, which the second one matches.
  abbrev pub NamesMatch : (name pattern : String) → Type 0
  NamesMatch name pattern =
      (classify_pattern name ≡ literal) × GlobMatches pattern (unescape_literal name)

  abbrev pub Overlaps : String → String → Type 0
  Overlaps left right = (left ≡ right) ⊎ (NamesMatch left right ⊎ NamesMatch right left)

  -- The name of one file, which a negation among the patterns takes out.
  abbrev pub IsExcluded : (name : String) (patterns : List String) → Type 0
  IsExcluded name patterns =
      (classify_pattern name ≡ literal)
      × ((pattern body : String) × In pattern patterns
          × Negates pattern body
          × GlobMatches body (unescape_literal name))

  glob_matches-GlobMatches :
      (pattern path : String) → (glob_matches g pattern path ≡ true) ↔ GlobMatches pattern path
  glob_matches-GlobMatches pattern path = go (g.build_path_glob pattern)
    where
      go :
          (r : Result g.Glob g.GlobError)
          → ((elim r [ ok glob ↦ g.glob_is_match glob path | err e ↦ false ]) ≡ true)
            ↔ ((glob : g.Glob) × (r ≡ ok glob) × (g.glob_is_match glob path ≡ true))
      go (ok glob) = (
        λ h. (glob, refl, h),
        λ (other, q, h).
            subst (λ x. g.glob_is_match x path ≡ true) (sym (ok-injective glob other q)) h,
      )
      go (err e) = (λ h. cc, λ (glob, q, h). absurd (err_not_ok q))

  literal_matches_pattern-NamesMatch :
      (name pattern : String)
      → (literal_matches_pattern g name pattern ≡ true) ↔ NamesMatch name pattern
  unfolding literal_matches_pattern
  literal_matches_pattern-NamesMatch name pattern =
      let split =
        both (is_literal (classify_pattern name))
          (glob_matches g pattern (unescape_literal name)) in
      let kind = is_literal_iff (classify_pattern name) in
      let match = glob_matches-GlobMatches pattern (unescape_literal name) in
      (
        λ h. let (k, m) = split.0 h in (kind.0 k, match.0 m),
        λ (k, m). split.1 (kind.1 k, match.1 m),
      )

  body_of_plain : (pattern : String) → ¬ IsNegation pattern → (split_negation pattern).1 ≡ pattern
  body_of_plain pattern n = elim (split_negation-cases pattern) [
    | inl (body, q, m) ↦ absurd (n (body, m))
    | inr (q, _) ↦ ap (λ (p : Bool × String). p.1) q
  ]

  body_of_negation :
      (pattern body : String) → Negates pattern body → (split_negation pattern).1 ≡ body
  body_of_negation pattern body m = elim (split_negation-cases pattern) [
    | inl (other, q, k) ↦ ap (λ (p : Bool × String). p.1) q ∙ same_body other body k m
    | inr (q, n) ↦ absurd (n (body, m))
  ]
    where
      same_body :
          (other body : String) → Negates pattern other → Negates pattern body → other ≡ body
      same_body other body k m = cc

  overlap_tests :
      (left right : String)
      → ((left == right
            || literal_matches_pattern g left right
            || literal_matches_pattern g right left)
          ≡ true)
        ↔ Overlaps left right
  overlap_tests left right =
      let outer =
        either (left == right || literal_matches_pattern g left right)
          (literal_matches_pattern g right left) in
      let inner = either (left == right) (literal_matches_pattern g left right) in
      let forth = literal_matches_pattern-NamesMatch left right in
      let back = literal_matches_pattern-NamesMatch right left in
      (
        λ h. elim (outer.0 h) [
          | inr r ↦ inr (inr (back.0 r))
          | inl h' ↦ elim (inner.0 h') [
            | inl same ↦ inl (eq_of_beq left right same)
            | inr l ↦ inr (inl (forth.0 l))
          ]
        ],
        λ h. elim h [
          | inl same ↦ outer.1 (inl (inner.1 (inl (beq_of_eq left right same))))
          | inr (inl l) ↦ outer.1 (inl (inner.1 (inr (forth.1 l))))
          | inr (inr r) ↦ outer.1 (inr (back.1 r))
        ],
      )

  patterns_obviously_overlap-Overlaps :
      (left right : String)
      → ¬ IsNegation left
      → ¬ IsNegation right
      → (patterns_obviously_overlap g left right ≡ true) ↔ Overlaps left right
  unfolding patterns_obviously_overlap
  patterns_obviously_overlap-Overlaps left right n m =
      rw (patterns_obviously_overlap, body_of_plain left n, body_of_plain right m)
        (overlap_tests left right)

  literal_is_excluded-IsExcluded :
      (name : String) (patterns : List String)
      → ((is_literal (classify_pattern name) && literal_is_excluded g name patterns) ≡ true)
        ↔ IsExcluded name patterns
  unfolding literal_is_excluded
  literal_is_excluded-IsExcluded name patterns =
      let split = both (is_literal (classify_pattern name)) (literal_is_excluded g name patterns) in
      let kind = is_literal_iff (classify_pattern name) in
      (
        λ h.
            let (k, e) = split.0 h in
            let (pattern, i, matched) = any-In _ (filter is_negated patterns) e in
            let (j, negated) = (In-filter is_negated pattern patterns).0 i in
            let (body, m) = (is_negated-IsNegation pattern).0 negated in
            (
              kind.0 k,
              (
                pattern,
                body,
                j,
                m,
                (glob_matches-GlobMatches body (unescape_literal name)).0 (
                    subst (λ b. glob_matches g b (unescape_literal name) ≡ true)
                      (body_of_negation pattern body m) matched),
              ),
            ),
        λ (k, (pattern, body, j, m, matched)). split.1 (
          kind.1 k,
          In-any _ pattern (filter is_negated patterns)
              ((In-filter is_negated pattern patterns).1
                (j, (is_negated-IsNegation pattern).1 (body, m)))
              (subst (λ b. glob_matches g b (unescape_literal name) ≡ true)
                (sym (body_of_negation pattern body m))
                ((glob_matches-GlobMatches body (unescape_literal name)).1 matched)),
        ),
      )

  literal_overlap_is_excluded_iff :
      (cache_file : String) (cache_files : List String) (pattern : String)
      (role_patterns : List String)
      → (literal_overlap_is_excluded g cache_file cache_files pattern role_patterns ≡ true)
        ↔ (IsExcluded cache_file role_patterns ⊎ IsExcluded pattern cache_files)
  unfolding literal_overlap_is_excluded
  literal_overlap_is_excluded_iff cache_file cache_files pattern role_patterns =
      let split =
        either
          (is_literal (classify_pattern cache_file)
            && literal_is_excluded g cache_file role_patterns)
          (is_literal (classify_pattern pattern) && literal_is_excluded g pattern cache_files) in
      let first = literal_is_excluded-IsExcluded cache_file role_patterns in
      let second = literal_is_excluded-IsExcluded pattern cache_files in
      (
        λ h. elim (split.0 h) [ inl a ↦ inl (first.0 a) | inr b ↦ inr (second.0 b) ],
        λ h. elim h [ inl a ↦ split.1 (inl (first.1 a)) | inr b ↦ split.1 (inr (second.1 b)) ],
      )

  -- They do not collide when each overlap is taken out by a negation of the other side.
  pub collides_iff :
      (cache_files role_patterns : List String) (cache_file pattern : String)
      → ¬ IsNegation cache_file
      → ¬ IsNegation pattern
      → (collides g cache_files role_patterns cache_file pattern ≡ false) ↔ (
          Overlaps cache_file pattern
          → IsExcluded cache_file role_patterns ⊎ IsExcluded pattern cache_files)
  collides_iff cache_files role_patterns cache_file pattern n m =
      let test =
        excused (patterns_obviously_overlap g cache_file pattern)
          (literal_overlap_is_excluded g cache_file cache_files pattern role_patterns) in
      let overlap = patterns_obviously_overlap-Overlaps cache_file pattern n m in
      let out = literal_overlap_is_excluded_iff cache_file cache_files pattern role_patterns in
      (λ h o. out.0 (test.0 h (overlap.1 o)), λ f. test.1 (λ h. out.1 (f (overlap.0 h))))

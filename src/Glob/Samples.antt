-- ===== src/Glob/Samples.antt =====
-- Patterns with a negation (crates/luchta-glob/src/lib.rs), over globs that match what they spell.
use luchta.Prelude.{
  ◌≡◌, refl, ◌↔◌, true, false, Result, ok, List, [], ◌∷◌, String, string_eq, any, ◌==◌,
}
use luchta.Text.{strip_prefix}
use luchta.Glob.{
  Globset, IsGlobset, PathMatcher, split_negation, unescape_literal, route_patterns, new, is_match,
}
use luchta.Glob.Matching.{Matched, is_match-new}

abbrev pub spelled : Globset
spelled = record {
  Glob = String;
  GlobSet = List String;
  GlobError = Unit;
  build_path_glob = λ pattern. ok pattern;
  glob_is_match = λ glob path. glob == path;
  build_set = λ globs. ok globs;
  set_is_match = λ globs path. any (λ glob. glob == path) globs;
}

spelled-IsGlobset : IsGlobset spelled
spelled-IsGlobset = record { set_any = λ globs set h path. same_globs globs set h path }
  where
    same_globs :
        (globs set : List String)
        → ◌≡◌ {A = Result (List String) (Unit {0})} (ok globs) (ok set)
        → (path : String) → any (λ glob. glob == path) set ≡ any (λ glob. glob == path) globs
    same_globs globs set h path = cc

abbrev patterns : List String
patterns = "!b" ∷ "a" ∷ "b" ∷ []

abbrev matcher : PathMatcher spelled
matcher = record { includes = "a" ∷ "b" ∷ []; excludes = "b" ∷ [] }

program : Unit {0}
unfolding split_negation route_patterns new is_match strip_prefix unescape_literal
program = tt

matcher_built : new spelled patterns ≡ ok matcher
unfolding program
matcher_built = refl

excluded : is_match spelled matcher "b" ≡ false
unfolding program
excluded = refl

unescaped : unescape_literal "\\!important.txt" ≡ "!important.txt"
unfolding program
unescaped = refl

is_match-new_example :
    (is_match spelled matcher "a" ≡ true)
    ↔ (Matched spelled false patterns "a" × (¬ Matched spelled true patterns "a"))
is_match-new_example = is_match-new spelled spelled-IsGlobset patterns matcher "a" matcher_built

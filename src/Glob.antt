-- ===== src/Glob.antt =====
-- crates/luchta-glob/src/lib.rs: patterns, negation and escapes. Matching itself is the crate globset,
-- which is not part of the repository: its operations are the record Globset.
pub mod Matching
pub mod Samples
use Prim.Native.Char.{Char, code}
use luchta.Prelude.{
  ℕ, ◌≡◌, Bool, true, false, not, ◌&&◌, Option, none, some, Result, ok, err, ◌>>=◌, List, [], ◌∷◌,
  String, any, nat_beq, if◌then◌else◌,
}
use luchta.Text.{strip_prefix}

-- Whether the pattern is negated, with what follows the `!`.
unfoldable pub split_negation : String → Bool × String
split_negation pattern = elim (strip_prefix "!" pattern) [
  | some body ↦ (true, body)
  | none ↦ (false, pattern)
]

unfoldable pub is_negated : String → Bool
unfolding split_negation
is_negated pattern = (split_negation pattern).0

-- A backslash gives way to what it escapes; one at the end stays.
unfoldable pub unescape_literal : String → String
unescape_literal String.[] = String.[]
unescape_literal (String.◌∷◌ c String.[]) = String.◌∷◌ c String.[]
unescape_literal (String.◌∷◌ c (String.◌∷◌ d s)) =
    let escaped = String.◌∷◌ d (unescape_literal s) in
    let plain = String.◌∷◌ c (unescape_literal (String.◌∷◌ d s)) in
    if nat_beq (code c) 92 then escaped else plain

-- The crate globset, with the settings of `build_path_glob`.
pub record Globset : Type 1 where
  pub Glob : Type 0
  pub GlobSet : Type 0
  pub GlobError : Type 0
  pub build_path_glob : String → Result Glob GlobError
  pub glob_is_match : Glob → String → Bool
  pub build_set : List Glob → Result GlobSet GlobError
  pub set_is_match : GlobSet → String → Bool

-- What globset documents of a set: a path matches when one of the globs matches.
pub record IsGlobset (g : Globset) : Type 0 where
  pub set_any :
      (globs : List g.Glob) (set : g.GlobSet)
      → g.build_set globs ≡ ok set
      → (path : String) → g.set_is_match set path ≡ any (λ glob. g.glob_is_match glob path) globs

module _ (g : Globset) where
  pub record PathMatcher : Type 0 where
    pub includes : g.GlobSet
    pub excludes : g.GlobSet

  -- The loop of `new`: the globs of the includes and of the excludes, which are added at the end.
  unfoldable pub route_patterns : List String → Result (List g.Glob × List g.Glob) g.GlobError
  unfolding split_negation
  route_patterns [] = ok ([], [])
  route_patterns (pattern ∷ patterns) =
      let (negated, body) = split_negation pattern in
      do
        glob ← g.build_path_glob body
        (includes, excludes) ← route_patterns patterns
        ok (if negated then (includes, glob ∷ excludes) else (glob ∷ includes, excludes))

  unfoldable pub new : List String → Result PathMatcher g.GlobError
  unfolding route_patterns
  new patterns = do
    (include_globs, exclude_globs) ← route_patterns patterns
    include_set ← g.build_set include_globs
    exclude_set ← g.build_set exclude_globs
    ok (record { includes = include_set; excludes = exclude_set })

  unfoldable pub is_match : PathMatcher → String → Bool
  is_match m path = g.set_is_match m.includes path && not (g.set_is_match m.excludes path)

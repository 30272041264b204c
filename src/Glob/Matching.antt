-- ===== src/Glob/Matching.antt =====
-- What a matcher of path patterns matches (crates/luchta-glob/src/lib.rs).
use luchta.Prelude.{
  ◌≡◌, refl, sym, subst, ap, ◌∙◌, inl, inr, ◌⊎◌, ◌↔◌, Bool, true, false, not, ◌&&◌, ok, bind-ok,
  ok-injective, List, [], ◌∷◌, String, any, In, Bool-cases, arith, if◌then◌else◌,
}
use luchta.Glob.{Globset, IsGlobset, PathMatcher, split_negation, route_patterns, new, is_match}

module _ (g : Globset) where
  -- One of the patterns, negated or not as said, has a glob that matches the path.
  abbrev pub Matched : (negated : Bool) → List String → String → Type 0
  Matched negated patterns path =
      (pattern : String) × In pattern patterns
      × ((split_negation pattern).0 ≡ negated)
      × ((glob : g.Glob) × (g.build_path_glob (split_negation pattern).1 ≡ ok glob)
          × (g.glob_is_match glob path ≡ true))

  -- The globs on one side are those of the patterns on that side.
  abbrev Routed : (negated : Bool) → List String → List g.Glob → Type 0
  Routed negated patterns globs =
      (path : String)
      → (any (λ glob. g.glob_is_match glob path) globs ≡ true) ↔ Matched negated patterns path

  Matched-more :
      (negated : Bool) (pattern : String) (patterns : List String) (glob : g.Glob) (path : String)
      → g.build_path_glob (split_negation pattern).1 ≡ ok glob
      → Matched negated (pattern ∷ patterns) path ↔ (
          (((split_negation pattern).0 ≡ negated) × (g.glob_is_match glob path ≡ true))
          ⊎ Matched negated patterns path)
  Matched-more negated pattern patterns glob path b = (
    λ (p, i, n, (glob', b', h)). elim i [
      | inr j ↦ inr (p, j, n, (glob', b', h))
      | inl q ↦
          let same : glob' ≡ glob =
            ok-injective glob' glob
              (sym b' ∙ (ap (λ z. g.build_path_glob (split_negation z).1) q ∙ b)) in
          inl (
            ap (λ z. (split_negation z).0) (sym q) ∙ n,
            ap (λ z. g.glob_is_match z path) (sym same) ∙ h,
          )
    ],
    λ e. elim e [
      | inl (n, h) ↦ (pattern, inl refl, n, (glob, b, h))
      | inr (p, j, n, rest) ↦ (p, inr j, n, rest)
    ],
  )

  any-more :
      (glob : g.Glob) (globs : List g.Glob) (path : String)
      → (any (λ z. g.glob_is_match z path) (glob ∷ globs) ≡ true)
        ↔ ((g.glob_is_match glob path ≡ true) ⊎ (any (λ z. g.glob_is_match z path) globs ≡ true))
  any-more glob globs path = ground arith

  abbrev Sorted : List String → List g.Glob × List g.Glob → Type 0
  Sorted patterns globs = Routed false patterns (globs.0) × Routed true patterns (globs.1)

  module _ (pattern : String) (patterns : List String) (glob : g.Glob)
      (b : g.build_path_glob (split_negation pattern).1 ≡ ok glob) (negated : Bool)
      (globs : List g.Glob) (routed : Routed negated patterns globs) where
    -- The glob of the pattern goes to its own side.
    Routed-own :
        (split_negation pattern).0 ≡ negated → Routed negated (pattern ∷ patterns) (glob ∷ globs)
    Routed-own n path = ground (
      arith,
      Matched-more negated pattern patterns glob path b,
      any-more glob globs path,
      routed path,
    )

    Routed-other :
        ¬ ((split_negation pattern).0 ≡ negated) → Routed negated (pattern ∷ patterns) globs
    Routed-other n path =
        let more = Matched-more negated pattern patterns glob path b in
        (
          λ h. more.1 (inr ((routed path).0 h)),
          λ m. elim (more.0 m) [ inl (q, h) ↦ absurd (n q) | inr k ↦ (routed path).1 k ],
        )

  Sorted-more :
      (pattern : String) (patterns : List String) (glob : g.Glob) (includes excludes : List g.Glob)
      → g.build_path_glob (split_negation pattern).1 ≡ ok glob
      → Sorted patterns (includes, excludes)
      → Sorted (pattern ∷ patterns) (
          if (split_negation pattern).0
          then (includes, glob ∷ excludes)
          else (glob ∷ includes, excludes))
  Sorted-more pattern patterns glob includes excludes b (kept, dropped) =
      elim (Bool-cases (split_negation pattern).0) [
        | inl n ↦ rw n (
          Routed-other pattern patterns glob b false includes kept (λ q. clash n q),
          Routed-own pattern patterns glob b true excludes dropped n,
        )
        | inr n ↦ rw n (
          Routed-own pattern patterns glob b false includes kept n,
          Routed-other pattern patterns glob b true excludes dropped (λ q. clash q n),
        )
      ]
    where
      clash : {c : Bool} → c ≡ true → c ≡ false → ⊥
      clash s t = cc

  route_patterns-Sorted :
      (patterns : List String) (globs : List g.Glob × List g.Glob)
      → route_patterns g patterns ≡ ok globs
      → Sorted patterns globs
  unfolding route_patterns
  route_patterns-Sorted [] globs h = subst (Sorted []) (ok-injective ([], []) globs h) (
    λ path. (λ q. absurd (empty q), λ (p, i, n, m). absurd i),
    λ path. (λ q. absurd (empty q), λ (p, i, n, m). absurd i),
  )
    where
      empty : false ≡ true → ⊥
      empty q = cc
  route_patterns-Sorted (pattern ∷ patterns) globs h =
      let (glob, b, h') = bind-ok (g.build_path_glob (split_negation pattern).1) _ globs h in
      let ((includes, excludes), r, h'') = bind-ok (route_patterns g patterns) _ globs h' in
      subst (Sorted (pattern ∷ patterns)) (ok-injective _ globs h'') (
        Sorted-more pattern patterns glob includes excludes b
          (route_patterns-Sorted patterns (includes, excludes) r))

  -- For globset sets that match what one of their globs matches: a matcher that is built of patterns
  -- matches a path exactly when one of the patterns without `!` matches it, and none of those with
  -- `!` does, whatever their order.
  pub is_match-new :
      IsGlobset g
      → (patterns : List String) (m : PathMatcher g) (path : String) → new g patterns ≡ ok m
      → (is_match g m path ≡ true) ↔ (Matched false patterns path × (¬ Matched true patterns path))
  unfolding new is_match
  is_match-new laws patterns m path h =
      let ((includes, excludes), r, h') = bind-ok (route_patterns g patterns) _ m h in
      let (include_set, i, h'') = bind-ok (g.build_set includes) _ m h' in
      let (exclude_set, x, e) = bind-ok (g.build_set excludes) _ m h'' in
      let same = ok-injective (record { includes = include_set; excludes = exclude_set }) m e in
      let (kept, dropped) = route_patterns-Sorted patterns (includes, excludes) r in
      subst
        (λ (z : PathMatcher g).
          (g.set_is_match z.includes path && not (g.set_is_match z.excludes path) ≡ true)
          ↔ (Matched false patterns path × (¬ Matched true patterns path)))
        same
        (ground (
          arith,
          laws.set_any includes include_set i path,
          laws.set_any excludes exclude_set x path,
          kept path,
          dropped path,
        ))

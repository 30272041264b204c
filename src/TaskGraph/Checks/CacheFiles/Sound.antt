-- ===== src/TaskGraph/Checks/CacheFiles/Sound.antt =====
-- Patterns that stay in their package and patterns that overlap, stated on the texts
-- (crates/luchta-engine/src/task_graph.rs).
use Prim.Native.Char.{code}
use text.Mathlib.TextEquality.{Char-path}
use luchta.Prelude.{
  ◌≡◌, ◌≢◌, refl, sym, ap, ◌∙◌, subst, inl, inr, ◌⊎◌, ◌↔◌, Bool, true, false, ◌||◌, some,
  none_not_some, Option-cases, List, [], ◌∷◌, ◌++◌, In, any, String, string_eq, ◌==◌, eq_of_beq,
  beq_of_eq, nat_beq_iff, Bool-cases,
}
use luchta.Text.{append, is_empty, strip_prefix, strip_prefix-eq, strip_prefix-append}
use luchta.Glob.{split_negation, is_negated}
use luchta.InputExpansion.Paths.{
  Component, split_slashes, parts_components, starts_with_slash, leading_dot, components,
}
use luchta.TaskGraph.Checks.CacheFiles.{
  leads_out, pattern_stays_in_package, cache_file_pattern_stays_in_package,
}

-- The pattern is a `!` with the body.
abbrev pub Negates : (pattern body : String) → Type 0
Negates pattern body = pattern ≡ append "!" body

abbrev pub IsNegation : String → Type 0
IsNegation pattern = (body : String) × Negates pattern body

-- No absolute path, and no `..` between two slashes or at an end.
abbrev pub IsInside : String → Type 0
IsInside path =
    (¬ ((rest : String) × (path ≡ append "/" rest)))
    × ((part : String) → In part (split_slashes path) → part ≢ "..")

-- The pattern, or what follows its `!`, stays inside.
abbrev pub StaysInPackage : String → Type 0
StaysInPackage pattern =
    ((body : String) → Negates pattern body → IsInside body)
    × ((¬ IsNegation pattern) → IsInside pattern)

pub split_negation-cases :
    (pattern : String)
    → ((body : String) × (split_negation pattern ≡ (true, body)) × Negates pattern body)
      ⊎ ((split_negation pattern ≡ (false, pattern)) × (¬ IsNegation pattern))
unfolding split_negation
split_negation-cases pattern = elim (Option-cases (strip_prefix "!" pattern)) [
  | inr (body, found) ↦
      inl (body, rw (split_negation, found) refl, strip_prefix-eq "!" pattern body found)
  | inl missing ↦ inr (
    rw (split_negation, missing) refl,
    λ (body, q).
        let found =
          subst (λ s. strip_prefix "!" s ≡ some body) (sym q) (strip_prefix-append "!" body) in
        absurd (none_not_some (sym missing ∙ found)),
  )
]

pub is_negated-IsNegation : (pattern : String) → (is_negated pattern ≡ true) ↔ IsNegation pattern
unfolding is_negated
is_negated-IsNegation pattern = elim (split_negation-cases pattern) [
  | inl (body, q, n) ↦ (λ _. (body, n), λ _. ap (λ (p : Bool × String). p.0) q)
  | inr (q, n) ↦ (
    λ h. let f : is_negated pattern ≡ false = ap (λ (p : Bool × String). p.0) q in cc,
    λ i. absurd (n i),
  )
]

starts_with_slash_iff :
    (path : String) → (starts_with_slash path ≡ true) ↔ ((rest : String) × (path ≡ append "/" rest))
starts_with_slash_iff String.[] = (λ h. cc, λ (rest, q). cc)
starts_with_slash_iff (String.◌∷◌ c s) = (
  λ h. (s, ap (λ x. String.◌∷◌ x s) (Char-path c _ ((nat_beq_iff (code c) 47).0 h))),
  λ (rest, q). subst (λ p. starts_with_slash p ≡ true) (sym q) refl,
)

-- A part `..` is the only one that leads out.
dots_of_parts :
    (parts : List String) → (any leads_out (parts_components parts) ≡ true) ↔ In ".." parts
unfolding parts_components
dots_of_parts [] = (λ h. cc, λ i. absurd i)
dots_of_parts (part ∷ parts) =
    let ih = dots_of_parts parts in
    elim (Bool-cases (part == "..")) [
      | inl up ↦
          let q = eq_of_beq part ".." up in
          (
            λ _. inl (sym q),
            λ _. subst (λ s. any leads_out (parts_components (s ∷ parts)) ≡ true) (sym q) refl,
          )
      | inr other ↦
          let n : ¬ (◌≡◌ {A = String} ".." part) = λ q. let h = beq_of_eq part ".." (sym q) in cc in
          let plain = plain_part part parts other in
          (
            λ h. inr (ih.0 (sym plain ∙ h)),
            λ i. plain ∙ ih.1 (elim i [ inl q ↦ absurd (n q) | inr j ↦ j ]),
          )
    ]
  where
    plain_part :
        (part : String) (parts : List String)
        → (part == "..") ≡ false
        → any leads_out (parts_components (part ∷ parts)) ≡ any leads_out (parts_components parts)
    plain_part part parts other = elim (Bool-cases (is_empty part || part == ".")) [
      | inl skipped ↦ rw skipped refl
      | inr named ↦ rw (named, other) refl
    ]

leading_dot-stays :
    (parts : List String) (cs : List Component)
    → any leads_out (leading_dot parts ++ cs) ≡ any leads_out cs
leading_dot-stays [] cs = refl
leading_dot-stays (part ∷ parts) cs = elim (Bool-cases (part == ".")) [
  | inl dot ↦ rw dot refl
  | inr other ↦ rw other refl
]

pattern_stays_in_package-IsInside :
    (path : String) → (pattern_stays_in_package path ≡ true) ↔ IsInside path
unfolding pattern_stays_in_package components
pattern_stays_in_package-IsInside path = elim (Bool-cases (starts_with_slash path)) [
  | inl absolute ↦
      rw absolute (λ h. cc, λ (n, _). absurd (n ((starts_with_slash_iff path).0 absolute)))
  | inr relative ↦
      let dots = dots_of_parts (split_slashes path) in
      let no_root : ¬ ((rest : String) × (path ≡ append "/" rest)) =
        λ r. let h = (starts_with_slash_iff path).1 r in cc in
      rw (relative, leading_dot-stays (split_slashes path) (parts_components (split_slashes path)))
        (elim (Bool-cases (any leads_out (parts_components (split_slashes path)))) [
          | inl out ↦ rw out (λ h. cc, λ (_, none_up). absurd (none_up ".." (dots.0 out) refl))
          | inr stays ↦ rw stays (
            λ _. (
              no_root,
              λ part i q. let up = dots.1 (subst (λ s. In s (split_slashes path)) q i) in cc,
            ),
            λ _. refl,
          )
        ])
]

pub cache_file_pattern_stays_in_package-StaysInPackage :
    (pattern : String)
    → (cache_file_pattern_stays_in_package pattern ≡ true) ↔ StaysInPackage pattern
unfolding cache_file_pattern_stays_in_package
cache_file_pattern_stays_in_package-StaysInPackage pattern = elim (split_negation-cases pattern) [
  | inl (body, q, n) ↦
      let test = pattern_stays_in_package-IsInside body in
      rw (cache_file_pattern_stays_in_package, q)
        (
          λ h. (
            λ other m. subst IsInside (same_body body other n m) (test.0 h),
            λ no. absurd (no (body, n)),
          ),
          λ (inside, _). test.1 (inside body n),
        )
  | inr (q, n) ↦
      let test = pattern_stays_in_package-IsInside pattern in
      rw (cache_file_pattern_stays_in_package, q)
        (λ h. (λ other m. absurd (n (other, m)), λ _. test.0 h), λ (_, inside). test.1 (inside n))
]
  where
    same_body : (body other : String) → Negates pattern body → Negates pattern other → body ≡ other
    same_body body other n m = cc

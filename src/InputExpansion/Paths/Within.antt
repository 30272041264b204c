-- ===== src/InputExpansion/Paths/Within.antt =====
-- A path that starts with a directory after it is normalized stays in it
-- (crates/luchta-engine/src/input_expansion.rs).
use luchta.Prelude.{
  ◌≡◌, refl, subst, ap, ◌∙◌, inl, inr, Bool, true, false, List, [], ◌∷◌, ◌++◌, String, string_eq,
  eq_of_beq, Bool-cases, arith,
}
use luchta.InputExpansion.Paths.{
  Component, root_dir, cur_dir, parent_dir, normal, component_beq, last, pop, ends_normal,
  normalize, lexical_normalize, components, starts_with,
}

abbrev pub AllNormal : List Component → Type 0
AllNormal [] = Unit
AllNormal (normal s ∷ cs) = AllNormal cs
AllNormal (_ ∷ cs) = ⊥

-- After a name there are only names.
abbrev IsSettled : List Component → Type 0
IsSettled [] = Unit
IsSettled (normal s ∷ cs) = AllNormal cs
IsSettled (_ ∷ cs) = IsSettled cs

AllNormal-concat :
    (cs : List Component) (s : String) → AllNormal cs → AllNormal (cs ++ normal s ∷ [])
AllNormal-concat [] s a = tt
AllNormal-concat (normal t ∷ cs) s a = AllNormal-concat cs s a
AllNormal-concat (root_dir ∷ cs) s a = absurd a
AllNormal-concat (cur_dir ∷ cs) s a = absurd a
AllNormal-concat (parent_dir ∷ cs) s a = absurd a

IsSettled-concat :
    (cs : List Component) (s : String) → IsSettled cs → IsSettled (cs ++ normal s ∷ [])
IsSettled-concat [] s a = tt
IsSettled-concat (normal t ∷ cs) s a = AllNormal-concat cs s a
IsSettled-concat (root_dir ∷ cs) s a = IsSettled-concat cs s a
IsSettled-concat (cur_dir ∷ cs) s a = IsSettled-concat cs s a
IsSettled-concat (parent_dir ∷ cs) s a = IsSettled-concat cs s a

AllNormal-pop : (cs : List Component) → AllNormal cs → AllNormal (pop cs)
unfolding pop
AllNormal-pop [] a = tt
AllNormal-pop (c ∷ []) a = tt
AllNormal-pop (normal s ∷ d ∷ cs) a = AllNormal-pop (d ∷ cs) a
AllNormal-pop (root_dir ∷ d ∷ cs) a = absurd a
AllNormal-pop (cur_dir ∷ d ∷ cs) a = absurd a
AllNormal-pop (parent_dir ∷ d ∷ cs) a = absurd a

IsSettled-pop : (cs : List Component) → IsSettled cs → IsSettled (pop cs)
unfolding pop
IsSettled-pop [] a = tt
IsSettled-pop (c ∷ []) a = tt
IsSettled-pop (normal s ∷ d ∷ cs) a = AllNormal-pop (d ∷ cs) a
IsSettled-pop (root_dir ∷ d ∷ cs) a = IsSettled-pop (d ∷ cs) a
IsSettled-pop (cur_dir ∷ d ∷ cs) a = IsSettled-pop (d ∷ cs) a
IsSettled-pop (parent_dir ∷ d ∷ cs) a = IsSettled-pop (d ∷ cs) a

-- Names end in a name.
AllNormal-ends_normal :
    (s : String) (cs : List Component) → AllNormal cs → ends_normal (normal s ∷ cs) ≡ true
unfolding ends_normal last
AllNormal-ends_normal s [] a = refl
AllNormal-ends_normal s (normal t ∷ cs) a = AllNormal-ends_normal t cs a
AllNormal-ends_normal s (root_dir ∷ cs) a = absurd a
AllNormal-ends_normal s (cur_dir ∷ cs) a = absurd a
AllNormal-ends_normal s (parent_dir ∷ cs) a = absurd a

IsSettled-parent :
    (cs : List Component)
    → ends_normal cs ≡ false
    → IsSettled cs
    → IsSettled (cs ++ parent_dir ∷ [])
unfolding ends_normal last
IsSettled-parent [] h a = tt
IsSettled-parent (normal s ∷ cs) h a = absurd (clash (AllNormal-ends_normal s cs a) h)
  where
    clash : {b : Bool} → b ≡ true → b ≡ false → ⊥
    clash q r = cc
IsSettled-parent (root_dir ∷ []) h a = tt
IsSettled-parent (root_dir ∷ d ∷ cs) h a = IsSettled-parent (d ∷ cs) h a
IsSettled-parent (cur_dir ∷ []) h a = tt
IsSettled-parent (cur_dir ∷ d ∷ cs) h a = IsSettled-parent (d ∷ cs) h a
IsSettled-parent (parent_dir ∷ []) h a = tt
IsSettled-parent (parent_dir ∷ d ∷ cs) h a = IsSettled-parent (d ∷ cs) h a

normalize-IsSettled : (path cs : List Component) → IsSettled cs → IsSettled (normalize path cs)
unfolding normalize
normalize-IsSettled [] cs a = a
normalize-IsSettled (root_dir ∷ path) cs a = normalize-IsSettled path (root_dir ∷ []) tt
normalize-IsSettled (cur_dir ∷ path) cs a = normalize-IsSettled path cs a
normalize-IsSettled (parent_dir ∷ path) cs a = elim (Bool-cases (ends_normal cs)) [
  | inl up ↦ rw up (normalize-IsSettled path (pop cs) (IsSettled-pop cs a))
  | inr kept ↦
      rw kept (normalize-IsSettled path (cs ++ parent_dir ∷ []) (IsSettled-parent cs kept a))
]
normalize-IsSettled (normal s ∷ path) cs a =
    normalize-IsSettled path (cs ++ normal s ∷ []) (IsSettled-concat cs s a)

component_beq-eq : (c d : Component) → component_beq c d ≡ true → c ≡ d
component_beq-eq root_dir root_dir h = refl
component_beq-eq cur_dir cur_dir h = refl
component_beq-eq parent_dir parent_dir h = refl
component_beq-eq (normal s) (normal t) h = ap normal (eq_of_beq s t h)
component_beq-eq _ _ h = cc

starts_with-append :
    (path prefix : List Component)
    → starts_with path prefix ≡ true
    → (rest : List Component) × (path ≡ prefix ++ rest)
unfolding starts_with
starts_with-append path [] h = (path, refl)
starts_with-append [] (c ∷ prefix) h = cc
starts_with-append (d ∷ path) (c ∷ prefix) h =
    let (rest, q) = starts_with-append path prefix (ground arith) in
    let e : d ≡ c = component_beq-eq d c (ground arith) in
    (rest, ap (λ z. z ∷ path) e ∙ ap (λ l. c ∷ l) q)

AllNormal-append : (cs rest : List Component) → AllNormal (cs ++ rest) → AllNormal rest
AllNormal-append [] rest a = a
AllNormal-append (normal s ∷ cs) rest a = AllNormal-append cs rest a
AllNormal-append (root_dir ∷ cs) rest a = absurd a
AllNormal-append (cur_dir ∷ cs) rest a = absurd a
AllNormal-append (parent_dir ∷ cs) rest a = absurd a

IsSettled-append :
    (base rest : List Component)
    → ends_normal base ≡ true
    → IsSettled (base ++ rest)
    → AllNormal rest
unfolding ends_normal last
IsSettled-append [] rest h a = cc
IsSettled-append (normal s ∷ cs) rest h a = AllNormal-append cs rest a
IsSettled-append (root_dir ∷ []) rest h a = cc
IsSettled-append (root_dir ∷ d ∷ cs) rest h a = IsSettled-append (d ∷ cs) rest h a
IsSettled-append (cur_dir ∷ []) rest h a = cc
IsSettled-append (cur_dir ∷ d ∷ cs) rest h a = IsSettled-append (d ∷ cs) rest h a
IsSettled-append (parent_dir ∷ []) rest h a = cc
IsSettled-append (parent_dir ∷ d ∷ cs) rest h a = IsSettled-append (d ∷ cs) rest h a

-- The path leads from the directory down, by names only.
abbrev pub IsWithin : (path base : List Component) → Type 0
IsWithin path base = (rest : List Component) × (path ≡ base ++ rest) × AllNormal rest

pub lexical_normalize-IsWithin :
    (path : String) (base : List Component)
    → ends_normal base ≡ true
    → starts_with (lexical_normalize path) base ≡ true
    → IsWithin (lexical_normalize path) base
unfolding lexical_normalize
lexical_normalize-IsWithin path base named h =
    let (rest, q) = starts_with-append (normalize (components path) []) base h in
    (
      rest,
      q,
      IsSettled-append base rest named
          (subst IsSettled q (normalize-IsSettled (components path) [] tt)),
    )

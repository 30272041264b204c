-- ===== src/Prelude/Lists.antt =====
-- Lists: membership by recursion, Boolean searches that run, native lengths.
use Prim.Native.Nat.{ℕ, zero, suc, ◌+◌, ◌≤◌}
use mathlib.Core.Path.{◌≡◌, refl, sym, ap}
use mathlib.Core.Logic.{◌⊎◌, inl, inr, ◌↔◌}
use mathlib.Core.Bool.{Bool, true, false, ◌||◌, ◌&&◌}
use mathlib.Core.List.{List, [], ◌∷◌, ◌++◌, map}
use native.Mathlib.Omega.{arith}
use luchta.Prelude.Tests.{ltb, lt→ltb, if◌then◌else◌, Bool-cases}
use luchta.Prelude.Classes.{PartialEq, ◌==◌}

module _ {ℓ} {A : Type ℓ} where
  abbrev pub length : List A → ℕ
  length [] = 0
  length (x ∷ xs) = suc (length xs)

  pub length-append : (xs ys : List A) → length (xs ++ ys) ≡ length xs + length ys
  length-append [] ys = omega arith
  length-append (x ∷ xs) ys = omega (arith, length-append xs ys)

  abbrev pub any : (A → Bool) → List A → Bool
  any p [] = false
  any p (x ∷ xs) = p x || any p xs

  abbrev pub all : (A → Bool) → List A → Bool
  all p [] = true
  all p (x ∷ xs) = p x && all p xs

  abbrev pub filter : (A → Bool) → List A → List A
  filter p [] = []
  filter p (x ∷ xs) = if p x then x ∷ filter p xs else filter p xs

  pub List-cases : (xs : List A) → (xs ≡ []) ⊎ ((x : A) × (rest : List A) × (xs ≡ x ∷ rest))
  List-cases [] = inl refl
  List-cases (x ∷ rest) = inr (x, rest, refl)

  pub append_nil : (xs : List A) → xs ++ [] ≡ xs
  append_nil [] = refl
  append_nil (x ∷ xs) = ap (λ ys. x ∷ ys) (append_nil xs)

  pub append_assoc : (xs : List A) (x : A) (ys : List A) → (xs ++ x ∷ []) ++ ys ≡ xs ++ x ∷ ys
  append_assoc [] x ys = refl
  append_assoc (y ∷ xs) x ys = ap (λ zs. y ∷ zs) (append_assoc xs x ys)

  unfoldable pub take : ℕ → List A → List A
  take zero _ = []
  take (suc limit) [] = []
  take (suc limit) (head ∷ tail) = head ∷ take limit tail

  pub take-nil : (n : ℕ) → take n [] ≡ []
  unfolding take
  take-nil zero = refl
  take-nil (suc n) = refl

  pub take-concat :
      (n : ℕ) (xs : List A) (x : A)
      → take n (xs ++ x ∷ [])
        ≡ (if ltb (length (take n xs)) n then take n xs ++ x ∷ [] else take n xs)
  unfolding take
  take-concat zero xs x = ground arith
  take-concat (suc n) [] x = rw (lt→ltb 0 (suc n) (omega arith)) (ap (λ ys. x ∷ ys) (take-nil n))
  take-concat (suc n) (y ∷ xs) x = ground (arith, take-concat n xs x)

  pub take-all : (n : ℕ) (xs : List A) → length xs ≤ n → take n xs ≡ xs
  unfolding take
  take-all zero [] h = refl
  take-all zero (x ∷ xs) h = absurd (omega arith)
  take-all (suc n) [] h = refl
  take-all (suc n) (x ∷ xs) h = ap (λ ys. x ∷ ys) (take-all n xs (omega arith))

module _ {ℓ} {A : Type ℓ} ⦃e : PartialEq A⦄ where
  abbrev pub contains : List A → A → Bool
  contains xs a = any (λ x. x == a) xs

-- Membership that the tactics take apart.
module _ {A : Type 0} where
  abbrev pub In : A → List A → Type 0
  In a [] = ⊥
  In a (x ∷ xs) = (a ≡ x) ⊎ In a xs

  pub In-append : (a : A) (xs ys : List A) → In a (xs ++ ys) ↔ (In a xs ⊎ In a ys)
  In-append a [] ys = (inr, λ m. elim m [ inl n ↦ absurd n | inr n ↦ n ])
  In-append a (x ∷ xs) ys = ground (arith, In-append a xs ys)

  pub In-any : (p : A → Bool) (a : A) (xs : List A) → In a xs → p a ≡ true → any p xs ≡ true
  In-any p a [] m h = absurd m
  In-any p a (x ∷ xs) (inl q) h = rw (← q) (rw h)
  In-any p a (x ∷ xs) (inr m) h = ground (arith, In-any p a xs m)

  pub any-In : (p : A → Bool) (xs : List A) → any p xs ≡ true → (a : A) × In a xs × (p a ≡ true)
  any-In p [] h = cc
  any-In p (x ∷ xs) h = elim (Bool-cases (p x)) [
    | inl now ↦ (x, inl refl, now)
    | inr later ↦ let (a, m, q) = any-In p xs (ground arith) in (a, inr m, q)
  ]

  pub all-In : (p : A → Bool) (xs : List A) → all p xs ≡ true → (a : A) → In a xs → p a ≡ true
  all-In p [] h a m = absurd m
  all-In p (x ∷ xs) h a (inl q) = rw q (ground arith)
  all-In p (x ∷ xs) h a (inr m) = all-In p xs (ground arith) a m

  pub all_of_In : (p : A → Bool) (xs : List A) → ((a : A) → In a xs → p a ≡ true) → all p xs ≡ true
  all_of_In p [] h = refl
  all_of_In p (x ∷ xs) h = rw (h x (inl refl)) (all_of_In p xs (λ a m. h a (inr m)))

  pub In-filter :
      (p : A → Bool) (a : A) (xs : List A) → In a (filter p xs) ↔ (In a xs × (p a ≡ true))
  In-filter p a [] = (λ m. absurd m, λ m. m.0)
  In-filter p a (x ∷ xs) = elim (Bool-cases (p x)) [
    | inl keep ↦ rw keep (
      λ m. elim m [
        | inl q ↦ (inl q, rw q keep)
        | inr r ↦ let t = (In-filter p a xs).0 r in (inr t.0, t.1)
      ],
      λ m. elim (m.0) [ inl q ↦ inl q | inr r ↦ inr ((In-filter p a xs).1 (r, m.1)) ],
    )
    | inr drop ↦ rw drop (
      λ m. let t = (In-filter p a xs).0 m in (inr t.0, t.1),
      λ m. elim (m.0) [
        | inl q ↦ absurd (clash (rw q at (m.1)) drop)
        | inr r ↦ (In-filter p a xs).1 (r, m.1)
      ],
    )
  ]
    where
      clash : {b : Bool} → b ≡ true → b ≡ false → ⊥
      clash s t = cc

  pub In-contains : ⦃e : PartialEq A⦄ → (a : A) (xs : List A) → In a xs → contains xs a ≡ true
  In-contains ⦃e⦄ a xs m = In-any (λ x. x == a) a xs m ((e.same_iff a a).1 refl)

  pub contains-In : ⦃e : PartialEq A⦄ → (a : A) (xs : List A) → contains xs a ≡ true → In a xs
  contains-In ⦃e⦄ a [] h = cc
  contains-In ⦃e⦄ a (x ∷ xs) h = elim (Bool-cases (x == a)) [
    | inl now ↦ inl (sym ((e.same_iff x a).0 now))
    | inr later ↦ inr (contains-In a xs (rw later at h))
  ]

  -- No element stands twice.
  abbrev pub Distinct : List A → Type 0
  Distinct [] = Unit
  Distinct (x ∷ xs) = (¬ In x xs) × Distinct xs

module _ {A : Type 0} where
  pub Distinct-concat : (a : A) (xs : List A) → ¬ In a xs → Distinct xs → Distinct (xs ++ a ∷ [])
  Distinct-concat a [] n d = (λ m. m, tt)
  Distinct-concat a (x ∷ xs) n d = (
    λ m. elim ((In-append x xs (a ∷ [])).0 m) [
      | inl old ↦ d.0 old
      | inr new ↦ elim new [ inl q ↦ n (inl (sym q)) | inr r ↦ r ]
    ],
    Distinct-concat a xs (λ m. n (inr m)) d.1,
  )

  pub filter-Distinct : (p : A → Bool) (xs : List A) → Distinct xs → Distinct (filter p xs)
  filter-Distinct p [] d = tt
  filter-Distinct p (x ∷ xs) d = elim (Bool-cases (p x)) [
    | inl keep ↦ rw keep ((λ m. d.0 ((In-filter p x xs).0 m).0), filter-Distinct p xs d.1)
    | inr drop ↦ rw drop (filter-Distinct p xs d.1)
  ]

module _ {A B : Type 0} (f : A → B) where
  pub In-map : (a : A) (xs : List A) → In a xs → In (f a) (map f xs)
  In-map a [] m = m
  In-map a (x ∷ xs) (inl q) = inl (ap f q)
  In-map a (x ∷ xs) (inr m) = inr (In-map a xs m)

  pub map-In : (b : B) (xs : List A) → In b (map f xs) → (a : A) × In a xs × (b ≡ f a)
  map-In b [] m = absurd m
  map-In b (x ∷ xs) (inl q) = (x, inl refl, q)
  map-In b (x ∷ xs) (inr m) = let (a, r, q) = map-In b xs m in (a, inr r, q)

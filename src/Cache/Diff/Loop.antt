-- ===== src/Cache/Diff/Loop.antt =====
-- The loop of `files_diff` goes through the changed paths, each once
-- (crates/luchta-cache/src/decide.rs).
use Prim.Native.String.{compare as compare_str}
use luchta.Prelude.{
  ℕ, suc, ◌≤◌, min, ◌≡◌, refl, subst, ap, Bool, true, false, inl, inr, ◌↔◌, List, [], ◌∷◌, ◌++◌,
  String, string_eq, ◌==◌, arith, map, contains, contains-In, In-contains, In, In-append,
  append_assoc, Distinct, length, length-append, take, take-nil, take-concat, ltb, if◌then◌else◌,
  Bool-cases, Option-cases,
}
use luchta.Prelude.Maps.{lookup, keys, In-keys_of_lookup}
use luchta.Prelude.Sort.{In-sort_by}
use luchta.Cache.{FileEntry, FileDelta}
use luchta.Cache.Diff.{
  path_changed, by_path, tree_keys, u32_max, saturating_add, delta, Diffing, visit_path,
  visit_paths, files_diff,
}

-- The test of the loop, on the two lists.
abbrev pub is_changed : (prior current : List FileEntry) → String → Bool
is_changed prior current path =
    path_changed (lookup path (by_path prior)) (lookup path (by_path current))

abbrev pub delta_at : (prior current : List FileEntry) → String → FileDelta
delta_at prior current path =
    delta path (lookup path (by_path prior)) (lookup path (by_path current))

-- The elements that satisfy `p`, each once, without those of `seen`.
unfoldable fresh : (String → Bool) → List String → (seen : List String) → List String
fresh p [] seen = []
fresh p (x ∷ xs) seen =
    if contains seen x
    then fresh p xs seen
    else if p x
    then x ∷ fresh p xs (x ∷ seen)
    else fresh p xs (x ∷ seen)

In-fresh :
    (p : String → Bool) (a : String) (xs seen : List String)
    → In a (fresh p xs seen) ↔ (In a xs × (¬ In a seen) × (p a ≡ true))
unfolding fresh
In-fresh p a [] seen = (λ i. absurd i, λ t. absurd t.0)
In-fresh p a (x ∷ xs) seen = elim (Bool-cases (contains seen x)) [
  | inl old ↦ let i = contains-In x seen old in rw old (ground (arith, In-fresh p a xs seen))
  | inr new ↦ rw new (elim (Bool-cases (p x)) [
    | inl holds ↦ rw holds (keep _ new holds (In-fresh p a xs (x ∷ seen)))
    | inr fails ↦ rw fails (ground (arith, In-contains x seen, In-fresh p a xs (x ∷ seen)))
  ])
]
  where
    keep :
        (ys : List String)
        → contains seen x ≡ false
        → p x ≡ true
        → (In a ys ↔ (In a xs × (¬ In a (x ∷ seen)) × (p a ≡ true)))
        → In a (x ∷ ys) ↔ (In a (x ∷ xs) × (¬ In a seen) × (p a ≡ true))
    keep ys new holds ih = elim (Bool-cases (a == x)) [
      | inl same ↦
          let q = (string_eq.same_iff a x).0 same in
          (
            λ i. (
              inl q,
              (λ j. absurd (ground (arith, In-contains x seen (subst (λ z. In z seen) q j)))),
              rw q holds,
            ),
            λ i. inl q,
          )
      | inr other ↦
          let n : ¬ (a ≡ x) = λ q. absurd (ground (arith, (string_eq.same_iff a x).1 q)) in
          ground arith
    ]

fresh-Distinct : (p : String → Bool) (xs seen : List String) → Distinct (fresh p xs seen)
unfolding fresh
fresh-Distinct p [] seen = tt
fresh-Distinct p (x ∷ xs) seen = elim (Bool-cases (contains seen x)) [
  | inl old ↦ rw old (fresh-Distinct p xs seen)
  | inr new ↦ rw new (elim (Bool-cases (p x)) [
    | inl holds ↦
        rw holds
          (λ i. ((In-fresh p x xs (x ∷ seen)).0 i).1 (inl refl), fresh-Distinct p xs (x ∷ seen))
    | inr fails ↦ rw fails (fresh-Distinct p xs (x ∷ seen))
  ])
]

length-concat : {A : Type 0} (xs : List A) (x : A) → length (xs ++ x ∷ []) ≡ suc (length xs)
length-concat xs x = omega (arith, length-append xs (x ∷ []))

map-concat :
    {A B : Type 0} (f : A → B) (xs : List A) (x : A) → map f (xs ++ x ∷ []) ≡ map f xs ++ f x ∷ []
map-concat f [] x = refl
map-concat f (y ∷ xs) x = ap (λ ys. f y ∷ ys) (map-concat f xs x)

pub length-map : {A B : Type 0} (f : A → B) (xs : List A) → length (map f xs) ≡ length xs
length-map f [] = refl
length-map f (x ∷ xs) = omega (arith, length-map f xs)

pub not_ltb : (a b : ℕ) → ltb a b ≡ false → b ≤ a
not_ltb a b h = ground arith

append-nil : {A : Type 0} (xs : List A) → xs ++ [] ≡ xs
append-nil [] = refl
append-nil (x ∷ xs) = ap (λ ys. x ∷ ys) (append-nil xs)

count_one_more : (n : ℕ) → saturating_add (min n u32_max) 1 ≡ min (suc n) u32_max
count_one_more n = omega arith

module _ (prior current : List FileEntry) (limit : ℕ) where
  -- The loop's state when `done` are the changed paths so far.
  abbrev partial : (done seen : List String) → Diffing
  partial done seen = record {
    changed = take limit (map (delta_at prior current) done);
    change_count = min (length done) u32_max;
    seen_paths = seen;
  }

  visit_changed :
      (x : String) (done seen : List String)
      → contains seen x ≡ false
      → is_changed prior current x ≡ true
      → visit_path (by_path prior) (by_path current) limit x (partial done seen)
        ≡ partial (done ++ x ∷ []) (x ∷ seen)
  unfolding visit_path
  visit_changed x done seen new h =
      rw
        (
          new,
          h,
          map-concat (delta_at prior current) done x,
          take-concat limit (map (delta_at prior current) done) (delta_at prior current x),
          length-concat done x,
          ← count_one_more (length done),
        )
        refl

  visit_paths-fresh :
      (paths done seen : List String)
      → (later : List String) × (visit_paths
            (by_path prior)
            (by_path current)
            limit
            paths
            (partial done seen)
          ≡ partial (done ++ fresh (is_changed prior current) paths seen) later)
  unfolding visit_paths fresh visit_path
  visit_paths-fresh [] done seen = (seen, rw (append-nil done) refl)
  visit_paths-fresh (x ∷ paths) done seen = elim (Bool-cases (contains seen x)) [
    | inl old ↦ rw old (visit_paths-fresh paths done seen)
    | inr new ↦ elim (Bool-cases (is_changed prior current x)) [
      | inl holds ↦
          rw
            (
              visit_changed x done seen new holds,
              new,
              holds,
              ← append_assoc done x (fresh (is_changed prior current) paths (x ∷ seen)),
            )
            (visit_paths-fresh paths (done ++ x ∷ []) (x ∷ seen))
      | inr fails ↦ rw (new, fails) (visit_paths-fresh paths done (x ∷ seen))
    ]
  ]

  start : partial [] [] ≡ record { changed = []; change_count = 0; seen_paths = [] }
  start = rw (take-nil {A = FileDelta} limit) refl

  -- A path that is in neither list has not changed.
  known_of_changed :
      (path : String)
      → is_changed prior current path ≡ true
      → In path (tree_keys (by_path prior) ++ tree_keys (by_path current))
  unfolding path_changed
  known_of_changed path h =
      (In-append path (tree_keys (by_path prior)) (tree_keys (by_path current))).1
        (elim (Option-cases (lookup path (by_path prior))) [
          | inr (e, found) ↦ inl (
              (In-sort_by compare_str path (keys (by_path prior))).1
                (In-keys_of_lookup path (by_path prior) found))
          | inl missing ↦ elim (Option-cases (lookup path (by_path current))) [
            | inr (e, found) ↦ inr (
                (In-sort_by compare_str path (keys (by_path current))).1
                  (In-keys_of_lookup path (by_path current) found))
            | inl gone ↦ absurd (ground (arith, (rw (missing, gone) at h)))
          ]
        ])

  pub files_diff-paths :
      (paths : List String) × Distinct paths
      × ((path : String) → In path paths ↔ (is_changed prior current path ≡ true))
      × (files_diff prior current limit ≡ (
        take limit (map (delta_at prior current) paths),
        ltb limit (min (length paths) u32_max),
        min (length paths) u32_max,
      ))
  unfolding files_diff
  files_diff-paths =
      let all_paths : List String = tree_keys (by_path prior) ++ tree_keys (by_path current) in
      let (later, q) = visit_paths-fresh all_paths [] [] in
      (
        fresh (is_changed prior current) all_paths [],
        fresh-Distinct (is_changed prior current) all_paths [],
        (λ path. (
          λ i. ((In-fresh (is_changed prior current) path all_paths []).0 i).2,
          λ h.
              (In-fresh (is_changed prior current) path all_paths []).1
                (known_of_changed path h, (λ i. i), h),
        )),
        ap (λ (d : Diffing). (d.changed, ltb limit d.change_count, d.change_count))
            (subst
              (λ d.
                visit_paths (by_path prior) (by_path current) limit all_paths d
                ≡ partial (fresh (is_changed prior current) all_paths []) later)
              start q),
      )

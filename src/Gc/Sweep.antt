-- ===== src/Gc/Sweep.antt =====
-- What a run over a directory without children is to leave, stated without the code's tests
-- (crates/luchta-cache/src/shared/gc.rs).
use luchta.Prelude.{
  ℕ, ◌+◌, ◌≤◌, ◌≡◌, refl, sym, subst, ap, inl, inr, ◌⊎◌, ◌↔◌, Bool, true, ◌&&◌, Option, some, none,
  none_not_some, some-injective, Option-cases, List, [], ◌∷◌, String, string_eq, beq_refl, ◌==◌,
  arith, Bool-cases,
}
use luchta.Text.{append}
use luchta.Gc.{should_run_marked}
use luchta.Gc.Files.{
  FileEntry, GcStats, has_file_name_suffix, elapsed_at_least, is_older_than, gc_files, gc_dir,
}

-- The test of the loop over the files of a directory.
abbrev pub doomed : (suffix : String) (retention now : ℕ) → FileEntry → Bool
doomed suffix retention now f =
    has_file_name_suffix suffix f.name && is_older_than f retention now && f.removable

abbrev pub EndsWith : (suffix name : String) → Type 0
EndsWith suffix name = (stem : String) × (name ≡ append stem suffix)

-- Its age is known and has reached the retention.
abbrev pub IsOld : (retention now : ℕ) → FileEntry → Type 0
IsOld retention now f = (m : ℕ) × (f.modified ≡ some m) × (m + retention ≤ now)

abbrev pub IsDoomed : (suffix : String) (retention now : ℕ) → FileEntry → Type 0
IsDoomed suffix retention now f =
    EndsWith suffix f.name × IsOld retention now f × (f.removable ≡ true)

-- The second list is the first one without its doomed files, and every other file stays in its place.
pub data Swept (suffix : String) (retention now : ℕ)
    : List FileEntry → List FileEntry → Type 0 where
  nothing : Swept suffix retention now [] []
  deleted :
      {f : FileEntry} {files rest : List FileEntry}
      → IsDoomed suffix retention now f
      → Swept suffix retention now files rest
      → Swept suffix retention now (f ∷ files) rest
  kept :
      {f : FileEntry} {files rest : List FileEntry}
      → ¬ IsDoomed suffix retention now f
      → Swept suffix retention now files rest
      → Swept suffix retention now (f ∷ files) (f ∷ rest)

-- A directory that cannot be read is not touched.
abbrev pub SweptDir :
    (suffix : String) (retention now : ℕ) (before after : Option (List FileEntry)) → Type 0
SweptDir suffix retention now none after = after ≡ none
SweptDir suffix retention now (some files) after =
    (rest : List FileEntry) × (after ≡ some rest) × Swept suffix retention now files rest

-- The time of the marker is not known, or the throttle has elapsed since.
abbrev pub IsDue : (marker : Option ℕ) (throttle now : ℕ) → Type 0
IsDue marker throttle now = (marker ≡ none) ⊎ ((m : ℕ) × (marker ≡ some m) × (m + throttle ≤ now))

suffix_of_append : (suffix stem : String) → has_file_name_suffix suffix (append stem suffix) ≡ true
unfolding has_file_name_suffix
suffix_of_append String.[] String.[] = refl
suffix_of_append (String.◌∷◌ c s) String.[] = rw (beq_refl (String.◌∷◌ c s)) refl
suffix_of_append suffix (String.◌∷◌ c stem) =
    elim (Bool-cases (suffix == String.◌∷◌ c (append stem suffix))) [
      | inl whole ↦ rw whole refl
      | inr later ↦ rw later (suffix_of_append suffix stem)
    ]

EndsWith-of_test :
    (suffix name : String) → has_file_name_suffix suffix name ≡ true → EndsWith suffix name
unfolding has_file_name_suffix
EndsWith-of_test String.[] String.[] h = (String.[], refl)
EndsWith-of_test (String.◌∷◌ c s) String.[] h = cc
EndsWith-of_test suffix (String.◌∷◌ c name) h = elim (Bool-cases (suffix == String.◌∷◌ c name)) [
  | inl whole ↦ (String.[], sym ((string_eq.same_iff suffix (String.◌∷◌ c name)).0 whole))
  | inr later ↦
      let (stem, q) = EndsWith-of_test suffix name (rw later at h) in
      (String.◌∷◌ c stem, ap (λ s. String.◌∷◌ c s) q)
]

has_file_name_suffix-EndsWith :
    (suffix name : String) → (has_file_name_suffix suffix name ≡ true) ↔ EndsWith suffix name
has_file_name_suffix-EndsWith suffix name = (
  EndsWith-of_test suffix name,
  λ (stem, q).
      subst (λ s. has_file_name_suffix suffix s ≡ true) (sym q) (suffix_of_append suffix stem),
)

elapsed_at_least-le :
    (m threshold now : ℕ) → (elapsed_at_least m threshold now ≡ true) ↔ (m + threshold ≤ now)
unfolding elapsed_at_least
elapsed_at_least-le m threshold now = ground arith

is_older_than-IsOld :
    (f : FileEntry) (retention now : ℕ)
    → (is_older_than f retention now ≡ true) ↔ IsOld retention now f
unfolding is_older_than
is_older_than-IsOld f retention now = elim (Option-cases f.modified) [
  | inl unknown ↦ rw unknown (λ h. cc, λ (m, q, le). absurd (none_not_some q))
  | inr (m, known) ↦ rw known (
    λ h. (m, refl, (elapsed_at_least-le m retention now).0 h),
    λ (n, q, le).
        (elapsed_at_least-le m retention now).1
          (subst (λ k. k + retention ≤ now) (sym (some-injective m n q)) le),
  )
]

doomed-IsDoomed :
    (suffix : String) (retention now : ℕ) (f : FileEntry)
    → (doomed suffix retention now f ≡ true) ↔ IsDoomed suffix retention now f
doomed-IsDoomed suffix retention now f =
    let name = has_file_name_suffix-EndsWith suffix f.name in
    let age = is_older_than-IsOld f retention now in
    let split =
      all_three (has_file_name_suffix suffix f.name) (is_older_than f retention now) f.removable in
    (
      λ h. let (a, b, c) = split.0 h in (name.0 a, age.0 b, c),
      λ (a, b, c). split.1 (name.1 a, age.1 b, c),
    )
  where
    all_three : (a b c : Bool) → ((a && b && c) ≡ true) ↔ ((a ≡ true) × (b ≡ true) × (c ≡ true))
    all_three a b c = ground arith

module _ (suffix : String) (count : GcStats → GcStats) (retention now : ℕ) where
  gc_files-Swept :
      (files : List FileEntry) (stats : GcStats)
      → Swept suffix retention now files (gc_files suffix count retention now files stats).0
  unfolding gc_files
  gc_files-Swept [] stats = nothing
  gc_files-Swept (f ∷ files) stats =
      let test = doomed-IsDoomed suffix retention now f in
      elim (Bool-cases (doomed suffix retention now f)) [
        | inl gone ↦ rw gone (deleted (test.0 gone) (gc_files-Swept files _))
        | inr stays ↦ rw stays (kept (λ d. cc (stays, test.1 d)) (gc_files-Swept files stats))
      ]

  pub gc_dir-SweptDir :
      (listing : Option (List FileEntry)) (stats : GcStats)
      → SweptDir suffix retention now listing (gc_dir suffix count retention now listing stats).0
  unfolding gc_dir
  gc_dir-SweptDir none stats = refl
  gc_dir-SweptDir (some files) stats =
      ((gc_files suffix count retention now files stats).0, refl, gc_files-Swept files stats)

pub should_run_marked-IsDue :
    (marker : Option ℕ) (throttle now : ℕ)
    → (should_run_marked marker throttle now ≡ true) ↔ IsDue marker throttle now
unfolding should_run_marked
should_run_marked-IsDue none throttle now = (λ h. inl refl, λ h. refl)
should_run_marked-IsDue (some m) throttle now = (
  λ h. inr (m, refl, (elapsed_at_least-le m throttle now).0 h),
  λ h. elim h [
    | inl q ↦ absurd (none_not_some (sym q))
    | inr (n, q, le) ↦
        (elapsed_at_least-le m throttle now).1
          (subst (λ k. k + throttle ≤ now) (sym (some-injective m n q)) le)
  ],
)

-- ===== src/Cache/Diff/Reference.antt =====
-- What `files_diff` computes (crates/luchta-cache/src/decide.rs), against the contents that the two lists
-- give for each path.
use luchta.Prelude.{
  ℕ, ◌≤◌, ◌<◌, min, ◌≡◌, ◌≢◌, refl, sym, subst, Bool, true, false, inl, ◌↔◌, List, [], ◌∷◌, String,
  arith, map, In, In-map, Distinct, length, take, take-all, ltb, lt→ltb,
}
use luchta.Cache.{FileEntry, FileDelta}
use luchta.Cache.Diff.{u32_max, files_diff, files_changed}
use luchta.Cache.Diff.Contents.{content_at, path_changed-content}
use luchta.Cache.Diff.Loop.{delta_at, not_ltb, length-map, files_diff-paths}

-- The result is read off the list of the paths with another content in one list than in the other,
-- which holds each of them once: its first `limit` deltas, whether there are more, and its length, up
-- to the largest `u32`.
pub files_diff-lists :
    (prior current : List FileEntry) (limit : ℕ)
    → (paths : List String) × Distinct paths
      × ((path : String) → In path paths ↔ (content_at path prior ≢ content_at path current))
      × (files_diff prior current limit ≡ (
        take limit (map (delta_at prior current) paths),
        ltb limit (min (length paths) u32_max),
        min (length paths) u32_max,
      ))
files_diff-lists prior current limit =
    let (paths, once, complete, q) = files_diff-paths prior current limit in
    (
      paths,
      once,
      (λ path. (
        λ i. (path_changed-content prior current path).0 ((complete path).0 i),
        λ n. (complete path).1 ((path_changed-content prior current path).1 n),
      )),
      q,
    )

-- The files count as changed when, and only when, some path has another content in one list than in
-- the other: its last entry there is missing in one of them, is absent in one and a file in the other,
-- or has another hash.
pub files_changed_iff :
    (prior current : List FileEntry)
    → (files_changed prior current ≡ true)
      ↔ ((path : String) × (content_at path prior ≢ content_at path current))
unfolding files_changed
files_changed_iff prior current =
    let (paths, once, complete, q) = files_diff-lists prior current 0 in
    rw q (some_changed paths complete)
  where
    some_changed :
        (paths : List String)
        → ((path : String) → In path paths ↔ (content_at path prior ≢ content_at path current))
        → (ltb 0 (min (length paths) u32_max) ≡ true)
          ↔ ((path : String) × (content_at path prior ≢ content_at path current))
    some_changed [] complete =
        (λ h. absurd (ground arith), λ (path, h). absurd ((complete path).1 h))
    some_changed (x ∷ paths) complete =
        (λ _. (x, (complete x).0 (inl refl)), λ _. lt→ltb 0 _ (omega arith))

-- When the limit is below the largest `u32` and the result is not cut off, its deltas have those of
-- all the paths with another content in one list than in the other.
pub files_diff_complete :
    (prior current : List FileEntry) (limit : ℕ)
    → limit < u32_max
    → (files_diff prior current limit).1 ≡ false
    → (path : String) → content_at path prior ≢ content_at path current
    → In (delta_at prior current path) (files_diff prior current limit).0
files_diff_complete prior current limit small whole path h =
    let (paths, once, complete, q) = files_diff-lists prior current limit in
    let short : ltb limit (min (length paths) u32_max) ≡ false = rw q at whole in
    subst (λ (t : List FileDelta × Bool × ℕ). In (delta_at prior current path) t.0) (sym q)
      (subst (λ ds. In (delta_at prior current path) ds)
        (sym (take-all limit (map (delta_at prior current) paths) (fits paths short)))
        (In-map (delta_at prior current) path paths ((complete path).1 h)))
  where
    fits :
        (paths : List String)
        → ltb limit (min (length paths) u32_max) ≡ false
        → length (map (delta_at prior current) paths) ≤ limit
    fits paths short =
        rw (length-map (delta_at prior current) paths)
          (omega (arith, not_ltb limit (min (length paths) u32_max) short))

-- ===== src/Gc/Survivors.antt =====
-- Which files of the shared cache are left (crates/luchta-cache/src/shared/gc.rs).
use luchta.Prelude.{
  ℕ, ◌+◌, ◌^◌, ◌<◌, ◌≡◌, refl, sym, subst, ◌∙◌, inl, inr, ◌⊎◌, Bool, true, false, some, none, List,
  [], ◌∷◌, filter, String, arith, Bool-cases, if◌then◌else◌,
}
use luchta.Gc.{SharedCache, run_gc, should_run_marked, maybe_run_gc}
use luchta.Gc.Sweep.{doomed, IsDue, SweptDir, gc_dir-SweptDir, should_run_marked-IsDue}
use luchta.Gc.Files.{
  FileEntry, GcStats, count_blob, count_cache_file_blob, count_entry, saturating_add,
  elapsed_at_least, gc_files, gc_blob_dir, gc_cache_file_blob_dir, gc_entries_dir,
}

abbrev pub total_len : List FileEntry → ℕ
total_len [] = 0
total_len (f ∷ files) = f.len + total_len files

saturating_add_assoc :
    (a b c : ℕ) → saturating_add (saturating_add a b) c ≡ saturating_add a (b + c)
saturating_add_assoc a b c = ground arith

saturating_add-zero : (a : ℕ) → a < 2 ^ 64 → saturating_add a 0 ≡ a
saturating_add-zero a h = ground arith

saturating_add-bound : (a b : ℕ) → saturating_add a b < 2 ^ 64
saturating_add-bound a b = ground arith

-- For a count of bytes that fits a `u64`: after the loop over a directory the count is the sum of the
-- count and the lengths of the deleted files, or the greatest `u64` where that is more.
pub gc_files-bytes :
    (suffix : String) (count : GcStats → GcStats) (retention now : ℕ) (files : List FileEntry)
    (stats : GcStats)
    → stats.bytes_freed < 2 ^ 64
    → (gc_files suffix count retention now files stats).1.bytes_freed
      ≡ saturating_add stats.bytes_freed (total_len (filter (doomed suffix retention now) files))
unfolding gc_files
gc_files-bytes suffix count retention now [] stats h = sym (saturating_add-zero stats.bytes_freed h)
gc_files-bytes suffix count retention now (f ∷ files) stats h =
    elim (Bool-cases (doomed suffix retention now f)) [
      | inl gone ↦ rw gone (
          gc_files-bytes suffix count retention now files
            (record (count stats) { bytes_freed = saturating_add stats.bytes_freed f.len })
            (saturating_add-bound stats.bytes_freed f.len)
          ∙ saturating_add_assoc stats.bytes_freed f.len
              (total_len (filter (doomed suffix retention now) files)))
      | inr kept ↦ rw kept (gc_files-bytes suffix count retention now files stats h)
    ]

-- Either no run is due, since the marker is known and the throttle has not elapsed since it, and all is
-- left as it is; or one is due, and of the blobs, the blobs of cache files and the entries those files
-- are gone, and those alone, whose name ends in the suffix of the directory, whose time is known and as
-- long ago as the retention or longer, and that can be removed. The other files stay in their order, a
-- directory that cannot be read is not touched, and the run gives its counts and stamps the marker
-- where it can be written.
pub maybe_run_gc_lem :
    (c : SharedCache) (retention throttle tested started marked : ℕ) (writable : Bool)
    → let r = maybe_run_gc c retention throttle tested started marked writable in
      ((¬ IsDue c.marker throttle tested) × (r ≡ (c, none)))
      ⊎ (IsDue c.marker throttle tested
          × SweptDir ".tar.zst" retention started c.blobs r.0.blobs
          × SweptDir ".tar.zst" retention started c.cache_files r.0.cache_files
          × SweptDir ".bin" retention started c.entries r.0.entries
          × (stats : GcStats) × (r.1 ≡ some stats)
          × (r.0.marker ≡ (if writable then some marked else c.marker)))
unfolding maybe_run_gc run_gc gc_blob_dir gc_cache_file_blob_dir gc_entries_dir
maybe_run_gc_lem c retention throttle tested started marked writable =
    let test = should_run_marked-IsDue c.marker throttle tested in
    elim (Bool-cases (should_run_marked c.marker throttle tested)) [
      | inl due ↦ inr (
          rw due (
            test.0 due,
            gc_dir-SweptDir ".tar.zst" count_blob retention started c.blobs _,
            gc_dir-SweptDir ".tar.zst" count_cache_file_blob retention started c.cache_files _,
            gc_dir-SweptDir ".bin" count_entry retention started c.entries _,
            (run_gc c retention started).1,
            refl,
            refl,
          ))
      | inr early ↦ inl (λ d. cc (early, test.1 d), rw early (refl))
    ]

run-marker :
    (c : SharedCache) (retention throttle tested started marked : ℕ)
    → should_run_marked c.marker throttle tested ≡ true
    → (maybe_run_gc c retention throttle tested started marked true).0.marker ≡ some marked
unfolding maybe_run_gc
run-marker c retention throttle tested started marked due = rw due refl

early-unchanged :
    (c : SharedCache) (retention throttle tested started marked : ℕ) (writable : Bool)
    → should_run_marked c.marker throttle tested ≡ false
    → maybe_run_gc c retention throttle tested started marked writable ≡ (c, none)
unfolding maybe_run_gc
early-unchanged c retention throttle tested started marked writable early = rw early refl

early_after_mark :
    (marked throttle tested : ℕ)
    → tested < marked + throttle
    → should_run_marked (some marked) throttle tested ≡ false
unfolding should_run_marked elapsed_at_least
early_after_mark marked throttle tested h = ground arith

-- After a run that wrote its marker, no run is made before the throttle has elapsed since.
pub maybe_run_gc-throttled :
    (c : SharedCache) (retention throttle tested started marked : ℕ)
    → should_run_marked c.marker throttle tested ≡ true
    → (retention' tested' started' marked' : ℕ) (writable' : Bool) → tested' < marked + throttle
    → let c' = (maybe_run_gc c retention throttle tested started marked true).0 in
      maybe_run_gc c' retention' throttle tested' started' marked' writable' ≡ (c', none)
maybe_run_gc-throttled c retention throttle tested started marked due retention' tested' started'
      marked' writable' h =
    let c' = (maybe_run_gc c retention throttle tested started marked true).0 in
    early-unchanged c' retention' throttle tested' started' marked' writable' (
      subst (λ m. should_run_marked m throttle tested' ≡ false)
        (sym (run-marker c retention throttle tested started marked due))
        (early_after_mark marked throttle tested' h))

-- ===== src/Gc/Samples.antt =====
-- A shared cache with old and young files (crates/luchta-cache/src/shared/gc.rs).
use luchta.Prelude.{ℕ, ◌≡◌, refl, ◌⊎◌, true, some, none, List, [], ◌∷◌, String, filter, arith}
use luchta.Gc.{SharedCache, run_gc, should_run_marked, maybe_run_gc}
use luchta.Gc.Snapshots.{
  split_last_dot, extension, with_extension, remove_file_if_exists, delete_snapshot_shard,
  gc_shards, commit_dir, gc_snapshot_commit_dir, gc_snapshot_items, gc_snapshot_dir,
}
use luchta.Gc.Files.{
  FileEntry, GcStats, no_stats, count_blob, saturating_add, has_file_name_suffix, elapsed_at_least,
  is_older_than, gc_files, gc_dir, gc_blob_dir, gc_cache_file_blob_dir, gc_entries_dir,
}
use luchta.Gc.Survivors.{total_len, gc_files-bytes, maybe_run_gc_lem, maybe_run_gc-throttled}
use luchta.Gc.Sweep.{doomed, IsDue, SweptDir}

program : Unit {0}
unfolding has_file_name_suffix elapsed_at_least is_older_than gc_files gc_dir gc_blob_dir
    gc_cache_file_blob_dir gc_entries_dir split_last_dot extension with_extension
    remove_file_if_exists delete_snapshot_shard gc_shards gc_snapshot_commit_dir gc_snapshot_items
    gc_snapshot_dir run_gc should_run_marked maybe_run_gc
program = tt

abbrev file : String → ℕ → FileEntry
file name modified = record {
  name = name;
  modified = some modified;
  len = 10;
  is_file = true;
  removable = true;
}

abbrev blobs : List FileEntry
blobs = file "a.tar.zst" 5 ∷ file "b.tar.zst" 95 ∷ file "readme" 5 ∷ []

abbrev cache : SharedCache
cache = record {
  snapshots = some (commit_dir (some (file "s.bincode" 5 ∷ file "s.merged" 95 ∷ [])) true ∷ []);
  blobs = some blobs;
  cache_files = none;
  entries = some (file "e.bin" 1 ∷ []);
  marker = some 2;
}

-- The shard goes with its merged file and the directory; one blob and the entry go.
collected : run_gc cache 50 100 ≡ (
  record {
    snapshots = some [];
    blobs = some (file "b.tar.zst" 95 ∷ file "readme" 5 ∷ []);
    cache_files = none;
    entries = some [];
    marker = some 2;
  },
  record {
    snapshots_deleted = 1;
    blobs_deleted = 1;
    cache_file_blobs_deleted = 0;
    entries_deleted = 1;
    bytes_freed = 30;
  },
)
unfolding program
collected = refl

gc_files-bytes_example :
    (gc_files ".tar.zst" count_blob 50 100 blobs no_stats).1.bytes_freed
    ≡ saturating_add 0 (total_len (filter (doomed ".tar.zst" 50 100) blobs))
gc_files-bytes_example = gc_files-bytes ".tar.zst" count_blob 50 100 blobs no_stats (omega arith)

maybe_run_gc_lem_example :
    let r = maybe_run_gc cache 50 20 100 101 102 true in
    ((¬ IsDue cache.marker 20 100) × (r ≡ (cache, none)))
    ⊎ (IsDue cache.marker 20 100
        × SweptDir ".tar.zst" 50 101 cache.blobs r.0.blobs
        × SweptDir ".tar.zst" 50 101 cache.cache_files r.0.cache_files
        × SweptDir ".bin" 50 101 cache.entries r.0.entries
        × (stats : GcStats) × (r.1 ≡ some stats)
        × (r.0.marker ≡ some 102))
maybe_run_gc_lem_example = maybe_run_gc_lem cache 50 20 100 101 102 true

due : should_run_marked cache.marker 20 100 ≡ true
unfolding program
due = refl

maybe_run_gc-throttled_example :
    let c' = (maybe_run_gc cache 50 20 100 101 102 true).0 in
    maybe_run_gc c' 0 20 110 111 112 true ≡ (c', none)
maybe_run_gc-throttled_example =
    maybe_run_gc-throttled cache 50 20 100 101 102 due 0 110 111 112 true (omega arith)

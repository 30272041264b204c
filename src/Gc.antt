-- ===== src/Gc.antt =====
-- crates/luchta-cache/src/shared/gc.rs: old files of the shared cache are deleted. Instants and
-- durations count nanoseconds.
pub mod Files
pub mod Snapshots
pub mod Survivors
pub mod Sweep
mod Samples
use Prim.Native.Char.{Char, code}
use luchta.Prelude.{
  ℕ, ◌+◌, ◌-◌, ◌%◌, ◌^◌, Bool, true, false, not, ◌&&◌, Option, none, some, List, [], ◌∷◌, String,
  string_eq, option_eq, ◌==◌, PartialEq, filter, ltb, leb, nat_beq, if◌then◌else◌,
}
use luchta.Text.{append, is_empty}
use luchta.Gc.Files.{
  FileEntry, GcStats, count_blob, count_cache_file_blob, count_entry, count_snapshot, count_up,
  elapsed_at_least, gc_blob_dir, gc_cache_file_blob_dir, gc_dir, gc_entries_dir, gc_files,
  has_file_name_suffix, is_older_than, no_stats, saturating_add,
}
use luchta.Gc.Snapshots.{
  SnapshotItem, commit_dir, delete_snapshot_shard, extension, find_file, gc_shards,
  gc_snapshot_commit_dir, gc_snapshot_dir, gc_snapshot_items, remove_file_if_exists, snapshot_file,
  split_last_dot, with_extension,
}

-- The directories of the shared cache, and when the marker was written, `none` when that cannot be
-- read.
pub record SharedCache : Type 0 where
  pub snapshots : Option (List SnapshotItem)
  pub blobs : Option (List FileEntry)
  pub cache_files : Option (List FileEntry)
  pub entries : Option (List FileEntry)
  pub marker : Option ℕ

unfoldable pub run_gc : SharedCache → (retention now : ℕ) → SharedCache × GcStats
unfolding gc_snapshot_dir gc_blob_dir gc_cache_file_blob_dir gc_entries_dir
run_gc c retention now =
    let (snapshots', s1) = gc_snapshot_dir retention now c.snapshots no_stats in
    let (blobs', s2) = gc_blob_dir retention now c.blobs s1 in
    let (cache_files', s3) = gc_cache_file_blob_dir retention now c.cache_files s2 in
    let (entries', s4) = gc_entries_dir retention now c.entries s3 in
    (
      record {
        snapshots = snapshots';
        blobs = blobs';
        cache_files = cache_files';
        entries = entries';
        marker = c.marker;
      },
      s4,
    )

unfoldable pub should_run_marked : Option ℕ → (throttle now : ℕ) → Bool
unfolding elapsed_at_least
should_run_marked none throttle now = true
should_run_marked (some modified) throttle now = elapsed_at_least modified throttle now

-- `tested` and `started` are what the clock says at the test and at the start of the run. `writable`
-- says whether the marker is written, and `marked` is the modification time that the file system then
-- gives it: the text that is written to it is never read.
unfoldable pub maybe_run_gc :
    SharedCache
    → (retention throttle : ℕ) → (tested started marked : ℕ) → (writable : Bool)
    → SharedCache × Option GcStats
unfolding should_run_marked run_gc
maybe_run_gc c retention throttle tested started marked writable =
    let (c', stats) = run_gc c retention started in
    if should_run_marked c.marker throttle tested
    then (record c' { marker = if writable then some marked else c'.marker }, some stats)
    else (c, none)

-- ===== src/Gc/Files.antt =====
-- The loops over the directories without children (crates/luchta-cache/src/shared/gc.rs). A directory is
-- the list of its files, `none` when it cannot be read; `removable` says whether `remove_file` succeeds.
use luchta.Prelude.{
  ℕ, ◌+◌, ◌-◌, ◌%◌, ◌^◌, Bool, true, false, ◌&&◌, Option, none, some, List, [], ◌∷◌, String,
  string_eq, option_eq, ◌==◌, ltb, leb, if◌then◌else◌,
}
use luchta.Text.{is_empty}

pub record FileEntry : Type 0 where
  pub name : String
  pub modified : Option ℕ
  pub len : ℕ
  pub is_file : Bool
  pub removable : Bool

pub record GcStats : Type 0 where
  pub snapshots_deleted : ℕ
  pub blobs_deleted : ℕ
  pub cache_file_blobs_deleted : ℕ
  pub entries_deleted : ℕ
  pub bytes_freed : ℕ

abbrev pub no_stats : GcStats
no_stats = record {
  snapshots_deleted = 0;
  blobs_deleted = 0;
  cache_file_blobs_deleted = 0;
  entries_deleted = 0;
  bytes_freed = 0;
}

-- `u64::saturating_add`
abbrev pub saturating_add : ℕ → ℕ → ℕ
saturating_add a b = if ltb (a + b) (2 ^ 64) then a + b else 2 ^ 64 - 1

-- `+= 1` on a `u64`, as in a release build
abbrev pub count_up : ℕ → ℕ
count_up n = (n + 1) % 2 ^ 64

-- `name.ends_with(suffix)`, for a name that is UTF-8; a file with another name is left alone, and has no
-- entry in the lists here.
unfoldable pub has_file_name_suffix : (suffix name : String) → Bool
has_file_name_suffix suffix String.[] = is_empty suffix
has_file_name_suffix suffix (String.◌∷◌ c name) =
    let later = has_file_name_suffix suffix name in
    if suffix == String.◌∷◌ c name then true else later

-- An instant that is still to come gives no duration.
unfoldable pub elapsed_at_least : (earlier threshold now : ℕ) → Bool
elapsed_at_least earlier threshold now =
    if leb earlier now then leb threshold (now - earlier) else false

unfoldable pub is_older_than : FileEntry → (retention now : ℕ) → Bool
unfolding elapsed_at_least
is_older_than f retention now = elim f.modified [
  | none ↦ false
  | some modified ↦ elapsed_at_least modified retention now
]

-- The loop over the files of one directory: what is left, and the counts.
unfoldable pub gc_files :
    (suffix : String) (count : GcStats → GcStats) (retention now : ℕ)
    → List FileEntry
    → GcStats
    → List FileEntry × GcStats
unfolding has_file_name_suffix is_older_than
gc_files suffix count retention now [] stats = ([], stats)
gc_files suffix count retention now (f ∷ files) stats =
    let freed =
      gc_files suffix count retention now files
        (record (count stats) { bytes_freed = saturating_add stats.bytes_freed f.len }) in
    let (kept, stats') = gc_files suffix count retention now files stats in
    if has_file_name_suffix suffix f.name && is_older_than f retention now && f.removable
    then freed
    else (f ∷ kept, stats')

abbrev pub count_blob : GcStats → GcStats
count_blob s = record s { blobs_deleted = count_up s.blobs_deleted }

abbrev pub count_cache_file_blob : GcStats → GcStats
count_cache_file_blob s = record s {
  cache_file_blobs_deleted = count_up s.cache_file_blobs_deleted;
}

abbrev pub count_entry : GcStats → GcStats
count_entry s = record s { entries_deleted = count_up s.entries_deleted }

abbrev pub count_snapshot : GcStats → GcStats
count_snapshot s = record s { snapshots_deleted = count_up s.snapshots_deleted }

-- A directory that cannot be read is left alone.
unfoldable pub gc_dir :
    (suffix : String) (count : GcStats → GcStats) (retention now : ℕ)
    → Option (List FileEntry)
    → GcStats
    → Option (List FileEntry) × GcStats
unfolding gc_files
gc_dir suffix count retention now none stats = (none, stats)
gc_dir suffix count retention now (some files) stats =
    let (kept, stats') = gc_files suffix count retention now files stats in (some kept, stats')

unfoldable pub gc_blob_dir :
    (retention now : ℕ) → Option (List FileEntry) → GcStats → Option (List FileEntry) × GcStats
unfolding gc_dir
gc_blob_dir = gc_dir ".tar.zst" count_blob

unfoldable pub gc_cache_file_blob_dir :
    (retention now : ℕ) → Option (List FileEntry) → GcStats → Option (List FileEntry) × GcStats
unfolding gc_dir
gc_cache_file_blob_dir = gc_dir ".tar.zst" count_cache_file_blob

unfoldable pub gc_entries_dir :
    (retention now : ℕ) → Option (List FileEntry) → GcStats → Option (List FileEntry) × GcStats
unfolding gc_dir
gc_entries_dir = gc_dir ".bin" count_entry

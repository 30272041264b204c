-- ===== src/Gc/Snapshots.antt =====
-- The snapshots, by commit, with the files of merged snapshots beside them
-- (crates/luchta-cache/src/shared/gc.rs).
use Prim.Native.Char.{code}
use luchta.Prelude.{
  ℕ, Bool, true, false, not, ◌&&◌, Option, none, some, List, [], ◌∷◌, String, string_eq, option_eq,
  ◌==◌, filter, nat_beq, if◌then◌else◌,
}
use luchta.Text.{append, is_empty}
use luchta.Gc.Files.{
  FileEntry, GcStats, count_snapshot, has_file_name_suffix, is_older_than, saturating_add,
}

-- The stem and the extension of a file name; a leading dot starts none.
unfoldable pub split_last_dot : String → Option (String × String)
split_last_dot String.[] = none
split_last_dot (String.◌∷◌ c name) =
    let later = split_last_dot name in
    elim later [
      | some (stem, extension) ↦ some (String.◌∷◌ c stem, extension)
      | none ↦ if nat_beq (code c) 46 then some (String.[], name) else none
    ]

unfoldable pub extension : String → Option String
unfolding split_last_dot
extension name = elim (split_last_dot name) [
  | none ↦ none
  | some (stem, ext) ↦ if is_empty stem then none else some ext
]

unfoldable pub with_extension : String → String → String
unfolding split_last_dot
with_extension name ext = elim (split_last_dot name) [
  | none ↦ append name (append "." ext)
  | some (stem, old) ↦
      if is_empty stem then append name (append "." ext) else append stem (append "." ext)
]

abbrev pub find_file : String → List FileEntry → Option FileEntry
find_file name [] = none
find_file name (f ∷ files) = if f.name == name then some f else find_file name files

-- Whether the file is removed, with what is left of the directory.
unfoldable pub remove_file_if_exists : String → List FileEntry → List FileEntry × Bool
remove_file_if_exists name files = elim (find_file name files) [
  | none ↦ (files, false)
  | some f ↦
      if f.removable
      then (filter (λ (g : FileEntry). not (g.name == name)) files, true)
      else (files, false)
]

-- The shard, and then the file of the merged snapshots beside it.
unfoldable pub delete_snapshot_shard :
    FileEntry → List FileEntry → GcStats → List FileEntry × GcStats
unfolding remove_file_if_exists with_extension
delete_snapshot_shard shard files stats =
    let (files', removed) = remove_file_if_exists shard.name files in
    let counted = record (count_snapshot stats) {
      bytes_freed = saturating_add stats.bytes_freed shard.len;
    } in
    let (files'', sidecar_removed) =
      remove_file_if_exists (with_extension shard.name "merged") files' in
    (files'', if removed then counted else stats)

-- The loop over the names that a commit's directory had at first; `files` is what it has now.
unfoldable pub gc_shards :
    (retention now : ℕ) → List FileEntry → List FileEntry → GcStats → List FileEntry × GcStats
unfolding delete_snapshot_shard extension is_older_than
gc_shards retention now [] files stats = (files, stats)
gc_shards retention now (shard ∷ shards) files stats =
    let (files', stats') = delete_snapshot_shard shard files stats in
    let deleted = gc_shards retention now shards files' stats' in
    let kept = gc_shards retention now shards files stats in
    elim (find_file shard.name files) [
      | none ↦ kept
      | some f ↦
          if f.is_file && extension f.name == some "bincode" && is_older_than f retention now
          then deleted
          else kept
    ]

pub data SnapshotItem : Type 0 where
  snapshot_file : FileEntry → SnapshotItem
  commit_dir : (listing : Option (List FileEntry)) (removable : Bool) → SnapshotItem

-- `none` when the directory is empty at the end and is removed.
unfoldable pub gc_snapshot_commit_dir :
    (retention now : ℕ) (listing : Option (List FileEntry)) (removable : Bool)
    → GcStats
    → Option SnapshotItem × GcStats
unfolding gc_shards
gc_snapshot_commit_dir retention now none removable stats =
    (some (commit_dir none removable), stats)
gc_snapshot_commit_dir retention now (some files) removable stats =
    let (files', stats') = gc_shards retention now files files stats in
    elim files' [
      | [] ↦ (if removable then none else some (commit_dir (some []) removable), stats')
      | f ∷ rest ↦ (some (commit_dir (some (f ∷ rest)) removable), stats')
    ]

abbrev keep_item : Option SnapshotItem → List SnapshotItem → List SnapshotItem
keep_item none items = items
keep_item (some item) items = item ∷ items

unfoldable pub gc_snapshot_items :
    (retention now : ℕ) → List SnapshotItem → GcStats → List SnapshotItem × GcStats
unfolding gc_snapshot_commit_dir has_file_name_suffix is_older_than
gc_snapshot_items retention now [] stats = ([], stats)
gc_snapshot_items retention now (commit_dir listing removable ∷ items) stats =
    let (item, stats') = gc_snapshot_commit_dir retention now listing removable stats in
    let (items', stats'') = gc_snapshot_items retention now items stats' in
    (keep_item item items', stats'')
gc_snapshot_items retention now (snapshot_file f ∷ items) stats =
    let freed =
      gc_snapshot_items retention now items
        (record (count_snapshot stats) { bytes_freed = saturating_add stats.bytes_freed f.len }) in
    let (items', stats') = gc_snapshot_items retention now items stats in
    if has_file_name_suffix ".bincode" f.name && is_older_than f retention now && f.removable
    then freed
    else (snapshot_file f ∷ items', stats')

unfoldable pub gc_snapshot_dir :
    (retention now : ℕ)
    → Option (List SnapshotItem)
    → GcStats
    → Option (List SnapshotItem) × GcStats
unfolding gc_snapshot_items
gc_snapshot_dir retention now none stats = (none, stats)
gc_snapshot_dir retention now (some items) stats =
    let (items', stats') = gc_snapshot_items retention now items stats in (some items', stats')

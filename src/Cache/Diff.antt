-- ===== src/Cache/Diff.antt =====
-- `files_diff`: what changed between two lists of file entries (crates/luchta-cache/src/decide.rs).
pub mod Contents
pub mod Loop
pub mod Reference
use Prim.Native.String.{compare as compare_str}
use luchta.Prelude.{
  ℕ, ◌+◌, ◌^◌, ◌-◌, min, Bool, true, false, not, ◌||◌, Option, none, some, List, [], ◌∷◌, ◌++◌,
  String, string_eq, list_eq, nat_eq, ◌==◌, contains, length, ltb, if◌then◌else◌,
}
use luchta.Prelude.Maps.{Map, lookup, insert, keys}
use luchta.Prelude.Sort.{sort_by}
use luchta.Cache.{zero_hash, FileEntry, FileDelta}

abbrev pub bool_xor : Bool → Bool → Bool
bool_xor true b = not b
bool_xor false b = b

abbrev pub file_identity_changed : FileEntry → FileEntry → Bool
file_identity_changed prior current =
    not (prior.path == current.path) || bool_xor prior.absent current.absent

unfoldable pub file_entry_changed : FileEntry → FileEntry → Bool
file_entry_changed prior current =
    if file_identity_changed prior current
    then true
    else if prior.absent
    then false
    else not (prior.hash == current.hash)

unfoldable pub path_changed : Option FileEntry → Option FileEntry → Bool
unfolding file_entry_changed
path_changed (some prior) (some current) = file_entry_changed prior current
path_changed (some _) none = true
path_changed none (some _) = true
path_changed none none = false

-- `collect` into a `BTreeMap`: a later entry of the same path replaces an earlier one.
unfoldable pub index_entries : List FileEntry → Map String FileEntry → Map String FileEntry
index_entries [] m = m
index_entries (e ∷ entries) m = index_entries entries (insert e.path e m)

abbrev pub by_path : List FileEntry → Map String FileEntry
by_path entries = index_entries entries []

-- The keys of a `BTreeMap` come in order.
abbrev pub tree_keys : Map String FileEntry → List String
tree_keys m = sort_by compare_str (keys m)

abbrev pub u32_max : ℕ
u32_max = 2 ^ 32 - 1

abbrev pub saturating_add : ℕ → ℕ → ℕ
saturating_add a b = min (a + b) u32_max

abbrev pub delta : String → Option FileEntry → Option FileEntry → FileDelta
delta path prior current = record {
  path = path;
  prior_hash = elim prior [ none ↦ zero_hash | some e ↦ e.hash ];
  current_hash = elim current [ none ↦ zero_hash | some e ↦ e.hash ];
  prior_absent = elim prior [ none ↦ true | some e ↦ e.absent ];
  current_absent = elim current [ none ↦ true | some e ↦ e.absent ];
}

-- What the loop of `files_diff` writes.
pub record Diffing : Type 0 where
  pub changed : List FileDelta
  pub change_count : ℕ
  pub seen_paths : List String

-- The body of the loop, for a path.
unfoldable pub visit_path :
    (prior current : Map String FileEntry) (limit : ℕ) → String → Diffing → Diffing
visit_path prior current limit path d =
    if contains d.seen_paths path
    then d
    else if not (path_changed (lookup path prior) (lookup path current))
    then record d { seen_paths = path ∷ d.seen_paths }
    else record {
      changed =
          if ltb (length d.changed) limit
          then d.changed ++ delta path (lookup path prior) (lookup path current) ∷ []
          else d.changed;
      change_count = saturating_add d.change_count 1;
      seen_paths = path ∷ d.seen_paths;
    }

unfoldable pub visit_paths :
    (prior current : Map String FileEntry) (limit : ℕ) → List String → Diffing → Diffing
visit_paths prior current limit [] d = d
visit_paths prior current limit (path ∷ paths) d =
    visit_paths prior current limit paths (visit_path prior current limit path d)

-- The deltas, at most `limit`, whether there are more, and the number of changes.
unfoldable pub files_diff : (prior current : List FileEntry) (limit : ℕ) → List FileDelta × Bool × ℕ
files_diff prior_entries current_entries limit =
    let prior = by_path prior_entries in
    let current = by_path current_entries in
    let d =
      visit_paths prior current limit (tree_keys prior ++ tree_keys current)
        (record { changed = []; change_count = 0; seen_paths = [] }) in
    (d.changed, ltb limit d.change_count, d.change_count)

unfoldable pub files_changed : (prior current : List FileEntry) → Bool
files_changed prior current = ltb 0 (files_diff prior current 0).2

-- ===== src/Cache/Diff/Contents.antt =====
-- What a list of file entries says of a path, without the tests of the code
-- (crates/luchta-cache/src/decide.rs).
use luchta.Prelude.{
  ◌≡◌, ◌≢◌, refl, sym, ap, ◌∙◌, inl, inr, ◌↔◌, Bool, true, false, not, Option, none, some,
  none_not_some, some-injective, List, [], ◌∷◌, String, string_eq, list_eq, nat_eq, option_eq, ◌==◌,
  arith, beq_of_eq, eq_of_beq, differs_of_beq, PartialEq, Bool-cases, Option-cases, if◌then◌else◌,
}
use luchta.Prelude.Maps.{Map, lookup, insert, lookup-insert}
use luchta.Cache.{Hash, FileEntry}
use luchta.Cache.Diff.{bool_xor, file_entry_changed, path_changed, index_entries, by_path}

-- The last entry of the path in the list.
unfoldable pub last_entry : String → List FileEntry → Option FileEntry
last_entry path [] = none
last_entry path (e ∷ entries) = elim (last_entry path entries) [
  | some later ↦ some later
  | none ↦ if e.path == path then some e else none
]

-- The hash of a file that is there, or that it is absent.
abbrev pub content_of : FileEntry → Option Hash
content_of e = if e.absent then none else some e.hash

abbrev map_content : Option FileEntry → Option (Option Hash)
map_content none = none
map_content (some e) = some (content_of e)

-- What is known of the path: nothing, that it is absent, or its hash. A size or a time says nothing.
unfoldable pub content_at : String → List FileEntry → Option (Option Hash)
content_at path entries = map_content (last_entry path entries)

last_entry-path :
    (path : String) (entries : List FileEntry) (e : FileEntry)
    → last_entry path entries ≡ some e
    → e.path ≡ path
unfolding last_entry
last_entry-path path [] e h = absurd (none_not_some h)
last_entry-path path (x ∷ entries) e h = elim (Option-cases (last_entry path entries)) [
  | inr (l, found) ↦ last_entry-path path entries e (found ∙ rw found at h)
  | inl none_later ↦ elim (Bool-cases (x.path == path)) [
    | inl same ↦
        let q = some-injective x e (rw (none_later, same) at h) in
        sym (ap (λ (f : FileEntry). f.path) q) ∙ eq_of_beq x.path path same
    | inr other ↦ absurd (none_not_some (rw (none_later, other) at h))
  ]
]

index_entries-last :
    (path : String) (entries : List FileEntry) (m : Map String FileEntry)
    → lookup path (index_entries entries m)
      ≡ elim (last_entry path entries) [ none ↦ lookup path m | some e ↦ some e ]
unfolding last_entry index_entries
index_entries-last path [] m = refl
index_entries-last path (x ∷ entries) m =
    index_entries-last path entries (insert x.path x m)
    ∙ elim (Option-cases (last_entry path entries)) [
      | inr (e, found) ↦ rw found refl
      | inl missing ↦ rw missing (lookup-insert x.path path x m ∙ replaced (x.path == path))
    ]
  where
    replaced :
        (b : Bool)
        → (if b then some x else lookup path m)
          ≡ (elim (if b then some x else none) [ none ↦ lookup path m | some e ↦ some e ])
    replaced true = refl
    replaced false = refl

lookup-last :
    (path : String) (entries : List FileEntry)
    → lookup path (by_path entries) ≡ last_entry path entries
unfolding lookup
lookup-last path entries = index_entries-last path entries [] ∙ same (last_entry path entries)
  where
    same :
        (o : Option FileEntry)
        → ◌≡◌ {A = Option FileEntry} (elim o [ none ↦ none | some e ↦ some e ]) o
    same none = refl
    same (some e) = refl

abbrev same_hash : PartialEq Hash
same_hash = list_eq

file_entry_changed-content :
    (prior current : FileEntry)
    → prior.path ≡ current.path
    → (file_entry_changed prior current ≡ true) ↔ (content_of prior ≢ content_of current)
unfolding file_entry_changed
file_entry_changed-content prior current q =
    rw (beq_of_eq prior.path current.path q)
      (compare_contents prior.absent current.absent prior.hash current.hash)
  where
    compare_contents :
        (a b : Bool) (h k : Hash)
        → ((if bool_xor a b then true else if a then false else not (h == k)) ≡ true)
          ↔ ((if a then none else some h) ≢ (if b then none else some k))
    compare_contents true true h k = (λ h. cc, λ n. absurd (n refl))
    compare_contents true false h k = (λ _ q. cc, λ _. refl)
    compare_contents false true h k = (λ _ q. cc, λ _. refl)
    compare_contents false false h k = ground (arith, same_hash.same_iff h k)

pub path_changed-content :
    (prior current : List FileEntry) (path : String)
    → (path_changed (lookup path (by_path prior)) (lookup path (by_path current)) ≡ true)
      ↔ (content_at path prior ≢ content_at path current)
unfolding path_changed content_at
path_changed-content prior current path =
    rw (lookup-last path prior, lookup-last path current)
      (elim (Option-cases (last_entry path prior)) [
        | inl missing ↦ elim (Option-cases (last_entry path current)) [
          | inl gone ↦ rw (missing, gone) (λ h. cc, λ n. absurd (n refl))
          | inr (e, found) ↦ rw (missing, found) (λ _ q. cc, λ _. refl)
        ]
        | inr (e, found) ↦ elim (Option-cases (last_entry path current)) [
          | inl gone ↦ rw (found, gone) (λ _ q. cc, λ _. refl)
          | inr (f, now) ↦
              let q =
                last_entry-path path prior e found ∙ sym (last_entry-path path current f now) in
              let test = file_entry_changed-content e f q in
              rw (found, now)
                (
                  λ h r. test.0 h (some-injective (content_of e) (content_of f) r),
                  λ n. test.1 (λ r. n (ap some r)),
                )
        ]
      ])

-- Nothing differs where the contents do not.
pub content_of_unchanged :
    (prior current : List FileEntry) (path : String)
    → path_changed (lookup path (by_path prior)) (lookup path (by_path current)) ≡ false
    → content_at path prior ≡ content_at path current
content_of_unchanged prior current path h =
    elim (Bool-cases (content_at path prior == content_at path current)) [
      | inl same ↦ eq_of_beq (content_at path prior) (content_at path current) same
      | inr other ↦
          let n = differs_of_beq (content_at path prior) (content_at path current) other in
          let changed = (path_changed-content prior current path).1 n in cc
    ]

-- ===== src/Adapter/Entry/Native.antt =====
-- internal/adapter/native.go: the facts about the files that a tool may read, from the disk.
use uawp.Base.{
  ℕ, Bool, true, false, not, ◌*◌, ◌&&◌, ◌||◌, Option, none, some, List, [], ◌∷◌, ◌==◌, bytes_eq,
  nat_eq, if◌then◌else◌, Bytes, codes, is_empty, Result, ok, ◌>>=◌, ◌>>◌, refuse_if, contains,
  contains_any, has_prefix, length, ltb,
}
use uawp.Base.FilePath.{split, clean}
use uawp.Base.Utf8.{is_valid_after}
use uawp.Workspace.Boundary.{ways}
use uawp.Workspace.Disk.{Disk, Node, file, directory, lookup, is_directory}
use uawp.Adapter.Entry.{
  Snapshot, FileFact, FileState, file_missing, file_regular, file_unsafe, file_binary,
  file_invalid_utf8, file_too_large,
}

pub data NativeError : Type 0 where
  invalid_candidate : NativeError

abbrev max_native_bytes : ℕ
max_native_bytes = 1024 * 1024

unfoldable pub is_candidate : Bytes → Bool
unfolding clean
is_candidate name =
    not (is_empty name)
    && not (has_prefix name (codes "/"))
    && not (contains_any name (codes "\\"))
    && clean name == name
    && not (has_prefix name (codes "../"))

-- The loop over the ancestors, from the root; the last of the paths is the target.
unfoldable pub has_unsafe_ancestor : Disk → List Bytes → Bool
has_unsafe_ancestor d [] = false
has_unsafe_ancestor d (p ∷ []) = false
has_unsafe_ancestor d (p ∷ q ∷ paths) = elim (lookup d p) [
  | none ↦ false
  | some n ↦ if is_directory (some n) then has_unsafe_ancestor d (q ∷ paths) else true
]

abbrev bare_fact : Bytes → FileState → FileFact
bare_fact name state = record { path = name; state = state; sha256 = []; content = []; mode = 0 }

-- The switch on the content.
unfoldable pub content_fact : (Bytes → Bytes) → Bytes → Bytes → ℕ → FileFact
unfolding is_valid_after
content_fact hash_bytes name content mode =
    if ltb max_native_bytes (length content)
    then bare_fact name file_too_large
    else if contains content 0
    then bare_fact name file_binary
    else if not (is_valid_after 0 content)
    then bare_fact name file_invalid_utf8
    else record {
      path = name;
      state = file_regular;
      sha256 = hash_bytes content;
      content = content;
      mode = mode;
    }

-- The root and the directory above it are directories.
abbrev found_at : Disk → Bytes → Option Node
found_at d name = if name == codes "." || name == codes ".." then some directory else lookup d name

-- The body of the loop over the candidates.
unfoldable pub file_fact : (Bytes → Bytes) → Disk → Bytes → FileFact
unfolding ways has_unsafe_ancestor content_fact split
file_fact hash_bytes d name =
    if has_unsafe_ancestor d (ways [] (split b'/' name))
    then bare_fact name file_unsafe
    else elim (found_at d name) [
      | none ↦ bare_fact name file_missing
      | some (file content mode) ↦ content_fact hash_bytes name content mode
      | some other ↦ bare_fact name file_unsafe
    ]

unfoldable pub file_facts :
    (Bytes → Bytes) → Disk → List Bytes → Result NativeError (List (Bytes × FileFact))
unfolding is_candidate file_fact
file_facts hash_bytes d [] = ok []
file_facts hash_bytes d (name ∷ names) = do
  refuse_if (not (is_candidate name)) invalid_candidate
  rest ← file_facts hash_bytes d names
  ok ((name, file_fact hash_bytes d name) ∷ rest)

-- `root` is the root with its links resolved.
unfoldable pub discover_snapshot :
    (Bytes → Bytes)
    → Bytes
    → Disk
    → List Bytes
    → Bytes
    → List (Bytes × Bytes)
    → Result NativeError Snapshot
unfolding file_facts
discover_snapshot hash_bytes root d candidates version options = do
  files ← file_facts hash_bytes d candidates
  ok (record { root = root; files = files; provider_version = version; options = options })

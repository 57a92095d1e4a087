-- ===== src/Workspace/Boundary.antt =====
-- internal/workspace/boundary.go: which paths UAWP may change, and where they lead. A target is
-- named by its path below the root.
pub mod Laws
mod Tests
use uawp.Base.{
  ℕ, Bool, true, false, ◌&&◌, ◌||◌, not, Option, none, some, List, [], ◌∷◌, ◌++◌, map, ◌==◌, ◌/=◌,
  bytes_eq, nat_eq, if◌then◌else◌, leb, ltb, Result, ok, err, ◌>>=◌, ◌>>◌, refuse_if, contains,
  length, get_elem?, Bytes, codes, is_empty, has_prefix, has_suffix, contains_any, lower, ◌-◌,
  trim_prefix,
}
use uawp.Base.FilePath.{split, join, cut, clean}
use uawp.Base.Sort.{any}
use uawp.Base.Utf8.{runes, is_control}
use uawp.Workspace.Disk.{Node, Disk, lookup, is_directory, is_link}
use uawp.Workspace.Op.{ApplyError, invalid_path, unsafe_ancestor}

-- strings.ToUpper, as far as it makes an ASCII letter that the comparisons ask for.
abbrev upper : ℕ → ℕ
upper r = if leb b'a' r && leb r b'z' then r - 32 else r

-- The text before the first dot, as upper runes.
unfoldable pub device_name : Bytes → List ℕ
device_name segment =
    map upper (runes (elim (cut b'.' segment) [ none ↦ segment | some (base, rest) ↦ base ]))

abbrev is_device_digit : Option ℕ → Bool
is_device_digit none = false
is_device_digit (some r) = (leb b'1' r && leb r b'9') || r == 0xb9 || r == 0xb2 || r == 0xb3

unfoldable pub is_device : Bytes → Bool
unfolding device_name
is_device segment =
    let base = device_name segment in
    contains (codes "CON" ∷ codes "PRN" ∷ codes "AUX" ∷ codes "NUL" ∷ []) base
    || ((has_prefix base (codes "COM") || has_prefix base (codes "LPT"))
        && length base == 4
        && is_device_digit (get_elem? base 3))

unfoldable pub is_portable_segment : Bytes → Bool
is_portable_segment segment =
    not (is_empty segment)
    && segment /= codes "."
    && segment /= codes ".."
    && not (has_suffix segment (codes "."))
    && not (has_suffix segment (codes " "))
    && not (contains_any segment (codes "<>:\"/\\|?*"))
    && not (any is_control (runes segment))
    && not (is_device segment)

unfoldable pub all_portable : List Bytes → Bool
all_portable [] = true
all_portable (s ∷ segments) = is_portable_segment s && all_portable segments

abbrev single_names : List Bytes
single_names =
    codes "manifest.json"
    ∷ codes "CONTEXT.md"
    ∷ codes "ACTIVE_WORKER.md"
    ∷ codes "DECISIONS.md"
    ∷ codes "INSTRUCTIONS.md"
    ∷ codes "RECOVERY.json"
    ∷ codes "PURGE.json"
    ∷ codes "checkpoints"
    ∷ codes "migrations"
    ∷ codes "recovery"
    ∷ []

abbrev bundle_names : List Bytes
bundle_names =
    codes "journal.json" ∷ codes "plan.json" ∷ codes "receipt.json" ∷ codes "backups" ∷ []

unfoldable pub is_allowed_path : List Bytes → Bool
is_allowed_path (a ∷ []) = contains single_names a
is_allowed_path (a ∷ b ∷ []) =
    a == codes "checkpoints"
    || (a == codes "migrations" && has_suffix b (codes ".json"))
    || a == codes "recovery"
is_allowed_path (a ∷ b ∷ c ∷ []) = a == codes "recovery" && contains bundle_names c
is_allowed_path (a ∷ b ∷ c ∷ e ∷ []) = a == codes "recovery" && c == codes "backups"
is_allowed_path _ = false

-- filepath.Join of a path below the root and a segment.
abbrev pub below : Bytes → Bytes → Bytes
below base segment = if is_empty base then segment else base ++ (b'/' ∷ segment)

-- The paths on the way to the last one.
unfoldable pub ways : Bytes → List Bytes → List Bytes
ways base [] = []
ways base (s ∷ segments) = below base s ∷ ways (below base s) segments

-- The loop of `rejectSymlinkAncestors` over the paths from the namespace to the target.
unfoldable pub inspect : Disk → Bytes → List Bytes → Result ApplyError (Unit {0})
inspect d target [] = ok tt
inspect d target (p ∷ paths) = do
  refuse_if (is_link (lookup d p)) unsafe_ancestor
  refuse_if
      (elim (lookup d p) [ none ↦ false | some n ↦ p /= target && not (is_directory (some n)) ])
      unsafe_ancestor
  inspect d target paths

-- From the namespace the way to a path outside goes over the root, which is a directory.
unfoldable pub reject_symlink_ancestors : Disk → Bytes → Result ApplyError (Unit {0})
reject_symlink_ancestors d target =
    let way = ways [] (split b'/' target) in
    inspect d target (if has_prefix target (codes ".uawp/") then way else codes ".uawp" ∷ way)

unfoldable pub resolve_uawp : Disk → Bytes → Result ApplyError Bytes
resolve_uawp d relative = do
  refuse_if
      (is_empty relative
        || has_prefix relative (codes "/")
        || contains_any relative (codes "\\")
        || contains relative 0)
      invalid_path
  refuse_if
      (clean relative /= relative
        || clean relative == codes "."
        || has_prefix (clean relative) (codes "../"))
      invalid_path
  let segments = split b'/' (clean relative)
  refuse_if (not (all_portable segments)) invalid_path
  refuse_if (not (is_allowed_path segments)) invalid_path
  let target = codes ".uawp/" ++ join (codes "/") segments
  reject_symlink_ancestors d target
  ok target

abbrev native_names : List Bytes
native_names =
    codes "AGENTS.md"
    ∷ codes "AGENTS.override.md"
    ∷ codes "CLAUDE.md"
    ∷ codes "CODEBUDDY.md"
    ∷ codes ".claude/CLAUDE.md"
    ∷ []

unfoldable pub last_of : List Bytes → Bytes
last_of [] = []
last_of (s ∷ []) = s
last_of (s ∷ t ∷ rest) = last_of (t ∷ rest)

unfoldable pub is_root_markdown : List Bytes → Bool
is_root_markdown (s ∷ []) = is_portable_segment s && has_suffix (map lower s) (codes ".md")
is_root_markdown _ = false

unfoldable pub is_nested_codex : List Bytes → Bool
is_nested_codex segments =
    ltb 1 (length segments)
    && (last_of segments == codes "AGENTS.md" || last_of segments == codes "AGENTS.override.md")

unfoldable pub resolve_native : Disk → Bytes → Result ApplyError Bytes
resolve_native d relative = do
  let segments = split b'/' relative
  refuse_if
      (not (contains native_names relative)
        && not (is_root_markdown segments)
        && not (is_nested_codex segments))
      invalid_path
  refuse_if (not (all_portable segments)) invalid_path
  let target = relative
  reject_symlink_ancestors d target
  ok target

-- internal/workspace/apply.go
unfoldable pub target_for_change : Disk → Bytes → Result ApplyError Bytes
target_for_change d path =
    if path == codes ".uawp"
    then ok (codes ".uawp")
    else if not (has_prefix path (codes ".uawp/"))
    then resolve_native d path
    else resolve_uawp d (trim_prefix path (codes ".uawp/"))

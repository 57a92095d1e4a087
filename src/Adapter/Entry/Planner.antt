-- ===== src/Adapter/Entry/Planner.antt =====
-- internal/adapter/planner.go
use uawp.Base.{
  ◌||◌, Option, none, some, List, [], ◌∷◌, ◌++◌, ◌==◌, bytes_eq, if◌then◌else◌, Bytes, codes,
  is_empty, trim_space, contains,
}
use uawp.Base.FilePath.{split}
use uawp.Adapter.Entry.{Snapshot, Resolution, option}
use uawp.Adapter.Entry.Claude.{claude_resolve}
use uawp.Adapter.Entry.Codex.{codex_resolve, join_path, working_parts}
use uawp.Adapter.Entry.WorkBuddy.{work_buddy_resolve}

-- `Adapter`, less the links to the documentation of the tool.
pub record Adapter : Type 0 where
  pub id : Bytes
  pub resolve : Snapshot → Resolution

abbrev pub codex : Adapter
codex = record { id = codes "codex"; resolve = codex_resolve }

abbrev pub claude_code : Adapter
claude_code = record { id = codes "claude-code"; resolve = claude_resolve }

abbrev pub work_buddy : Adapter
work_buddy = record { id = codes "workbuddy"; resolve = work_buddy_resolve }

-- `Lookup`
unfoldable pub lookup_adapter : Bytes → Option Adapter
lookup_adapter id =
    if id == codes "codex"
    then some codex
    else if id == codes "claude-code"
    then some claude_code
    else if id == codes "workbuddy"
    then some work_buddy
    else none

-- `appendUnique`
unfoldable pub append_unique : List Bytes → Bytes → List Bytes
append_unique items value = if contains items value then items else items ++ (value ∷ [])

unfoldable pub add_fallbacks : List Bytes → List Bytes → List Bytes
unfolding append_unique trim_space
add_fallbacks paths [] = paths
add_fallbacks paths (raw ∷ rest) =
    let name = trim_space raw in
    add_fallbacks (if is_empty name || name == codes "?" then paths else append_unique paths name)
      rest

unfoldable pub add_directories : List Bytes → Bytes → List Bytes → List Bytes
unfolding append_unique join_path
add_directories paths base [] = paths
add_directories paths base (part ∷ parts) =
    let dir = join_path base part in
    add_directories
      (append_unique (append_unique paths (join_path dir (codes "AGENTS.override.md")))
        (join_path dir (codes "AGENTS.md")))
      dir parts

-- `options` are those of the tool.
unfoldable pub candidate_paths : Bytes → List (Bytes × Bytes) → List Bytes
unfolding add_fallbacks add_directories working_parts option split
candidate_paths id options =
    if id == codes "codex"
    then add_directories
        (add_fallbacks (codes "AGENTS.override.md" ∷ codes "AGENTS.md" ∷ [])
          (split b',' (option options (codes "fallbackFilenames"))))
        [] (working_parts (option options (codes "workingDirectory")))
    else if id == codes "claude-code"
    then codes "CLAUDE.md"
      ∷ codes ".claude/CLAUDE.md"
      ∷ codes "CLAUDE.local.md"
      ∷ codes "AGENTS.md"
      ∷ []
    else if id == codes "workbuddy"
    then codes "CODEBUDDY.md" ∷ codes "AGENTS.md" ∷ codes ".codebuddy/rules/uawp/RULE.mdc" ∷ []
    else []

unfoldable pub artifact_id : Bytes → Bytes
artifact_id path =
    if path == codes "AGENTS.md" || path == codes "AGENTS.override.md"
    then codes "uawp-entry-agents-v1"
    else if path == codes "CLAUDE.md" || path == codes ".claude/CLAUDE.md"
    then codes "uawp-entry-claude-v1"
    else if path == codes "CODEBUDDY.md"
    then codes "uawp-entry-codebuddy-v1"
    else codes "uawp-entry-native-v1"

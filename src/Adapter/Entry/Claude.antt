-- ===== src/Adapter/Entry/Claude.antt =====
-- internal/adapter/claude.go
use uawp.Base.{
  Bool, true, false, not, ◌&&◌, ◌||◌, none, some, List, [], ◌∷◌, ◌==◌, ◌/=◌, bytes_eq,
  if◌then◌else◌, Bytes, codes, is_empty,
}
use uawp.Base.FilePath.{split}
use uawp.Base.Int.{ℤ, pos, int_ltb, int_eq}
use uawp.Base.Number.{atoi}
use uawp.Core.Manifest.{managed_block, import_line}
use uawp.Adapter.Entry.{
  EntryState, effective, co_loaded, shadowed, unavailable, fallback_effective, missing, Snapshot,
  Resolution, Route, verified, conditional, unsupported, is_present, option, canonical, route_to,
  no_route, Finding, Candidate, set_state,
}

abbrev pub own_entry : Bytes
own_entry = codes "CLAUDE.md"

abbrev pub nested_entry : Bytes
nested_entry = codes ".claude/CLAUDE.md"

abbrev pub local_entry : Bytes
local_entry = codes "CLAUDE.local.md"

abbrev pub agents_entry : Bytes
agents_entry = codes "AGENTS.md"

-- The comparison with version 2.1.277.
unfoldable pub is_direct_version : ℤ → ℤ → ℤ → Bool
is_direct_version a b c =
    int_ltb (pos 2) a || (a == pos 2 && (int_ltb (pos 1) b || (b == pos 1 && int_ltb (pos 276) c)))

unfoldable pub version_support : List Bytes → Bool × Bool
unfolding atoi is_direct_version
version_support (a ∷ b ∷ c ∷ []) = elim (atoi a) [
  | none ↦ (false, false)
  | some m ↦ elim (atoi b) [
    | none ↦ (false, false)
    | some n ↦ elim (atoi c) [ none ↦ (false, false) | some p ↦ (is_direct_version m n p, true) ]
  ]
]
version_support _ = (false, false)

-- Whether AGENTS.md is read, and whether that is known.
unfoldable pub claude_direct_support : Snapshot → Bool × Bool
unfolding option version_support split
claude_direct_support s =
    let direct = option s.options (codes "directAgentsSupport") in
    let environment = option s.options (codes "providerEnvironment") in
    if direct == codes "true"
    then (true, true)
    else if direct == codes "false"
    then (false, true)
    else if direct == codes "unknown"
    then (false, false)
    else if not (is_empty environment) && environment /= codes "anthropic"
    then (false, true)
    else if is_empty s.provider_version
    then (false, false)
    else version_support (split b'.' s.provider_version)

-- Which of the four files are there.
pub record Present : Type 0 where
  pub own : Bool
  pub nested : Bool
  pub local : Bool
  pub agents : Bool

unfoldable pub present_files : Snapshot → Present
unfolding is_present
present_files s = record {
  own = is_present s own_entry;
  nested = is_present s nested_entry;
  local = is_present s local_entry;
  agents = is_present s agents_entry;
}

abbrev pub candidate : Bytes → EntryState → Candidate
candidate path state = record { path = path; state = state }

abbrev pub all_missing : List Candidate
all_missing =
    candidate own_entry missing
    ∷ candidate nested_entry missing
    ∷ candidate local_entry missing
    ∷ candidate agents_entry missing
    ∷ []

abbrev set_if : Bool → Bytes → EntryState → List Candidate → List Candidate
set_if b path state candidates = if b then set_state path state candidates else candidates

-- The entry of the first loop, empty if there is none.
abbrev claude_entry : Present → Bytes
claude_entry here = if here.own then own_entry else if here.nested then nested_entry else []

-- The states, up to the routes.
unfoldable pub claude_states : Bytes → Present → List Candidate
unfolding set_state
claude_states setting here =
    let entries =
      set_if here.nested nested_entry (if here.own then co_loaded else effective)
        (set_if here.own own_entry effective all_missing) in
    let locals = set_if here.local local_entry co_loaded entries in
    if setting == codes "claude-md-and-agents-md" && here.agents
    then set_state agents_entry co_loaded locals
    else if setting == codes "claude-md" && here.agents
    then set_state agents_entry unavailable locals
    else if here.own || here.nested || here.local
    then set_if here.agents agents_entry shadowed locals
    else locals

abbrev healthy : List Candidate → Route → Resolution
healthy candidates route = record {
  provider = codes "claude-code";
  candidates = candidates;
  route = route;
  confidence = verified;
  findings = [];
  health = codes "HEALTHY";
}

abbrev finding : Bytes → Bytes → Finding
finding code severity = record { code = code; severity = severity }

-- Where AGENTS.md is there and no file of the tool is.
unfoldable pub claude_agents : Bool × Bool → List Candidate → Resolution
unfolding set_state
claude_agents (true, known) candidates =
    healthy (set_state agents_entry fallback_effective candidates)
      (route_to agents_entry managed_block false)
claude_agents (false, known) candidates =
    let creation = finding (codes "CLAUDE_CREATION_CHANGES_SELECTION") (codes "warning") in
    let base =
      healthy (set_state agents_entry unavailable candidates)
        (route_to own_entry import_line true) in
    if known
    then record base {
      findings = creation ∷ finding (codes "CLAUDE_AGENTS_UNAVAILABLE") (codes "warning") ∷ [];
    }
    else record base {
      findings = creation ∷ [];
      confidence = conditional;
      health = codes "CONDITIONAL";
    }

-- The routes.
unfoldable pub claude_route : Bytes → Present → Bool × Bool → List Candidate → Resolution
unfolding claude_agents
claude_route setting here support candidates =
    if not (is_empty (claude_entry here))
    then healthy candidates (route_to (claude_entry here) import_line false)
    else if here.local
    then healthy candidates (route_to own_entry import_line true)
    else if here.agents && setting /= codes "claude-md"
    then claude_agents support candidates
    else healthy candidates (route_to own_entry import_line true)

abbrev pub managed_only : Resolution
managed_only = record {
  provider = codes "claude-code";
  candidates = all_missing;
  route = no_route;
  confidence = unsupported;
  findings = finding (codes "CLAUDE_PROJECT_INSTRUCTIONS_DISABLED") (codes "error") ∷ [];
  health = codes "BLOCKED";
}

abbrev pub setting_of : Snapshot → Bytes
setting_of s =
    let setting = option s.options (codes "instructionFiles") in
    if is_empty setting then codes "claude-md-or-agents-md" else setting

unfoldable pub claude_resolve : Snapshot → Resolution
unfolding canonical present_files claude_states claude_route claude_direct_support option
claude_resolve s =
    let setting = setting_of s in
    let here = present_files s in
    canonical (
      if setting == codes "managed-only"
      then managed_only
      else claude_route setting here (claude_direct_support s) (claude_states setting here))

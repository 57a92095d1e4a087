-- ===== src/Adapter/Entry.antt =====
-- internal/adapter/types.go: what an adapter is shown of a workspace, and what it answers. Of a
-- finding the model keeps the code and the severity; the messages are texts.
pub mod Claude
pub mod Codex
pub mod WorkBuddy
pub mod Planner
pub mod Native
pub mod Laws
mod Tests
use uawp.Base.{
  ℕ, Bool, true, false, not, ◌&&◌, Option, none, some, List, [], ◌∷◌, ◌++◌, ◌==◌, bytes_eq,
  if◌then◌else◌, Bytes, codes, is_empty, bytes_ltb, map,
}
use uawp.Base.Sort.{sort}
use uawp.Core.Manifest.{IntegrationMode, unknown}

pub data EntryState : Type 0 where
  effective co_loaded fallback_effective shadowed unavailable unknown_entry missing : EntryState

pub data Confidence : Type 0 where
  verified conditional unsupported : Confidence

pub data FileState : Type 0 where
  file_missing file_regular file_unsafe file_binary file_invalid_utf8 file_too_large : FileState

pub record FileFact : Type 0 where
  pub path : Bytes
  pub state : FileState
  pub sha256 : Bytes
  pub content : Bytes
  pub mode : ℕ

-- The maps are the lists of their entries; the first of a key counts.
pub record Snapshot : Type 0 where
  pub root : Bytes
  pub files : List (Bytes × FileFact)
  pub provider_version : Bytes
  pub options : List (Bytes × Bytes)

pub record Candidate : Type 0 where
  pub path : Bytes
  pub state : EntryState

pub record Route : Type 0 where
  pub path : Bytes
  pub mode : IntegrationMode
  pub target : Bytes
  pub create : Bool

pub record Finding : Type 0 where
  pub code : Bytes
  pub severity : Bytes

pub record Resolution : Type 0 where
  pub provider : Bytes
  pub candidates : List Candidate
  pub route : Route
  pub confidence : Confidence
  pub findings : List Finding
  pub health : Bytes

unfoldable pub entry {ℓ} : {A : Type ℓ} → List (Bytes × A) → Bytes → Option A
entry [] key = none
entry ((k, a) ∷ rest) key = if k == key then some a else entry rest key

-- `s.Options[key]`, empty where there is none.
unfoldable pub option : List (Bytes × Bytes) → Bytes → Bytes
option options key = elim (entry options key) [ none ↦ [] | some value ↦ value ]

abbrev pub is_regular_fact : FileState → Bool
is_regular_fact file_regular = true
is_regular_fact _ = false

abbrev pub is_missing_fact : FileState → Bool
is_missing_fact file_missing = true
is_missing_fact _ = false

-- A regular file that is not empty.
abbrev pub is_filled : FileFact → Bool
is_filled fact = is_regular_fact fact.state && not (is_empty fact.content)

-- A file that is there and cannot be read as text counts as not present.
unfoldable pub is_present : Snapshot → Bytes → Bool
is_present s path = elim (entry s.files path) [ none ↦ false | some fact ↦ is_filled fact ]

abbrev pub instructions : Bytes
instructions = codes ".uawp/INSTRUCTIONS.md"

abbrev pub no_route : Route
no_route = record { path = []; mode = unknown []; target = []; create = false }

abbrev pub route_to : Bytes → IntegrationMode → Bool → Route
route_to path mode create = record {
  path = path;
  mode = mode;
  target = instructions;
  create = create;
}

abbrev pub by_candidate : Candidate → Candidate → Bool
by_candidate c d = bytes_ltb c.path d.path

abbrev pub by_code : Finding → Finding → Bool
by_code f g = bytes_ltb f.code g.code

unfoldable pub canonical : Resolution → Resolution
canonical r = record r {
  candidates = sort by_candidate r.candidates;
  findings = sort by_code r.findings;
}

-- The loop that sets the state of a path.
unfoldable pub set_state : Bytes → EntryState → List Candidate → List Candidate
set_state path state [] = []
set_state path state (c ∷ candidates) =
    let rest = set_state path state candidates in
    if c.path == path then record c { state = state } ∷ rest else c ∷ rest

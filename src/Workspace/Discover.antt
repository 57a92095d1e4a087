-- ===== src/Workspace/Discover.antt =====
-- internal/workspace/discover.go: what stands at the names that the workspace uses.
use uawp.Base.{
  ℕ, Bool, true, false, Option, none, some, List, [], ◌∷◌, ◌++◌, bytes_eq, if◌then◌else◌, Result,
  ok, err, ◌>>=◌, Bytes, codes, length, ltb, ◌*◌,
}
use uawp.Core.Manifest.{Manifest}
use uawp.Core.Manifest.Decode.{JsonDocument, DecodeError, decode_manifest}
use uawp.Core.StateVersion.{StateCompatibility, classify_state_version}
use uawp.Plan.Change.{missing_sha256}
use uawp.Plan.Persist.{Input}
use uawp.Workspace.Disk.{Node, file, directory, symlink, special, Disk, lookup}

pub data ManifestProblem : Type 0 where
  not_regular too_large : ManifestProblem
  undecoded : DecodeError → ManifestProblem

-- The classification, with what it finds.
pub data Namespace : Type 0 where
  absent_namespace unknown_namespace : Namespace
  owned_namespace : Manifest → StateCompatibility → Namespace
  invalid_namespace : ManifestProblem → Namespace

pub record Inventory : Type 0 where
  pub namespace : Namespace
  pub root_context_present : Bool
  pub native_files : List Bytes

pub data DiscoverError : Type 0 where
  irregular_project_input : DiscoverError

abbrev pub stands : Option Node → Bool
stands none = false
stands (some n) = true

abbrev max_manifest_bytes : ℕ
max_manifest_bytes = 1024 * 1024

-- The body of the loop over the three names.
unfoldable pub project_input : (Bytes → Bytes) → Disk → Bytes → Result DiscoverError Input
project_input hash_bytes d name = elim (lookup d name) [
  | none ↦ ok (record { path = name; sha256 = missing_sha256 })
  | some (file content mode) ↦ ok (record { path = name; sha256 = hash_bytes content })
  | some directory ↦ err irregular_project_input
  | some (symlink target) ↦ err irregular_project_input
  | some special ↦ err irregular_project_input
]

unfoldable pub project_inputs_of :
    (Bytes → Bytes) → Disk → List Bytes → Result DiscoverError (List Input)
unfolding project_input
project_inputs_of hash_bytes d [] = ok []
project_inputs_of hash_bytes d (name ∷ names) = do
  input ← project_input hash_bytes d name
  inputs ← project_inputs_of hash_bytes d names
  ok (input ∷ inputs)

unfoldable pub project_inputs : (Bytes → Bytes) → Disk → Result DiscoverError (List Input)
unfolding project_inputs_of
project_inputs hash_bytes d =
    project_inputs_of hash_bytes d (codes "context.md" ∷ codes "AGENTS.md" ∷ codes "CLAUDE.md" ∷ [])

abbrev present_file : Disk → Bytes → List Bytes
present_file d name = if stands (lookup d name) then name ∷ [] else []

-- `json` is the decoder of encoding/json.
module _ (json : Bytes → JsonDocument) where
  -- The manifest of a namespace that is a directory.
  unfoldable pub classify_manifest : Option Node → Namespace
  classify_manifest none = unknown_namespace
  classify_manifest (some (file content mode)) =
      if ltb max_manifest_bytes (length content)
      then invalid_namespace too_large
      else (elim (decode_manifest (json content)) [
        | err e ↦ invalid_namespace (undecoded e)
        | ok manifest ↦ owned_namespace manifest (classify_state_version manifest.state_version)
      ])
  classify_manifest (some other) = invalid_namespace not_regular

  unfoldable pub classify_namespace : Disk → Namespace
  unfolding classify_manifest
  classify_namespace d = elim (lookup d (codes ".uawp")) [
    | none ↦ absent_namespace
    | some directory ↦ classify_manifest (lookup d (codes ".uawp/manifest.json"))
    | some other ↦ unknown_namespace
  ]

  unfoldable pub discover : Disk → Inventory
  unfolding classify_namespace
  discover d = record {
    namespace = classify_namespace d;
    root_context_present = stands (lookup d (codes "context.md"));
    native_files = present_file d (codes "AGENTS.md") ++ present_file d (codes "CLAUDE.md");
  }

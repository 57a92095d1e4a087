-- ===== src/Migration/ToV11.antt =====
-- internal/migration/v1_0_to_v1_1.go: the step that adds two directories to a workspace.
mod Tests
use uawp.Base.{
  ℕ, suc, ◌+◌, ◌*◌, Bool, ◌||◌, Option, none, some, List, [], ◌∷◌, ◌++◌, ◌==◌, ◌/=◌, bytes_eq,
  if◌then◌else◌, Result, ok, err, ◌>>=◌, ◌>>◌, refuse_if, Bytes, codes, ◌&&◌, not, true,
}
use uawp.Base.Int.{pos}
use uawp.Core.Manifest.{Manifest}
use uawp.Plan.Change.{Change, new_directory, with_sequence, missing_sha256, directory_sha256}
use uawp.Plan.Persist.{Input}

-- What a step is given. No step reads `GeneratedAt`.
pub record Context : Type 0 where
  pub manifest : Manifest
  pub inputs : List Input
  pub files : List (Bytes × Bytes)

pub data StepError : Type 0 where
  wrong_state manifest_input_missing input_missing not_a_directory : StepError

-- The map of the inputs, looked up: the last entry of a path counts.
unfoldable pub input_hash : List Input → Bytes → Option Bytes
input_hash [] path = none
input_hash (i ∷ inputs) path =
    let later = input_hash inputs path in
    elim later [ some hash ↦ some hash | none ↦ if i.path == path then some i.sha256 else none ]

abbrev pub is_state : Manifest → Bytes → Bool
is_state m version = m.protocol == codes "UAWP" && m.state_version == version

-- The body of the loop over the two directories.
unfoldable pub plan_directory : List Input → ℕ → Bytes → Result StepError (List Change)
plan_directory inputs index path = elim (input_hash inputs path) [
  | none ↦ err input_missing
  | some snapshot ↦
      if snapshot == missing_sha256
      then ok (with_sequence (new_directory path 0o700) (pos ((index + 1) * 10)) ∷ [])
      else if snapshot == directory_sha256
      then ok []
      else err not_a_directory
]

unfoldable pub plan_directories : List Input → ℕ → List Bytes → Result StepError (List Change)
plan_directories inputs index [] = ok []
plan_directories inputs index (path ∷ paths) = do
  own ← plan_directory inputs index path
  later ← plan_directories inputs (suc index) paths
  ok (own ++ later)

abbrev pub directories : List Bytes
directories = codes ".uawp/migrations" ∷ codes ".uawp/recovery" ∷ []

unfoldable pub plan_step : Context → Result StepError (List Change)
plan_step context = do
  refuse_if (not (is_state context.manifest (codes "1.0.0"))) wrong_state
  refuse_if
      (elim (input_hash context.inputs (codes ".uawp/manifest.json")) [
        | none ↦ true
        | some hash ↦ hash == missing_sha256 || hash == directory_sha256
      ])
      manifest_input_missing
  plan_directories context.inputs 0 directories

unfoldable pub verify_step : Context → Result StepError (Unit {0})
verify_step context = refuse_if (not (is_state context.manifest (codes "1.1.0"))) wrong_state

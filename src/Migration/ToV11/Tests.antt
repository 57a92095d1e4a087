-- ===== src/Migration/ToV11/Tests.antt =====
-- Runs of the step.
use uawp.Base.{◌≡◌, refl, List, [], ◌∷◌, Bytes, codes, ok, err, Result, bytes_beq, bytes_eq}
use uawp.Base.Int.{pos}
use uawp.Core.Manifest.{Manifest}
use uawp.Plan.Change.{Change, new_directory, with_sequence, missing_sha256, directory_sha256}
use uawp.Plan.Persist.{Input}
use uawp.Migration.ToV11.{
  Context, StepError, not_a_directory, input_hash, plan_directory, plan_directories, plan_step,
}

abbrev manifest : Manifest
manifest = record { protocol = codes "UAWP"; state_version = codes "1.0.0"; integrations = [] }

abbrev seen : Bytes → List Input
seen recovery =
    record { path = codes ".uawp/manifest.json"; sha256 = codes "hash" }
    ∷ record { path = codes ".uawp/migrations"; sha256 = missing_sha256 }
    ∷ record { path = codes ".uawp/recovery"; sha256 = recovery }
    ∷ []

-- Unfolding this opens all that a run calls.
planned : Context → Result StepError (List Change)
unfolding plan_step plan_directories plan_directory input_hash bytes_beq
planned = plan_step

abbrev context : Bytes → Context
context recovery = record { manifest = manifest; inputs = seen recovery; files = [] }

abbrev one_change : List Change
one_change = with_sequence (new_directory (codes ".uawp/migrations") 0o700) (pos 10) ∷ []

one_missing : plan_step (context directory_sha256) ≡ ok one_change
unfolding planned
one_missing = refl

a_file : plan_step (context (codes "hash")) ≡ err not_a_directory
unfolding planned
a_file = refl

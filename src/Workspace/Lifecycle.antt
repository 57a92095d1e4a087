-- ===== src/Workspace/Lifecycle.antt =====
-- internal/workspace/lifecycle.go, handoff.go, checkpoint.go, context.go and recover.go: the plans
-- that change the claim, the context and the checkpoints.
pub mod Laws
pub mod Applied
pub mod Freed
pub mod Handoff
pub mod Held
pub mod Sample
mod Tests
use uawp.Base.{
  ℕ, Bool, true, false, not, ◌&&◌, ◌||◌, Option, none, some, List, [], ◌∷◌, ◌++◌, ◌==◌, bytes_eq,
  nat_eq, if◌then◌else◌, Result, ok, err, ◌>>=◌, ◌>>◌, refuse_if, Bytes, codes, is_empty, length,
  ltb, ◌*◌, trim_space,
}
use uawp.Base.FilePath.{join}
use uawp.Base.Int.{pos}
use uawp.Base.Number.{decimal}
use uawp.Base.Pattern.{is_slug}
use uawp.Core.Ownership.{Ownership, Actor, OwnershipError, Time, validate_active_actor}
use uawp.Core.Ownership.Codec.{Clock, CodecError, decode_ownership, encode_ownership}
use uawp.Core.Ownership.Recovery.{RecoveryRequest, RecoveryAudit, recover_stale_ownership}
use uawp.Core.Ownership.Transition.{AcquireRequest, ReleaseRequest, acquire, release}
use uawp.Plan.Change.{Change, new_file, new_update_file, with_sequence, missing_sha256}
use uawp.Plan.Persist.{Plan, Input, Metadata, new_plan}
use uawp.Workspace.Boundary.{resolve_uawp}
use uawp.Workspace.Disk.{Disk, lookup, read_node}
use uawp.Workspace.Discover.{stands}
use uawp.Workspace.Op.{ApplyError}
use uawp.Workspace.Resume.{FindingCode, active_owner, is_resumable}
use uawp.Workspace.Status.{Readers, diagnose}

pub data LifecycleError : Type 0 where
  blocked unreadable invalid_request checkpoint_exists : LifecycleError
  codec : CodecError → LifecycleError
  ownership : OwnershipError → LifecycleError
  target : ApplyError → LifecycleError

pub record HandoffRequest : Type 0 where
  pub actor : Actor
  pub final_context : Bytes
  pub purpose : Bytes
  pub at : Time

pub record CheckpointRequest : Type 0 where
  pub actor : Actor
  pub milestone_id : Bytes
  pub label : Bytes
  pub decision_references : List Bytes
  pub at : Time

-- The root's path, and what the code calls and does not define.
pub record Setting : Type 0 where
  pub root : Bytes
  pub readers : Readers
  pub hash_bytes : Bytes → Bytes
  pub marshal : Bytes → Bytes → List Change → List Input → Metadata → Bytes

abbrev pub claim_path : Bytes
claim_path = codes ".uawp/ACTIVE_WORKER.md"

abbrev pub context_path : Bytes
context_path = codes ".uawp/CONTEXT.md"

abbrev pub decisions_path : Bytes
decisions_path = codes ".uawp/DECISIONS.md"

abbrev pub max_context_bytes : ℕ
max_context_bytes = 1024 * 1024

unfoldable pub as_codec {ℓ} : {A : Type ℓ} → Result CodecError A → Result LifecycleError A
as_codec (ok a) = ok a
as_codec (err e) = err (codec e)

unfoldable pub as_ownership {ℓ} : {A : Type ℓ} → Result OwnershipError A → Result LifecycleError A
as_ownership (ok a) = ok a
as_ownership (err e) = err (ownership e)

unfoldable pub as_target {ℓ} : {A : Type ℓ} → Result ApplyError A → Result LifecycleError A
as_target (ok a) = ok a
as_target (err e) = err (target e)

-- os.ReadFile
unfoldable pub read_file : Disk → Bytes → Result LifecycleError Bytes
read_file d path = elim (read_node (lookup d path)) [
  | none ↦ err unreadable
  | some content ↦ ok content
]

abbrev pub actor_metadata : Bytes → Bytes → ℕ → Bytes → Bytes → Metadata
actor_metadata worker session generation reason controller = record {
  actor_worker_id = worker;
  actor_session_id = session;
  ownership_generation = generation;
  reason = reason;
  controller_id = controller;
  transaction_id = [];
  journal_sha256 = [];
  recovery_action = [];
  migration_from = [];
  migration_to = [];
  migration_receipt_path = [];
  purge_export_path = [];
  purge_archive_sha256 = [];
  purge_marker_sha256 = [];
}

abbrev pub is_active_owner : FindingCode → Bool
is_active_owner active_owner = true
is_active_owner _ = false

module _ (s : Setting) (d : Disk) where
  abbrev pub clock : Clock
  clock = s.readers.clock

  abbrev pub update : Bytes → Bytes → Bytes → Change
  update path before after = new_update_file s.hash_bytes path 0o600 (s.hash_bytes before) after

  abbrev pub input : Bytes → Bytes → Input
  input path content = record { path = path; sha256 = s.hash_bytes content }

  abbrev pub plan_for : Bytes → List Change → List Input → Metadata → Plan
  plan_for operation = new_plan s.hash_bytes s.marshal operation s.root

  -- `planOwnershipTransition`
  unfoldable pub plan_ownership_transition :
      Bytes → Actor → (Ownership → Result OwnershipError Ownership) → Result LifecycleError Plan
  unfolding diagnose read_file decode_ownership encode_ownership new_plan
  plan_ownership_transition operation actor transition = do
    refuse_if (not (is_resumable (diagnose s.readers d))) blocked
    before ← read_file d claim_path
    current ← as_codec (decode_ownership clock before)
    next ← as_ownership (transition current)
    let generation = if actor.generation == 0 then next.generation else actor.generation
    after ← as_codec (encode_ownership clock next)
    ok (
        plan_for operation (update claim_path before after ∷ []) (input claim_path before ∷ []) (
          actor_metadata (trim_space actor.worker_id) (trim_space actor.session_id) generation []
            []))

  unfoldable pub plan_acquire : AcquireRequest → Result LifecycleError Plan
  unfolding plan_ownership_transition
  plan_acquire request =
      let actor : Actor = record {
        worker_id = trim_space request.worker_id;
        session_id = trim_space request.session_id;
        generation = 0;
      } in
      plan_ownership_transition (codes "acquire") actor (λ current. acquire current request)

  unfoldable pub plan_release : ReleaseRequest → Result LifecycleError Plan
  unfolding plan_ownership_transition
  plan_release request =
      plan_ownership_transition (codes "release") request.actor (λ current. release current request)

  unfoldable pub plan_handoff : HandoffRequest → Result LifecycleError Plan
  unfolding diagnose read_file decode_ownership encode_ownership new_plan
  plan_handoff request = do
    refuse_if (not (is_active_owner (diagnose s.readers d))) blocked
    let worker = trim_space request.actor.worker_id
    let purpose = trim_space request.purpose
    refuse_if
        (is_empty worker
          || is_empty purpose
          || is_empty request.final_context
          || ltb max_context_bytes (length request.final_context))
        invalid_request
    before ← read_file d claim_path
    owner ← as_codec (decode_ownership clock before)
    next ← as_ownership (release owner (record { actor = request.actor; at = request.at }))
    after ← as_codec (encode_ownership clock next)
    context ← read_file d context_path
    ok (
        plan_for (codes "handoff")
          (with_sequence (update context_path context request.final_context) (pos 10)
            ∷ with_sequence (update claim_path before after) (pos 20)
            ∷ [])
          (input context_path context ∷ input claim_path before ∷ [])
          (actor_metadata worker (trim_space request.actor.session_id) request.actor.generation
            purpose []))

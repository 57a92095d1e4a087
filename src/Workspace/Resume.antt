-- ===== src/Workspace/Resume.antt =====
-- internal/workspace/lifecycle.go: what a Session may do when it comes back to a workspace.
pub mod Laws
mod Tests
use uawp.Base.{
  Bool, true, false, not, ◌||◌, ◌==◌, ◌/=◌, nat_eq, bytes_eq, if◌then◌else◌, Result, ok, err, ◌>>=◌,
  ◌>>◌, refuse_if, is_empty, trim_space,
}
use uawp.Core.Ownership.{Ownership, Actor, OwnershipError, is_released}

-- internal/workspace/status.go
pub data FindingCode : Type 0 where
  ready uninitialized active_owner unknown_namespace invalid_manifest : FindingCode
  unsupported_version invalid_ownership incomplete_state recovery_required : FindingCode
  upgrade_required upgrade_available maintenance_blocked_active : FindingCode
  repair_available manual_repair_required : FindingCode

pub data ResumeOutcome : Type 0 where
  acquire_available owned_by_caller blocked_by_other blocked_by_session expired_generation :
      ResumeOutcome

pub data ResumeError : Type 0 where
  actor_required not_resumable : ResumeError
  unreadable : OwnershipError → ResumeError

pub record ResumeReport : Type 0 where
  pub outcome : ResumeOutcome
  pub owner : Ownership

abbrev pub is_resumable : FindingCode → Bool
is_resumable ready = true
is_resumable active_owner = true
is_resumable _ = false

-- The returns at the end, in their order.
unfoldable pub resume_outcome : Ownership → Actor → ResumeOutcome
resume_outcome owner actor =
    if is_released owner.status
    then acquire_available
    else if owner.worker_id /= trim_space actor.worker_id
    then blocked_by_other
    else if owner.session_id /= trim_space actor.session_id
    then blocked_by_session
    else if owner.generation /= actor.generation
    then expired_generation
    else if owner.worker_id == trim_space actor.worker_id
    then owned_by_caller
    else blocked_by_other

-- The code that `Status` finds and the claim that is read are arguments.
unfoldable pub resume :
    FindingCode → Result OwnershipError Ownership → Actor → Result ResumeError ResumeReport
resume code read actor = do
  refuse_if (is_empty (trim_space actor.worker_id) || is_empty (trim_space actor.session_id))
      actor_required
  refuse_if (not (is_resumable code)) not_resumable
  owner ← elim read [ ok owner ↦ ok owner | err e ↦ err (unreadable e) ]
  ok (record { outcome = resume_outcome owner actor; owner = owner })

-- ===== src/Workspace/Resume/Laws.antt =====
-- What Resume reports agrees with what the claim accepts.
use uawp.Base.{◌≡◌, ◌↔◌, arith, true, nat_eq, bytes_eq, bytes_beq_iff, ok, trim_space}
use uawp.Core.Ownership.{Ownership, Actor, validate_ownership, validate_active_actor}
use uawp.Core.Ownership.Validity.{validate_ownership_iff}
use uawp.Workspace.Resume.{FindingCode, is_resumable, owned_by_caller, resume_outcome, resume}

-- In a workspace that can be resumed and whose claim is valid, Resume reports to an actor that the
-- caller owns the claim exactly when ValidateActiveActor accepts the actor.
pub resume-owned_by_caller :
    (code : FindingCode) (owner : Ownership) (actor : Actor)
    → is_resumable code ≡ true
    → validate_ownership owner ≡ ok tt
    → (resume code (ok owner) actor ≡ ok (record { outcome = owned_by_caller; owner = owner }))
      ↔ (validate_active_actor owner actor ≡ ok tt)
unfolding resume resume_outcome validate_active_actor
resume-owned_by_caller code owner actor resumable valid = ground (
  arith,
  ((validate_ownership_iff owner).0 valid).lifetime,
  bytes_beq_iff owner.worker_id (trim_space actor.worker_id),
  bytes_beq_iff owner.session_id (trim_space actor.session_id),
)

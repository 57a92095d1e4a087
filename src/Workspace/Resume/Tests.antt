-- ===== src/Workspace/Resume/Tests.antt =====
-- Runs of Resume, and its theorem at a concrete claim.
use uawp.Base.{
  ◌≡◌, ◌↔◌, ◌+◌, refl, none, codes, ok, err, Result, bytes_beq, trim_space, equal_fold,
  contains_any, ℕ,
}
use uawp.Core.Ownership.{
  Ownership, Actor, active, validate_ownership, validate_active_actor, zero_instant, is_zero,
  before, is_long_or_multiline, check_release_time, OwnershipError,
}
use uawp.Workspace.Resume.{
  FindingCode, active_owner, recovery_required, ResumeReport, ResumeError, owned_by_caller,
  expired_generation, not_resumable, resume_outcome, resume,
}
use uawp.Workspace.Resume.Laws.{resume-owned_by_caller}

abbrev claim_of : ℕ → Ownership
claim_of generation = record {
  status = active;
  worker_id = codes "w1";
  session_id = codes "s1";
  generation = generation;
  agent = codes "codex";
  acquired_at = record { instant = zero_instant + 1; location = 0 };
  released_at = none;
  purpose = codes "work";
}

abbrev first_actor : Actor
first_actor = record { worker_id = codes "w1"; session_id = codes " s1"; generation = 1 }

-- Unfolding these opens all that a run calls.
resumed : FindingCode → Result OwnershipError Ownership → Actor → Result ResumeError ResumeReport
unfolding resume resume_outcome trim_space bytes_beq
resumed = resume

claim_checked : Ownership → Result OwnershipError (Unit {0})
unfolding validate_ownership check_release_time is_zero before is_long_or_multiline contains_any
    trim_space equal_fold bytes_beq
claim_checked = validate_ownership

still_mine :
    resume active_owner (ok (claim_of 1)) first_actor
    ≡ ok (record { outcome = owned_by_caller; owner = claim_of 1 })
unfolding resumed
still_mine = refl

moved_on :
    resume active_owner (ok (claim_of 2)) first_actor
    ≡ ok (record { outcome = expired_generation; owner = claim_of 2 })
unfolding resumed
moved_on = refl

interrupted : resume recovery_required (ok (claim_of 1)) first_actor ≡ err not_resumable
unfolding resumed
interrupted = refl

claim_of_valid : validate_ownership (claim_of 1) ≡ ok tt
unfolding claim_checked
claim_of_valid = refl

resume-owned_by_caller_example :
    (resume active_owner (ok (claim_of 1)) first_actor
      ≡ ok (record { outcome = owned_by_caller; owner = claim_of 1 }))
    ↔ (validate_active_actor (claim_of 1) first_actor ≡ ok tt)
resume-owned_by_caller_example =
    resume-owned_by_caller active_owner (claim_of 1) first_actor refl claim_of_valid

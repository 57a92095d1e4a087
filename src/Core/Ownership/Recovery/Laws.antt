-- ===== src/Core/Ownership/Recovery/Laws.antt =====
-- Exactly when a human controller can free a claim, and what is recorded.
use uawp.Base.{◌≡◌, ◌↔◌, ◌≢◌, ◌≤◌, [], trim_space, ok, some, arith}
use uawp.Core.Ownership.Recovery.{RecoveryRequest, RecoveryAudit, recover_stale_ownership}
use uawp.Core.Ownership.Transition.Laws.{released_claim-IsValid}
use uawp.Core.Ownership.Transition.{released_claim}
use uawp.Core.Ownership.Validity.{IsValid, validate_ownership_iff}
use uawp.Core.Ownership.{Ownership, zero_instant, active, released, before, is_zero}

-- The audit names the controller, the reason, the claim that was taken away and the moment.
pub record Records (o : Ownership) (r : RecoveryRequest) (a : RecoveryAudit) : Type 0 where
  pub controller_id : a.controller_id ≡ trim_space r.controller_id
  pub reason : a.reason ≡ trim_space r.reason
  pub old_worker_id : a.old_worker_id ≡ o.worker_id
  pub old_session_id : a.old_session_id ≡ o.session_id
  pub old_agent : a.old_agent ≡ o.agent
  pub old_generation : a.old_generation ≡ o.generation
  pub old_acquired_at : a.old_acquired_at ≡ o.acquired_at
  pub recovered_at : a.recovered_at ≡ r.at

-- Recovery succeeds exactly when the claim is valid and ACTIVE, the controller and the reason are
-- not blank, and the moment is set and not before the acquisition. It releases the claim, changes
-- nothing else of it, and records who held it.
pub recover_stale_ownership_iff :
    (current next : Ownership) (request : RecoveryRequest) (audit : RecoveryAudit)
    → (recover_stale_ownership current request ≡ ok (next, audit)) ↔ (
        IsValid current
        × (current.status ≡ active)
        × (trim_space request.controller_id ≢ [])
        × (trim_space request.reason ≢ [])
        × (request.at.instant ≢ zero_instant)
        × (current.acquired_at.instant ≤ request.at.instant)
        × (next ≡ record current { status = released; released_at = some request.at })
        × Records current request audit)
unfolding recover_stale_ownership before is_zero
recover_stale_ownership_iff current next request audit = ground (
  arith,
  validate_ownership_iff current,
  validate_ownership_iff (released_claim current request.at),
  released_claim-IsValid current request.at,
)

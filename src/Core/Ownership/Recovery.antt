-- ===== src/Core/Ownership/Recovery.antt =====
-- internal/core/arbitration.go: a human controller releases a stale claim, with an audit record.
pub mod Laws
use uawp.Base.{
  ℕ, Bool, ◌||◌, not, Result, ok, err, ◌>>=◌, ◌>>◌, refuse_if, Bytes, trim_space, is_empty,
}
use uawp.Core.Ownership.{
  Ownership, Time, OwnershipError, invalid_recovery, is_active, is_zero, before, validate_ownership,
}
use uawp.Core.Ownership.Transition.{released_claim}

pub record RecoveryRequest : Type 0 where
  pub controller_id : Bytes
  pub reason : Bytes
  pub at : Time

pub record RecoveryAudit : Type 0 where
  pub controller_id : Bytes
  pub reason : Bytes
  pub old_worker_id : Bytes
  pub old_session_id : Bytes
  pub old_agent : Bytes
  pub old_generation : ℕ
  pub old_acquired_at : Time
  pub recovered_at : Time

unfoldable pub recover_stale_ownership :
    Ownership → RecoveryRequest → Result OwnershipError (Ownership × RecoveryAudit)
unfolding released_claim
recover_stale_ownership current request = do
  validate_ownership current
  let controller = trim_space request.controller_id
  let reason = trim_space request.reason
  refuse_if
      (not (is_active current.status)
        || is_empty controller
        || is_empty reason
        || is_zero request.at
        || before request.at current.acquired_at)
      invalid_recovery
  let next = released_claim current request.at
  validate_ownership next
  ok (
    next,
    record {
      controller_id = controller;
      reason = reason;
      old_worker_id = current.worker_id;
      old_session_id = current.session_id;
      old_agent = current.agent;
      old_generation = current.generation;
      old_acquired_at = current.acquired_at;
      recovered_at = request.at;
    },
  )

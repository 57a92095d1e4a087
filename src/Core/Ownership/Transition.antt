-- ===== src/Core/Ownership/Transition.antt =====
-- internal/core/ownership_transition.go: acquire and release.
pub mod Laws
use uawp.Base.{
  ℕ, ◌+◌, ◌-◌, ◌%◌, ◌^◌, Bool, not, Option, none, some, ◌==◌, nat_eq, if◌then◌else◌, Result, ok,
  err, ◌>>=◌, ◌>>◌, refuse_if, Bytes, trim_space,
}
use uawp.Core.Ownership.{
  Ownership, OwnershipStatus, active, released, Time, Actor, OwnershipError, already_active,
  generation_overflow, is_released, validate_ownership, validate_active_actor,
}

pub record AcquireRequest : Type 0 where
  pub worker_id : Bytes
  pub session_id : Bytes
  pub agent : Bytes
  pub purpose : Bytes
  pub at : Time

pub record ReleaseRequest : Type 0 where
  pub actor : Actor
  pub at : Time

abbrev pub max_uint64 : ℕ
max_uint64 = 2 ^ 64 - 1

-- The claim that `Acquire` builds from the current one and the request. The sum is a uint64.
unfoldable pub claim : Ownership → AcquireRequest → Ownership
claim current request = record {
  status = active;
  worker_id = trim_space request.worker_id;
  session_id = trim_space request.session_id;
  generation = (current.generation + 1) % 2 ^ 64;
  agent = trim_space request.agent;
  acquired_at = request.at;
  released_at = none;
  purpose = trim_space request.purpose;
}

unfoldable pub acquire : Ownership → AcquireRequest → Result OwnershipError Ownership
unfolding claim
acquire current request = do
  validate_ownership current
  refuse_if (not (is_released current.status)) already_active
  refuse_if (current.generation == max_uint64) generation_overflow
  let next = claim current request
  validate_ownership next
  ok next

-- The claim with its release recorded.
unfoldable pub released_claim : Ownership → Time → Ownership
released_claim current at = record current { status = released; released_at = some at }

unfoldable pub release : Ownership → ReleaseRequest → Result OwnershipError Ownership
unfolding released_claim
release current request = do
  validate_ownership current
  validate_active_actor current request.actor
  let next = released_claim current request.at
  validate_ownership next
  ok next

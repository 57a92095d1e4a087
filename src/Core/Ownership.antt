-- ===== src/Core/Ownership.antt =====
-- internal/core/ownership.go: the claim on a workspace and its validation. The proofs are in the
-- child modules.
pub mod Validity
pub mod Transition
pub mod Recovery
pub mod Fencing
pub mod Fields
pub mod Codec
mod Tests
use uawp.Base.{
  ℕ, ◌*◌, ◌^◌, Bool, true, false, ◌&&◌, ◌||◌, not, Option, none, some, List, [], ◌∷◌, Eq, ◌==◌,
  ◌/=◌, nat_eq, ltb, if◌then◌else◌, Result, ok, err, ◌>>=◌, ◌>>◌, refuse_if, Bytes, codes, bytes_eq,
  is_empty, length, trim_space, equal_fold, contains_any,
}

-- `OwnershipStatus` is a string; `unknown` stands for every text but the two constants.
pub data OwnershipStatus : Type 0 where
  active released : OwnershipStatus
  unknown : Bytes → OwnershipStatus

-- time.Time: the nanoseconds since the earliest instant that it can represent, 2^63 seconds before
-- the zero time, and the location, which only formatting reads.
pub record Time : Type 0 where
  pub instant : ℕ
  pub location : ℕ

abbrev pub zero_instant : ℕ
zero_instant = 2 ^ 63 * 1000000000

unfoldable pub is_zero : Time → Bool
is_zero t = t.instant == zero_instant

unfoldable pub before : Time → Time → Bool
before t u = ltb t.instant u.instant

pub record Ownership : Type 0 where
  pub status : OwnershipStatus
  pub worker_id : Bytes
  pub session_id : Bytes
  pub generation : ℕ
  pub agent : Bytes
  pub acquired_at : Time
  pub released_at : Option Time
  pub purpose : Bytes

pub record Actor : Type 0 where
  pub worker_id : Bytes
  pub session_id : Bytes
  pub generation : ℕ

-- The errors, one for each place that returns one; a message names no field.
pub data OwnershipError : Type 0 where
  unknown_status worker_required session_reserved active_incomplete released_mismatch :
      OwnershipError
  agent_required purpose_required not_single_line acquisition_required : OwnershipError
  active_with_release released_without_time release_precedes : OwnershipError
  not_active actor_incomplete not_owner already_active generation_overflow : OwnershipError
  invalid_recovery : OwnershipError

-- The body of the loop over the four text fields.
unfoldable pub is_long_or_multiline : Bytes → Bool
is_long_or_multiline field = contains_any field (codes "\r\n") || ltb 4096 (length field)

-- The switch on the status at the end of `ValidateOwnership`.
unfoldable pub check_release_time :
    OwnershipStatus → Time → Option Time → Result OwnershipError (Unit {0})
check_release_time active acquired none = ok tt
check_release_time active acquired (some t) = err active_with_release
check_release_time released acquired none = err released_without_time
check_release_time released acquired (some t) = refuse_if (before t acquired) release_precedes
check_release_time (unknown s) acquired t = ok tt

abbrev pub is_active : OwnershipStatus → Bool
is_active active = true
is_active _ = false

abbrev pub is_released : OwnershipStatus → Bool
is_released released = true
is_released _ = false

unfoldable pub validate_ownership : Ownership → Result OwnershipError (Unit {0})
validate_ownership value = do
  refuse_if (not (is_active value.status) && not (is_released value.status)) unknown_status
  refuse_if (is_empty (trim_space value.worker_id)) worker_required
  let session_id = trim_space value.session_id
  refuse_if (equal_fold session_id (codes "none")) session_reserved
  refuse_if (is_active value.status && (is_empty session_id || value.generation == 0))
      active_incomplete
  refuse_if
      (is_released value.status
        && (if is_empty session_id then not (value.generation == 0) else value.generation == 0))
      released_mismatch
  refuse_if (is_empty (trim_space value.agent)) agent_required
  refuse_if (is_empty (trim_space value.purpose)) purpose_required
  refuse_if
      (is_long_or_multiline value.worker_id
        || is_long_or_multiline value.session_id
        || is_long_or_multiline value.agent
        || is_long_or_multiline value.purpose)
      not_single_line
  refuse_if (is_zero value.acquired_at) acquisition_required
  check_release_time value.status value.acquired_at value.released_at

unfoldable pub validate_active_actor : Ownership → Actor → Result OwnershipError (Unit {0})
validate_active_actor current actor = do
  validate_ownership current
  let worker_id = trim_space actor.worker_id
  let session_id = trim_space actor.session_id
  refuse_if (not (is_active current.status)) not_active
  refuse_if (is_empty worker_id || is_empty session_id || actor.generation == 0) actor_incomplete
  refuse_if
      (current.worker_id /= worker_id
        || current.session_id /= session_id
        || current.generation /= actor.generation)
      not_owner

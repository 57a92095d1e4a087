-- ===== src/Core/Ownership/Validity.antt =====
-- What `ValidateOwnership` accepts, written as the rules that the protocol states.
use uawp.Base.{◌≤◌, ◌≡◌, ◌↔◌, ◌≢◌, none, some, arith, ◌⊎◌, true, false, []}
use uawp.Base.{◌==◌, nat_eq, bytes_eq, ok, is_empty, equal_fold, codes, length, contains_any}
use uawp.Base.{Bytes, trim_space}
use uawp.Core.Ownership.{
  Ownership, active, released, Time, is_zero, before, is_long_or_multiline, check_release_time,
  zero_instant, validate_ownership,
}

-- A single line of at most 4096 bytes that is not blank.
pub record IsLine (field : Bytes) : Type 0 where
  pub one_line : contains_any field (codes "\r\n") ≡ false
  pub short : length field ≤ 4096

-- An ACTIVE claim names a Session and a positive generation and has no release; a RELEASED one
-- has both or neither, and a release no earlier than the acquisition.
abbrev pub HasLifetime : Ownership → Type 0
HasLifetime o =
    ((o.status ≡ active)
      × (trim_space o.session_id ≢ [])
      × (o.generation ≢ 0)
      × (o.released_at ≡ none))
    ⊎ ((o.status ≡ released)
        × ((trim_space o.session_id ≡ []) ↔ (o.generation ≡ 0))
        × (t : Time) × (o.released_at ≡ some t)
        × (o.acquired_at.instant ≤ t.instant))

pub record IsValid (o : Ownership) : Type 0 where
  pub lifetime : HasLifetime o
  pub worker : trim_space o.worker_id ≢ []
  pub agent : trim_space o.agent ≢ []
  pub purpose : trim_space o.purpose ≢ []
  pub not_reserved : equal_fold (trim_space o.session_id) (codes "none") ≡ false
  pub worker_line : IsLine o.worker_id
  pub session_line : IsLine o.session_id
  pub agent_line : IsLine o.agent
  pub purpose_line : IsLine o.purpose
  pub acquired : o.acquired_at.instant ≢ zero_instant

is_empty_iff : (s : Bytes) → (is_empty s ≡ true) ↔ (s ≡ [])
is_empty_iff s = ground arith

IsLine-iff : (s : Bytes) → (is_long_or_multiline s ≡ false) ↔ IsLine s
unfolding is_long_or_multiline
IsLine-iff s = ground arith

-- The checks, passed one by one.
record Passes (o : Ownership) : Type 0 where
  worker : is_empty (trim_space o.worker_id) ≡ false
  not_reserved : equal_fold (trim_space o.session_id) (codes "none") ≡ false
  agent : is_empty (trim_space o.agent) ≡ false
  purpose : is_empty (trim_space o.purpose) ≡ false
  worker_line : is_long_or_multiline o.worker_id ≡ false
  session_line : is_long_or_multiline o.session_id ≡ false
  agent_line : is_long_or_multiline o.agent ≡ false
  purpose_line : is_long_or_multiline o.purpose ≡ false
  acquired : is_zero o.acquired_at ≡ false
  lifetime : check_release_time o.status o.acquired_at o.released_at ≡ ok tt
  held :
      (o.status ≡ active) × (is_empty (trim_space o.session_id) ≡ false) × (o.generation ≢ 0)
      ⊎ (o.status ≡ released) × (is_empty (trim_space o.session_id) ≡ (o.generation == 0))

validate_ownership-Passes : (o : Ownership) → validate_ownership o ≡ ok tt → Passes o
unfolding validate_ownership
validate_ownership-Passes o h = record {
  worker = ground arith;
  not_reserved = ground arith;
  agent = ground arith;
  purpose = ground arith;
  worker_line = ground arith;
  session_line = ground arith;
  agent_line = ground arith;
  purpose_line = ground arith;
  acquired = ground arith;
  lifetime = ground arith;
  held = ground arith;
}

lifetime_of :
    (o : Ownership)
    → check_release_time o.status o.acquired_at o.released_at ≡ ok tt
    → ((o.status ≡ active) × (is_empty (trim_space o.session_id) ≡ false) × (o.generation ≢ 0)
        ⊎ (o.status ≡ released) × (is_empty (trim_space o.session_id) ≡ (o.generation == 0)))
    → HasLifetime o
unfolding check_release_time before
lifetime_of o h k = ground (arith, is_empty_iff (trim_space o.session_id))

validate_ownership-IsValid : (o : Ownership) → validate_ownership o ≡ ok tt → IsValid o
unfolding is_zero
validate_ownership-IsValid o h =
    let p = validate_ownership-Passes o h in
    record {
      lifetime = lifetime_of o p.lifetime p.held;
      worker = ground (arith, is_empty_iff (trim_space o.worker_id));
      agent = ground (arith, is_empty_iff (trim_space o.agent));
      purpose = ground (arith, is_empty_iff (trim_space o.purpose));
      not_reserved = p.not_reserved;
      worker_line = (IsLine-iff o.worker_id).0 p.worker_line;
      session_line = (IsLine-iff o.session_id).0 p.session_line;
      agent_line = (IsLine-iff o.agent).0 p.agent_line;
      purpose_line = (IsLine-iff o.purpose).0 p.purpose_line;
      acquired = ground arith;
    }

IsValid-validate_ownership : (o : Ownership) → IsValid o → validate_ownership o ≡ ok tt
unfolding validate_ownership check_release_time is_zero before
IsValid-validate_ownership o v = ground (
  arith,
  is_empty_iff (trim_space o.session_id),
  is_empty_iff (trim_space o.worker_id),
  is_empty_iff (trim_space o.agent),
  is_empty_iff (trim_space o.purpose),
  IsLine-iff o.worker_id,
  IsLine-iff o.session_id,
  IsLine-iff o.agent,
  IsLine-iff o.purpose,
  v.lifetime,
)

-- `ValidateOwnership` accepts a claim exactly when it follows the rules.
pub validate_ownership_iff : (o : Ownership) → (validate_ownership o ≡ ok tt) ↔ IsValid o
validate_ownership_iff o = (validate_ownership-IsValid o, IsValid-validate_ownership o)

-- ===== src/Migration/ToV12.antt =====
-- internal/migration/v1_1_to_v1_2.go: the step that gives the claim its Session and generation.
pub mod Laws
mod Tests
use uawp.Base.{
  ℕ, Bool, true, false, not, Option, none, some, List, [], ◌∷◌, ◌++◌, ◌==◌, ◌/=◌, bytes_eq, nat_eq,
  ◌||◌, if◌then◌else◌, Result, ok, err, ◌>>=◌, ◌>>◌, refuse_if, Bytes, codes, is_empty, trim_space,
  contains_any,
}
use uawp.Base.Int.{pos}
use uawp.Core.Ownership.{
  Ownership, OwnershipStatus, active, released, unknown, Time, before, is_released,
}
use uawp.Core.Ownership.Fields.{Fields, FieldError, read_fields, field_text, field}
use uawp.Core.Ownership.Codec.{
  Clock, CodecError, parse_timestamp, parse_released, status_of, encode_ownership,
}
use uawp.Plan.Change.{Change, new_update_file, with_sequence}
use uawp.Plan.Persist.{Input}
use uawp.Migration.ToV11.{Context, is_state}

pub data LegacyError : Type 0 where
  wrong_state snapshot_missing snapshot_mismatch not_released : LegacyError
  invalid_text active_with_release invalid_release unknown_status : LegacyError
  legacy_field : FieldError → LegacyError
  codec : CodecError → LegacyError

unfoldable pub as_legacy_field {ℓ} : {A : Type ℓ} → Result FieldError A → Result LegacyError A
as_legacy_field (ok a) = ok a
as_legacy_field (err e) = err (legacy_field e)

unfoldable pub as_codec {ℓ} : {A : Type ℓ} → Result CodecError A → Result LegacyError A
as_codec (ok a) = ok a
as_codec (err e) = err (codec e)

abbrev pub legacy_fields : List Bytes
legacy_fields =
    codes "Status"
    ∷ codes "Worker ID"
    ∷ codes "Agent"
    ∷ codes "Acquired At"
    ∷ codes "Released At"
    ∷ codes "Purpose"
    ∷ []

-- The body of the loop over the three texts.
unfoldable pub is_bad_text : Bytes → Bool
is_bad_text field = is_empty (trim_space field) || contains_any field (codes "\r\n")

-- The switch on the status.
unfoldable pub check_legacy_release :
    OwnershipStatus → Time → Option Time → Result LegacyError (Unit {0})
check_legacy_release active acquired none = ok tt
check_legacy_release active acquired (some t) = err active_with_release
check_legacy_release released acquired none = err invalid_release
check_legacy_release released acquired (some t) = refuse_if (before t acquired) invalid_release
check_legacy_release (unknown s) acquired at = err unknown_status

-- A claim without a Session and with generation 0.
unfoldable pub legacy_claim : Fields → Time → Option Time → Ownership
unfolding field_text
legacy_claim read acquired at = record {
  status = status_of (field_text read (codes "Status"));
  worker_id = field_text read (codes "Worker ID");
  session_id = [];
  generation = 0;
  agent = field_text read (codes "Agent");
  acquired_at = acquired;
  released_at = at;
  purpose = field_text read (codes "Purpose");
}

-- The checks of the claim.
unfoldable pub check_legacy : Ownership → Result LegacyError (Unit {0})
unfolding check_legacy_release is_bad_text
check_legacy value = do
  refuse_if (is_bad_text value.worker_id || is_bad_text value.agent || is_bad_text value.purpose)
      invalid_text
  check_legacy_release value.status value.acquired_at value.released_at

-- The hash of the first input with the path, empty where there is none.
unfoldable pub first_hash : List Input → Bytes → Bytes
first_hash [] path = []
first_hash (i ∷ inputs) path = if i.path == path then i.sha256 else first_hash inputs path

abbrev pub claim_path : Bytes
claim_path = codes ".uawp/ACTIVE_WORKER.md"

unfoldable pub verify_v1_2 : Context → Result LegacyError (Unit {0})
verify_v1_2 context = refuse_if (not (is_state context.manifest (codes "1.2.0"))) wrong_state

module _ (clock : Clock) where
  unfoldable pub decode_v1_1_ownership : Bytes → Result LegacyError Ownership
  unfolding legacy_claim check_legacy
  decode_v1_1_ownership content = do
    read ← as_legacy_field (read_fields legacy_fields content)
    acquired ← as_codec (parse_timestamp clock (field_text read (codes "Acquired At")))
    at ← as_codec (parse_released clock (field_text read (codes "Released At")))
    let value = legacy_claim read acquired at
    check_legacy value
    ok value

  unfoldable pub plan_v1_2 : (Bytes → Bytes) → Context → Result LegacyError (List Change)
  unfolding decode_v1_1_ownership first_hash
  plan_v1_2 hash_bytes context = do
    refuse_if (not (is_state context.manifest (codes "1.1.0"))) wrong_state
    elim (field context.files claim_path) [
      | none ↦ err snapshot_missing
      | some before ↦ do
        let input_hash = first_hash context.inputs claim_path
        refuse_if (is_empty input_hash || input_hash /= hash_bytes before) snapshot_mismatch
        legacy ← decode_v1_1_ownership before
        refuse_if (not (is_released legacy.status)) not_released
        after ← as_codec (encode_ownership clock legacy)
        ok (
            with_sequence (new_update_file hash_bytes claim_path 0o600 input_hash after) (pos 80)
            ∷ [])
    ]

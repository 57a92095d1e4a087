-- ===== src/Core/Ownership/Codec.antt =====
-- internal/core/ownership_codec.go and the timestamps of internal/core/ownership.go: the claim as
-- the text of ACTIVE_WORKER.md.
pub mod Printed
pub mod Written
pub mod RoundTrip
pub mod Decoded
pub mod Regular
pub mod Sample
mod Tests
use uawp.Base.{
  ℕ, suc, Bool, true, false, not, Option, none, some, List, [], ◌∷◌, ◌++◌, ◌==◌, bytes_eq, nat_eq,
  ltb, ◌*◌, ◌-◌, if◌then◌else◌, Result, ok, err, ◌>>=◌, ◌>>◌, refuse_if, Bytes, codes, is_empty,
  equal_fold, length, drop, ◌||◌, ◌&&◌,
}
use uawp.Base.Number.{parse_uint, decimal}
use uawp.Base.Pattern.{is_digit}
use uawp.Core.Ownership.{
  Ownership, OwnershipStatus, active, released, unknown, Time, OwnershipError, validate_ownership,
}
use uawp.Core.Ownership.Fields.{Fields, FieldError, read_fields, field_text}

pub data CodecError : Type 0 where
  document_too_large no_timezone invalid_timestamp invalid_generation : CodecError
  field_problem : FieldError → CodecError
  ownership_problem : OwnershipError → CodecError

-- What the code calls and does not define: time.Parse and Time.Format with the layout RFC 3339, and
-- Time.Format with the layout of the names of checkpoints.
pub record Clock : Type 0 where
  pub parse : Bytes → Option Time
  pub format : Time → Bytes
  pub stamp : Time → Bytes

unfoldable pub as_field_error {ℓ} : {A : Type ℓ} → Result FieldError A → Result CodecError A
as_field_error (ok a) = ok a
as_field_error (err e) = err (field_problem e)

unfoldable pub as_ownership_error {ℓ} : {A : Type ℓ} → Result OwnershipError A → Result CodecError A
as_ownership_error (ok a) = ok a
as_ownership_error (err e) = err (ownership_problem e)

-- The six bytes of [+-][0-9]{2}:[0-9]{2}.
unfoldable pub is_offset : Bytes → Bool
is_offset (s ∷ a ∷ b ∷ c ∷ d ∷ e ∷ []) =
    (s == b'+' || s == b'-') && is_digit a && is_digit b && c == b':' && is_digit d && is_digit e
is_offset _ = false

-- (?:Z|[+-][0-9]{2}:[0-9]{2})$
unfoldable pub has_timezone : Bytes → Bool
unfolding is_offset
has_timezone s = drop (length s - 1) s == codes "Z" || is_offset (drop (length s - 6) s)

unfoldable pub status_of : Bytes → OwnershipStatus
status_of s =
    if s == codes "ACTIVE" then active else if s == codes "RELEASED" then released else unknown s

unfoldable pub status_text : OwnershipStatus → Bytes
status_text active = codes "ACTIVE"
status_text released = codes "RELEASED"
status_text (unknown s) = s

abbrev pub max_ownership_bytes : ℕ
max_ownership_bytes = 1024 * 1024

abbrev pub ownership_fields : List Bytes
ownership_fields =
    codes "Status"
    ∷ codes "Worker ID"
    ∷ codes "Agent"
    ∷ codes "Session ID"
    ∷ codes "Generation"
    ∷ codes "Acquired At"
    ∷ codes "Released At"
    ∷ codes "Purpose"
    ∷ []

-- A line of the format.
abbrev pub field_line : Bytes → Bytes → Bytes
field_line key value = codes "- " ++ (key ++ (codes ": " ++ (value ++ (10 ∷ []))))

unfoldable pub field_lines : Fields → Bytes
field_lines [] = []
field_lines ((key, value) ∷ rest) = field_line key value ++ field_lines rest

abbrev pub none_if_empty : Bytes → Bytes
none_if_empty s = if is_empty s then codes "none" else s

-- The claim that the fields describe.
unfoldable pub claim_from : Fields → Time → ℕ → Option Time → Ownership
unfolding field_text
claim_from read acquired generation at =
    let session = field_text read (codes "Session ID") in
    record {
      status = status_of (field_text read (codes "Status"));
      worker_id = field_text read (codes "Worker ID");
      session_id = if equal_fold session (codes "none") then [] else session;
      generation = generation;
      agent = field_text read (codes "Agent");
      acquired_at = acquired;
      released_at = at;
      purpose = field_text read (codes "Purpose");
    }

module _ (clock : Clock) where
  unfoldable pub parse_timestamp : Bytes → Result CodecError Time
  unfolding has_timezone
  parse_timestamp value = do
    refuse_if (not (has_timezone value)) no_timezone
    elim (clock.parse value) [ none ↦ err invalid_timestamp | some t ↦ ok t ]

  -- The release time: absent where the text is empty or `none`.
  unfoldable pub parse_released : Bytes → Result CodecError (Option Time)
  unfolding parse_timestamp equal_fold
  parse_released text =
      if is_empty text || equal_fold text (codes "none")
      then ok none
      else parse_timestamp text >>= λ t. ok (some t)

  -- The part of `DecodeOwnership` after the fields have been read.
  unfoldable pub claim_of : Fields → Result CodecError Ownership
  unfolding parse_released parse_timestamp field_text claim_from
  claim_of read = do
    acquired ← parse_timestamp (field_text read (codes "Acquired At"))
    elim (parse_uint (field_text read (codes "Generation"))) [
      | none ↦ err invalid_generation
      | some generation ↦ do
        at ← parse_released (field_text read (codes "Released At"))
        let value = claim_from read acquired generation at
        as_ownership_error (validate_ownership value)
        ok value
    ]

  unfoldable pub decode_ownership : Bytes → Result CodecError Ownership
  unfolding claim_of
  decode_ownership content = do
    refuse_if (ltb max_ownership_bytes (length content)) document_too_large
    read ← as_field_error (read_fields ownership_fields content)
    claim_of read

  unfoldable pub released_text : Option Time → Bytes
  released_text none = codes "none"
  released_text (some t) = clock.format t

  -- The text of a claim.
  unfoldable pub claim_fields : Ownership → Fields
  claim_fields value =
      (codes "Status", status_text value.status)
      ∷ (codes "Worker ID", value.worker_id)
      ∷ (codes "Session ID", none_if_empty value.session_id)
      ∷ (codes "Generation", decimal value.generation)
      ∷ (codes "Agent", value.agent)
      ∷ (codes "Acquired At", clock.format value.acquired_at)
      ∷ (codes "Released At", released_text value.released_at)
      ∷ (codes "Purpose", value.purpose)
      ∷ []

  unfoldable pub encode_ownership : Ownership → Result CodecError Bytes
  unfolding claim_fields field_lines released_text
  encode_ownership value = do
    as_ownership_error (validate_ownership value)
    ok (codes "# UAWP Active Worker\n\n" ++ field_lines (claim_fields value))

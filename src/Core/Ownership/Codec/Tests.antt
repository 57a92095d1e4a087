-- ===== src/Core/Ownership/Codec/Tests.antt =====
-- Runs of the codec, and its theorem at a claim.
use uawp.Base.{
  bytes_beq, space_width, last_space_width, trim_by, trim_space, equal_fold, has_prefix,
  contains_any, bytes_ltb, has_suffix, trim_prefix, trim_suffix, nat_eq, bytes_eq, ◌≡◌, refl, ok,
  err, codes, Bytes, Result, arith,
}
use uawp.Base.FilePath.{split, join, count_byte, clean_segments, clean, cut}
use uawp.Base.Number.{digits_value, parse_uint, atoi_digits, atoi, digits, decimal, decimal_four}
use uawp.Base.Pattern.{all, is_hash, is_name, is_identifier, is_slug_from, is_slug}
use uawp.Core.Ownership.{
  is_zero, before, is_long_or_multiline, check_release_time, validate_ownership,
  validate_active_actor, Ownership, OwnershipError,
}
use uawp.Core.Ownership.Fields.{
  lines, field, read_line, read_lines, has_all, read_fields, field_text, duplicate_field,
  missing_field, malformed_field,
}
use uawp.Core.Ownership.Codec.{
  as_field_error, as_ownership_error, is_offset, has_timezone, status_of, status_text, field_lines,
  claim_from, parse_timestamp, parse_released, claim_of, decode_ownership, released_text,
  claim_fields, encode_ownership, field_problem, CodecError,
}
use uawp.Core.Ownership.Codec.Sample.{print_time, read_time, sample_clock, time_of, held}
use uawp.Core.Ownership.Codec.Printed.{ReadsBack, IsWritable}
use uawp.Core.Ownership.Codec.RoundTrip.{decode_ownership-encode_ownership}

-- Unfolding this opens all that a run calls.
unfoldable pub decoded : Bytes → Result CodecError Ownership
unfolding bytes_beq space_width last_space_width trim_by trim_space equal_fold has_prefix
    contains_any bytes_ltb has_suffix trim_prefix trim_suffix split join count_byte clean_segments
    clean cut digits_value parse_uint atoi_digits atoi digits decimal decimal_four all is_hash
    is_name is_identifier is_slug_from is_slug is_zero before is_long_or_multiline
    check_release_time validate_ownership validate_active_actor lines field read_line read_lines
    has_all read_fields field_text as_field_error as_ownership_error is_offset has_timezone
    status_of status_text field_lines claim_from parse_timestamp parse_released claim_of
    decode_ownership released_text claim_fields encode_ownership print_time read_time sample_clock
decoded = decode_ownership sample_clock

unfoldable pub checked : Ownership → Result OwnershipError (Unit {0})
unfolding decoded
checked = validate_ownership

time_reads : ReadsBack sample_clock (time_of 7)
unfolding decoded all
time_reads = record { reads = refl; zoned = refl; visible = refl; short = omega arith }

held-IsWritable : IsWritable sample_clock held
unfolding decoded checked
held-IsWritable = record {
  valid = refl;
  trimmed = record {
    worker = record { front = refl; back = refl };
    session = record { front = refl; back = refl };
    agent = record { front = refl; back = refl };
    purpose = record { front = refl; back = refl };
  };
  in_range = omega arith;
  acquired = time_reads;
  released = λ t e. ground arith;
}

decode_ownership-encode_ownership_example :
    (content : Bytes) × (encode_ownership sample_clock held ≡ ok content)
    × (decode_ownership sample_clock content ≡ ok held)
decode_ownership-encode_ownership_example =
    decode_ownership-encode_ownership sample_clock held held-IsWritable

no_fields :
    decode_ownership sample_clock (codes "# UAWP Active Worker\n")
    ≡ err (field_problem missing_field)
unfolding decoded
no_fields = refl

twice :
    decode_ownership sample_clock (codes "- Status: ACTIVE\r\n  -  Status : ACTIVE\n")
    ≡ err (field_problem duplicate_field)
unfolding decoded
twice = refl

no_colon : decode_ownership sample_clock (codes "- Status") ≡ err (field_problem malformed_field)
unfolding decoded
no_colon = refl

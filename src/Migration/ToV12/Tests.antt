-- ===== src/Migration/ToV12/Tests.antt =====
-- The step at a workspace of the old version.
use uawp.Base.{
  bytes_beq, space_width, last_space_width, trim_by, trim_space, equal_fold, has_prefix,
  contains_any, bytes_ltb, has_suffix, trim_prefix, trim_suffix, nat_eq, bytes_eq, ◌∷◌, [], ◌≡◌,
  refl, some, ok, err, Bytes, codes, ◌++◌, arith, Result, List, subst,
}
use uawp.Base.FilePath.{split, join, count_byte, clean_segments, clean, cut}
use uawp.Base.Number.{digits_value, parse_uint, atoi_digits, atoi, digits, decimal, decimal_four}
use uawp.Base.Pattern.{all, is_hash, is_name, is_identifier, is_slug_from, is_slug}
use uawp.Core.Ownership.{
  is_zero, before, is_long_or_multiline, check_release_time, validate_ownership,
  validate_active_actor, released, Ownership, Time,
}
use uawp.Core.Ownership.Fields.{
  lines, field, read_line, read_lines, has_all, read_fields, field_text,
}
use uawp.Core.Ownership.Codec.{
  as_field_error, as_ownership_error, is_offset, has_timezone, status_of, status_text, field_lines,
  claim_from, parse_timestamp, parse_released, claim_of, decode_ownership, released_text,
  claim_fields, encode_ownership,
}
use uawp.Core.Ownership.Codec.Sample.{print_time, read_time, sample_clock, time_of}
use uawp.Migration.ToV12.{
  as_legacy_field, as_codec, is_bad_text, check_legacy_release, legacy_claim, check_legacy,
  first_hash, verify_v1_2, decode_v1_1_ownership, plan_v1_2, claim_path, not_released, LegacyError,
}
use uawp.Plan.Change.{
  persist_change, new_directory, new_delete_file, new_delete_directory, with_sequence, restored,
  new_file, new_update_file, check_kind, restore_change, Change,
}
use uawp.Base.Int.{pos}
use uawp.Core.Ownership.Codec.Printed.{ReadsBack}
use uawp.Plan.Sample.{sample_hash}
use uawp.Migration.ToV11.{Context}
use uawp.Migration.ToV12.Laws.{plan_v1_2-keeps}
use uawp.Core.Ownership.Codec.Regular.{some_injective}

abbrev old_text : Bytes → Bytes → Bytes
old_text status release =
    codes "# UAWP Active Worker\n\n- Status: "
    ++ (status
        ++ (codes "\n- Worker ID: w1\n- Agent: codex\n- Acquired At: 5Z\n- Released At: "
            ++ (release ++ codes "\n- Purpose: all\n")))

abbrev before_text : Bytes
before_text = old_text (codes "RELEASED") (codes "6Z")

abbrev context_of : Bytes → Context
context_of text = record {
  manifest = record { protocol = codes "UAWP"; state_version = codes "1.1.0"; integrations = [] };
  inputs = record { path = claim_path; sha256 = sample_hash text } ∷ [];
  files = (claim_path, text) ∷ [];
}

abbrev legacy : Ownership
legacy = record {
  status = released;
  worker_id = codes "w1";
  session_id = [];
  generation = 0;
  agent = codes "codex";
  acquired_at = time_of 5;
  released_at = some (time_of 6);
  purpose = codes "all";
}

unfoldable pub planned : Bytes → Result LegacyError (List Change)
unfolding bytes_beq space_width last_space_width trim_by trim_space equal_fold has_prefix
    contains_any bytes_ltb has_suffix trim_prefix trim_suffix split join count_byte clean_segments
    clean cut digits_value parse_uint atoi_digits atoi digits decimal decimal_four all is_hash
    is_name is_identifier is_slug_from is_slug is_zero before is_long_or_multiline
    check_release_time validate_ownership validate_active_actor lines field read_line read_lines
    has_all read_fields field_text as_field_error as_ownership_error is_offset has_timezone
    status_of status_text field_lines claim_from parse_timestamp parse_released claim_of
    decode_ownership released_text claim_fields encode_ownership print_time read_time sample_clock
    as_legacy_field as_codec is_bad_text check_legacy_release legacy_claim check_legacy first_hash
    verify_v1_2 decode_v1_1_ownership plan_v1_2 persist_change new_directory new_delete_file
    new_delete_directory with_sequence restored new_file new_update_file check_kind restore_change
planned text = plan_v1_2 sample_clock sample_hash (context_of text)

changes : List Change
unfolding planned
changes = elim (planned before_text) [ ok cs ↦ cs | err e ↦ [] ]

step_planned : plan_v1_2 sample_clock sample_hash (context_of before_text) ≡ ok changes
unfolding changes
step_planned = refl

found : field (context_of before_text).files claim_path ≡ some before_text
unfolding planned
found = refl

decoded : decode_v1_1_ownership sample_clock before_text ≡ ok legacy
unfolding planned
decoded = refl

five_reads : ReadsBack sample_clock (time_of 5)
unfolding planned
five_reads = record { reads = refl; zoned = refl; visible = refl; short = omega arith }

six_reads : ReadsBack sample_clock (time_of 6)
unfolding planned
six_reads = record { reads = refl; zoned = refl; visible = refl; short = omega arith }

release_reads : (t : Time) → some (time_of 6) ≡ some t → ReadsBack sample_clock t
release_reads t e = subst (ReadsBack sample_clock) (some_injective e) six_reads

plan_v1_2-keeps_example :
    (after : Bytes) × (changes
      ≡ with_sequence
          (new_update_file sample_hash claim_path 0o600 (sample_hash before_text) after)
          (pos 80)
        ∷ [])
    × (decode_ownership sample_clock after ≡ ok legacy)
    × (released ≡ released)
    × (legacy.session_id ≡ [])
    × (legacy.generation ≡ 0)
plan_v1_2-keeps_example =
    plan_v1_2-keeps sample_clock sample_hash (context_of before_text) changes before_text legacy
      step_planned found decoded five_reads release_reads

still_held : planned (old_text (codes "ACTIVE") (codes "none")) ≡ err not_released
unfolding planned
still_held = refl

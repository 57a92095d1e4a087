-- ===== src/Workspace/Lifecycle/Sample.antt =====
-- A workspace with a free claim, one with a held claim, and requests, for runs.
use uawp.Core.Ownership.{
  is_zero, before, is_long_or_multiline, check_release_time, validate_ownership,
  validate_active_actor, Ownership, Actor,
}
use uawp.Core.Ownership.Transition.{
  claim, acquire, released_claim, release, AcquireRequest, ReleaseRequest,
}
use uawp.Core.Ownership.Recovery.{recover_stale_ownership, RecoveryRequest}
use uawp.Core.Ownership.Fields.{
  lines, field, read_line, read_lines, has_all, read_fields, field_text,
}
use uawp.Core.Ownership.Codec.{
  as_field_error, as_ownership_error, is_offset, has_timezone, status_of, status_text, field_lines,
  claim_from, parse_timestamp, parse_released, claim_of, decode_ownership, released_text,
  claim_fields, encode_ownership,
}
use uawp.Core.Ownership.Codec.Sample.{print_time, read_time, sample_clock, time_of}
use uawp.Core.Manifest.{
  is_plain_number, is_state_version, is_portable, validate_consumers, validate_facts,
  validate_imports, validate_integration, register_consumers, validate_integrations,
  validate_manifest,
}
use uawp.Core.Manifest.Decode.{
  decode_member, decode_members, as_decode_error, decode_manifest, JsonMember,
}
use uawp.Core.StateVersion.{classify_state_version}
use uawp.Workspace.Discover.{
  project_input, project_inputs_of, project_inputs, classify_manifest, classify_namespace, discover,
}
use uawp.Workspace.Status.{
  tombstone_names, is_complete, check_tombstone, tombstone_among, find_purge_tombstone,
  read_ownership, diagnose_state, diagnose_namespace, has_pending_purge, diagnose, Readers,
}
use uawp.Workspace.Lifecycle.{
  as_codec, as_ownership, as_target, read_file, plan_ownership_transition, plan_acquire,
  plan_release, plan_handoff, HandoffRequest, CheckpointRequest, LifecycleError,
}
use uawp.Workspace.Checkpoint.{
  context_plan, held_claim, plan_context_sync, checkpoint_body, checkpoint_plan, plan_checkpoint,
}
use uawp.Workspace.StaleClaim.{audit_entry, recovery_plan, plan_stale_recovery}
use uawp.Base.Pattern.{all, is_hash, is_name, is_identifier, is_slug_from, is_slug}
use uawp.Adapter.ImportLine.{
  split_after, contains_text, scan_line, scan_lines, import_lines, upsert_import, after_line,
  without_newline, remove_import,
}
use uawp.Base.{trim_suffix, ◌++◌, ◌∷◌, [], none, some, Bytes, codes, true, false, ok, err, Result}
use uawp.Plan.Persist.{Plan}
use uawp.Workspace.Apply.Perform.{Options}
use uawp.Workspace.Apply.Sample.{env, nowhere, run, value}
use uawp.Workspace.Disk.{Disk, file, directory}
use uawp.Workspace.Lifecycle.Applied.{setting}

abbrev member : Bytes → Bytes → JsonMember
member key text = record { key = key; text = some text; integrations = none }

-- Every text is read as the manifest of the present version.
abbrev pub sample_readers : Readers
sample_readers = record {
  clock = sample_clock;
  json = λ content. record {
    is_object = true;
    members =
        member (codes "protocol") (codes "UAWP")
        ∷ member (codes "stateVersion") (codes "1.2.0")
        ∷ [];
    is_closed = true;
    has_trailing = false;
  };
  describe = λ problem. codes "INVALID_STATE";
}

unfoldable pub claim_text : Ownership → Bytes
unfolding field_lines claim_fields
claim_text o = codes "# UAWP Active Worker\n\n" ++ field_lines (claim_fields sample_clock o)

abbrev pub workspace : Ownership → Disk
workspace o =
    (codes ".uawp", directory)
    ∷ (codes ".uawp/manifest.json", file (codes "{}") 0o600)
    ∷ (codes ".uawp/CONTEXT.md", file (codes "old") 0o600)
    ∷ (codes ".uawp/ACTIVE_WORKER.md", file (claim_text o) 0o600)
    ∷ (codes ".uawp/DECISIONS.md", file (codes "# Decisions\n") 0o600)
    ∷ (codes ".uawp/checkpoints", directory)
    ∷ []

abbrev pub holder : Actor
holder = record { worker_id = codes "w1"; session_id = codes "s1 "; generation = 12 }

abbrev pub acquisition : AcquireRequest
acquisition = record {
  worker_id = codes " w2";
  session_id = codes "s2";
  agent = codes "claude-code";
  purpose = codes "reviews";
  at = time_of 12;
}

abbrev pub releasing : ReleaseRequest
releasing = record { actor = holder; at = time_of 12 }

abbrev pub handing_off : HandoffRequest
handing_off = record {
  actor = holder;
  final_context = codes "done";
  purpose = codes "hand over";
  at = time_of 12;
}

abbrev pub checkpointing : CheckpointRequest
checkpointing = record {
  actor = holder;
  milestone_id = codes "first-part";
  label = codes "First part";
  decision_references = codes "D1" ∷ codes "D2" ∷ [];
  at = time_of 12;
}

abbrev pub freeing : RecoveryRequest
freeing = record { controller_id = codes "human"; reason = codes "gone"; at = time_of 12 }

abbrev empty_plan : Plan
empty_plan = value

-- The plan that was made.
abbrev pub made : Result LifecycleError Plan → Plan
made r = elim r [ ok p ↦ p | err e ↦ empty_plan ]

abbrev pub options_for : Plan → Options
options_for p = record {
  approved_plan_id = p.id;
  fails = nowhere;
  started_at = codes "2026-01-01T00:00:00Z";
  started_nano = codes "2026-01-01T00:00:00.000000001Z";
  migrated_at = codes "2026-01-01T00:00:00Z";
  completed_at = codes "2026-01-01T00:00:01Z";
}

-- Unfolding this opens all that a run calls.
unfoldable pub opened : Disk → Result LifecycleError Plan
unfolding run claim_text trim_suffix is_zero before is_long_or_multiline check_release_time
    validate_ownership validate_active_actor claim acquire released_claim release
    recover_stale_ownership lines field read_line read_lines has_all read_fields field_text
    as_field_error as_ownership_error is_offset has_timezone status_of status_text field_lines
    claim_from parse_timestamp parse_released claim_of decode_ownership released_text claim_fields
    encode_ownership print_time read_time sample_clock is_plain_number is_state_version is_portable
    validate_consumers validate_facts validate_imports validate_integration register_consumers
    validate_integrations validate_manifest decode_member decode_members as_decode_error
    decode_manifest classify_state_version project_input project_inputs_of project_inputs
    classify_manifest classify_namespace discover tombstone_names is_complete check_tombstone
    tombstone_among find_purge_tombstone read_ownership diagnose_state diagnose_namespace
    has_pending_purge diagnose as_codec as_ownership as_target read_file plan_ownership_transition
    plan_acquire plan_release plan_handoff context_plan held_claim plan_context_sync checkpoint_body
    checkpoint_plan plan_checkpoint audit_entry recovery_plan plan_stale_recovery all is_hash
    is_name is_identifier is_slug_from is_slug split_after contains_text scan_line scan_lines
    import_lines upsert_import after_line without_newline remove_import
opened d = plan_acquire (setting env sample_readers (options_for empty_plan) d) d acquisition

-- ===== src/Workspace/Apply/Sample.antt =====
-- A small workspace and a plan for it, for runs.
use uawp.Base.Pattern.{is_identifier, is_hash}
use uawp.Workspace.Op.{
  pure, fail, check, after, on_error, ◌>>=◌, modify, refuse_when, lstat, create, replace, remove,
  Stage, ApplyError, before_action,
}
use uawp.Workspace.Disk.{
  lookup, set, unset, parent_of, has_parent, has_children, Disk, file, directory,
}
use uawp.Workspace.Boundary.{
  device_name, is_device, is_portable_segment, all_portable, is_allowed_path, ways, inspect,
  reject_symlink_ancestors, resolve_uawp, last_of, is_root_markdown, is_nested_codex,
  resolve_native, target_for_change,
}
use uawp.Workspace.Verify.{
  input_unchanged, verify_inputs, remaining, verify_inputs_except, is_before, verify_before_state,
  is_after, verify_after_state,
}
use uawp.Workspace.Apply.Perform.{write_atomic, write_update, perform, Options}
use uawp.Workspace.Apply.Prepare.{
  remove_all, rename_tree, read_found, read_regular_bounded, stage_backup, stage_actions,
  mark_bootstrapped, recovery_root_found, write_bundle, prepare_in_namespace, prepare_bootstrap,
  prepare_at, prepare_durable_transaction, Environment,
}
use uawp.Workspace.Apply.Run.{
  set_state, locked_unless, lock_found, acquire_transaction_lock, resulting_hashes, receipt_matches,
  transition_from, transition, apply_action, apply_actions, receipt_found, write_migration_receipt,
  complete, apply_changes, apply_locked, apply, ApplyReport,
}
use uawp.Transaction.Codec.{encode, encode_journal, encode_pointer, encode_receipt, encode_plan}
use uawp.Transaction.Validate.{
  is_logical_path, is_backup_path, validate_identity, validate_pointer, are_hashes, validate_action,
  validate_actions, validate_journal, validate_receipt, same_changes, check_receipt,
  validate_bundle,
}
use uawp.Transaction.Progress.{can_transition}
use uawp.Plan.Change.{
  persist_change, new_directory, new_delete_file, new_delete_directory, with_sequence, restored,
  new_file, new_update_file, check_kind, restore_change, Change, missing_sha256,
}
use uawp.Plan.Persist.{order_changes, persisted, restore_changes, new_plan, restore, Plan}
use uawp.Base.{
  suc, zero, bytes_beq, space_width, last_space_width, trim_by, trim_space, equal_fold, has_prefix,
  contains_any, bytes_ltb, has_suffix, trim_prefix, true, false, ◌∷◌, [], codes, Bool, Result,
}
use uawp.Base.FilePath.{split, join, count_byte, clean_segments, clean, cut}
use uawp.Base.Utf8.{decode_rune, runes_after, runes}
use uawp.Base.Number.{digits_value, parse_uint, atoi_digits, atoi, digits, decimal, decimal_four}
use uawp.Base.Sort.{insert, sort}
use uawp.Base.Int.{ℤ, pos}
use uawp.Plan.Sample.{sample_hash, sample_marshal, no_metadata}

abbrev pub env : Environment
env = record {
  root = codes "/w";
  platform = record { hash_bytes = sample_hash; marshal = sample_marshal; is_rfc3339 = λ t. true };
  marshal = record {
    plan = λ p. codes "{plan}";
    journal = λ j. codes "{journal}";
    pointer = λ p. codes "{pointer}";
    receipt = λ r. codes "{receipt}";
  };
  marshal_migration = λ r. codes "{migration}";
}

abbrev pub update : Change
update =
    new_update_file sample_hash (codes ".uawp/CONTEXT.md") 384 (sample_hash (codes "old"))
      (codes "new text")

abbrev pub agents : Change
agents = new_file sample_hash (codes "AGENTS.md") 420 missing_sha256 (codes "read this")

unfoldable pub value : Plan
unfolding new_plan order_changes sort bytes_ltb new_file new_update_file
value =
    new_plan sample_hash sample_marshal (codes "repair") (codes "/w") (update ∷ agents ∷ [])
      (record { path = codes ".uawp/CONTEXT.md"; sha256 = sample_hash (codes "old") } ∷ [])
      no_metadata

-- The places where an application is stopped.
abbrev pub nowhere : Stage → ℤ → Bool
nowhere stage index = false

abbrev pub at_second : Stage → ℤ → Bool
at_second before_action (pos (suc zero)) = true
at_second _ _ = false

unfoldable pub options : (Stage → ℤ → Bool) → Options
unfolding value
options fails = record {
  approved_plan_id = value.id;
  fails = fails;
  started_at = codes "2026-01-01T00:00:00Z";
  started_nano = codes "2026-01-01T00:00:00.000000001Z";
  migrated_at = codes "2026-01-01T00:00:00Z";
  completed_at = codes "2026-01-01T00:00:01Z";
}

abbrev pub disk : Disk
disk = (codes ".uawp", directory) ∷ (codes ".uawp/CONTEXT.md", file (codes "old") 384) ∷ []

unfoldable pub run : (Stage → ℤ → Bool) → Disk → Result ApplyError ApplyReport × Disk
unfolding value options is_identifier is_hash pure fail check after on_error ◌>>=◌ modify
    refuse_when lstat create replace remove lookup set unset parent_of has_parent has_children
    device_name is_device is_portable_segment all_portable is_allowed_path ways inspect
    reject_symlink_ancestors resolve_uawp last_of is_root_markdown is_nested_codex resolve_native
    target_for_change input_unchanged verify_inputs remaining verify_inputs_except is_before
    verify_before_state is_after verify_after_state write_atomic write_update perform remove_all
    rename_tree read_found read_regular_bounded stage_backup stage_actions mark_bootstrapped
    recovery_root_found write_bundle prepare_in_namespace prepare_bootstrap prepare_at
    prepare_durable_transaction set_state locked_unless lock_found acquire_transaction_lock
    resulting_hashes receipt_matches transition_from transition apply_action apply_actions
    receipt_found write_migration_receipt complete apply_changes apply_locked apply encode
    encode_journal encode_pointer encode_receipt encode_plan is_logical_path is_backup_path
    validate_identity validate_pointer are_hashes validate_action validate_actions validate_journal
    validate_receipt same_changes check_receipt validate_bundle can_transition persist_change
    new_directory new_delete_file new_delete_directory with_sequence restored new_file
    new_update_file check_kind restore_change order_changes persisted restore_changes new_plan
    restore bytes_beq space_width last_space_width trim_by trim_space equal_fold has_prefix
    contains_any bytes_ltb has_suffix trim_prefix split join count_byte clean_segments clean cut
    decode_rune runes_after runes digits_value parse_uint atoi_digits atoi digits decimal
    decimal_four insert sort
run fails d = apply env (options fails) value d

-- The disk that the stopped application leaves.
unfoldable pub halted_disk : Disk
unfolding run
halted_disk = (run at_second disk).1

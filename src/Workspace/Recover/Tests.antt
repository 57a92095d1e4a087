-- ===== src/Workspace/Recover/Tests.antt =====
-- The recovery of an application that was stopped, run, and the theorems at it.
use uawp.Workspace.Recover.Locked.{AllMade}
use uawp.Workspace.Recover.Backup.{stage_backup-valid_iff}
use uawp.Plan.Sample.{sample_hash}
use uawp.Base.{
  ◌↔◌, ◌++◌, map, bytes_beq, space_width, last_space_width, trim_by, trim_space, equal_fold,
  has_prefix, contains_any, bytes_ltb, has_suffix, trim_prefix, none, some, ◌∷◌, [], codes, Result,
  List, ◌≡◌, ok, true, err, Bool, false, refl, ◌⊎◌,
}
use uawp.Workspace.Disk.{
  directory, lookup, set, unset, parent_of, has_parent, has_children, Disk, file,
}
use uawp.Plan.Change.{
  new_update_file, persist_change, new_directory, new_delete_file, new_delete_directory,
  with_sequence, restored, new_file, check_kind, restore_change, PersistedChange, Change,
}
use uawp.Workspace.Snapshot.{
  observe_backup, no_observation, observe_recovery_path, logical_target, observe_actions,
  observe_inputs, load_bundle, load_from, load_transaction_snapshot, transaction_status,
  TransactionSnapshot,
}
use uawp.Workspace.Apply.Prepare.{
  stage_backup, remove_all, rename_tree, read_found, read_regular_bounded, stage_actions,
  mark_bootstrapped, recovery_root_found, write_bundle, prepare_in_namespace, prepare_bootstrap,
  prepare_at, prepare_durable_transaction, transaction_id, pointer_for, journal_for, plain_action,
}
use uawp.Workspace.Recover.Laws.{recovery-retryable, recovery_complete}
use uawp.Workspace.Apply.Frame.{is_internal, IsMade}
use uawp.Workspace.Apply.Run.Complete.{ArePublic}
use uawp.Workspace.Apply.Prepare.Laws.{HasPointer}
use uawp.Workspace.Apply.Run.{
  pointer_path, set_state, locked_unless, lock_found, acquire_transaction_lock, resulting_hashes,
  receipt_matches, transition_from, transition, apply_action, apply_actions, receipt_found,
  write_migration_receipt, complete, apply_changes, apply_locked, apply, ApplyReport,
}
use uawp.Workspace.Op.{
  pure, fail, check, after, on_error, ◌>>=◌, modify, refuse_when, lstat, create, replace, remove,
  ApplyError, Stage, stopped, before_update,
}
use uawp.Workspace.Boundary.{
  device_name, is_device, is_portable_segment, all_portable, is_allowed_path, ways, inspect,
  reject_symlink_ancestors, resolve_uawp, last_of, is_root_markdown, is_nested_codex,
  resolve_native, target_for_change,
}
use uawp.Workspace.Verify.{
  input_unchanged, verify_inputs, remaining, verify_inputs_except, is_before, verify_before_state,
  is_after, verify_after_state,
}
use uawp.Workspace.Recover.{
  recover_changes, finalize_migration, write_receipt, recover_locked, plan_transaction_recovery,
  apply_transaction_recovery, rollback,
}
use uawp.Workspace.Apply.Perform.{write_atomic, write_update, perform, Options}
use uawp.Transaction.Codec.{
  encode, encode_journal, encode_pointer, encode_receipt, encode_plan, decode_strict,
  decode_journal, decode_pointer, decode_receipt, decode_plan, Unmarshal,
}
use uawp.Transaction.Validate.{
  is_logical_path, is_backup_path, validate_identity, validate_pointer, are_hashes, validate_action,
  validate_actions, validate_journal, validate_receipt, same_changes, check_receipt,
  validate_bundle,
}
use uawp.Transaction.Classify.{
  matches_before, matches_after, backup_ok, scan_action, scan_actions, scan_inputs, verdict,
  classify,
}
use uawp.Transaction.Record.{change_beq, Journal, Action, verified}
use uawp.Transaction.Recovery.{
  undo_change, undo_action, undo_actions, rollback_changes, redo_action, redo_actions, sorted_redo,
  continue_changes,
}
use uawp.Transaction.Progress.{can_transition}
use uawp.Plan.Persist.{order_changes, persisted, restore_changes, new_plan, restore, Plan}
use uawp.Base.FilePath.{split, join, count_byte, clean_segments, clean, cut}
use uawp.Base.Utf8.{decode_rune, runes_after, runes}
use uawp.Base.Number.{digits_value, parse_uint, atoi_digits, atoi, digits, decimal, decimal_four}
use uawp.Base.Sort.{insert, sort}
use uawp.Base.Pattern.{all, is_hash, is_name, is_identifier}
use uawp.Workspace.Apply.Sample.{env, value, options, nowhere, run, halted_disk}
use uawp.Base.Int.{ℤ}

-- The journal that the stopped application leaves, by its changes.
abbrev actions_for : List PersistedChange → List Action
actions_for (c ∷ e ∷ []) =
    record (plain_action env 0 c) {
      state = verified;
      backup_path = codes "backups/0000.bak";
      backup_sha256 = c.before_sha256;
      backup_mode = 384;
    }
    ∷ plain_action env 1 e
    ∷ []
actions_for _ = []

journal : Journal
unfolding value options persisted persist_change
journal =
    journal_for env value (options nowhere) (transaction_id env value (options nowhere))
      (actions_for (persisted value).changes)

unmarshal : Unmarshal
unfolding journal value options persisted persist_change
unmarshal = record {
  plan = λ t. some (persisted value);
  journal = λ t. some journal;
  pointer = λ t. some (pointer_for env value (transaction_id env value (options nowhere)));
  receipt = λ t. none;
}

loading : Result ApplyError TransactionSnapshot
unfolding unmarshal halted_disk run pure fail check after on_error ◌>>=◌ modify refuse_when lstat
    create replace remove lookup set unset parent_of has_parent has_children device_name is_device
    is_portable_segment all_portable is_allowed_path ways inspect reject_symlink_ancestors
    resolve_uawp last_of is_root_markdown is_nested_codex resolve_native target_for_change
    input_unchanged verify_inputs remaining verify_inputs_except is_before verify_before_state
    is_after verify_after_state observe_recovery_path logical_target observe_backup observe_actions
    observe_inputs load_bundle load_from load_transaction_snapshot transaction_status
    recover_changes finalize_migration write_receipt recover_locked plan_transaction_recovery
    apply_transaction_recovery write_atomic write_update perform remove_all rename_tree read_found
    read_regular_bounded stage_backup stage_actions mark_bootstrapped recovery_root_found
    write_bundle prepare_in_namespace prepare_bootstrap prepare_at prepare_durable_transaction
    set_state locked_unless lock_found acquire_transaction_lock resulting_hashes receipt_matches
    transition_from transition apply_action apply_actions receipt_found write_migration_receipt
    complete apply_changes apply_locked apply encode encode_journal encode_pointer encode_receipt
    encode_plan decode_strict decode_journal decode_pointer decode_receipt decode_plan
    is_logical_path is_backup_path validate_identity validate_pointer are_hashes validate_action
    validate_actions validate_journal validate_receipt same_changes check_receipt validate_bundle
    matches_before matches_after backup_ok scan_action scan_actions scan_inputs verdict classify
    change_beq undo_change undo_action undo_actions rollback_changes redo_action redo_actions
    sorted_redo continue_changes can_transition persist_change new_directory new_delete_file
    new_delete_directory with_sequence restored new_file new_update_file check_kind restore_change
    order_changes persisted restore_changes new_plan restore bytes_beq space_width last_space_width
    trim_by trim_space equal_fold has_prefix contains_any bytes_ltb has_suffix trim_prefix split
    join count_byte clean_segments clean cut decode_rune runes_after runes digits_value parse_uint
    atoi_digits atoi digits decimal decimal_four insert sort all is_hash is_name is_identifier
loading = load_transaction_snapshot env.platform unmarshal env.root halted_disk

planning : Result ApplyError Plan × Disk
unfolding loading run pure fail check after on_error ◌>>=◌ modify refuse_when lstat create replace
    remove lookup set unset parent_of has_parent has_children device_name is_device
    is_portable_segment all_portable is_allowed_path ways inspect reject_symlink_ancestors
    resolve_uawp last_of is_root_markdown is_nested_codex resolve_native target_for_change
    input_unchanged verify_inputs remaining verify_inputs_except is_before verify_before_state
    is_after verify_after_state observe_recovery_path logical_target observe_backup observe_actions
    observe_inputs load_bundle load_from load_transaction_snapshot transaction_status
    recover_changes finalize_migration write_receipt recover_locked plan_transaction_recovery
    apply_transaction_recovery write_atomic write_update perform remove_all rename_tree read_found
    read_regular_bounded stage_backup stage_actions mark_bootstrapped recovery_root_found
    write_bundle prepare_in_namespace prepare_bootstrap prepare_at prepare_durable_transaction
    set_state locked_unless lock_found acquire_transaction_lock resulting_hashes receipt_matches
    transition_from transition apply_action apply_actions receipt_found write_migration_receipt
    complete apply_changes apply_locked apply encode encode_journal encode_pointer encode_receipt
    encode_plan decode_strict decode_journal decode_pointer decode_receipt decode_plan
    is_logical_path is_backup_path validate_identity validate_pointer are_hashes validate_action
    validate_actions validate_journal validate_receipt same_changes check_receipt validate_bundle
    matches_before matches_after backup_ok scan_action scan_actions scan_inputs verdict classify
    change_beq undo_change undo_action undo_actions rollback_changes redo_action redo_actions
    sorted_redo continue_changes can_transition persist_change new_directory new_delete_file
    new_delete_directory with_sequence restored new_file new_update_file check_kind restore_change
    order_changes persisted restore_changes new_plan restore bytes_beq space_width last_space_width
    trim_by trim_space equal_fold has_prefix contains_any bytes_ltb has_suffix trim_prefix split
    join count_byte clean_segments clean cut decode_rune runes_after runes digits_value parse_uint
    atoi_digits atoi digits decimal decimal_four insert sort all is_hash is_name is_identifier
planning =
    plan_transaction_recovery env unmarshal (codes "controller") (codes "stopped") rollback
      halted_disk

abbrev plan_or_value : Result ApplyError Plan → Plan
plan_or_value (ok p) = p
plan_or_value (err e) = value

undoing : Plan
unfolding planning
undoing = plan_or_value planning.0

abbrev snapshot_or :
    TransactionSnapshot → Result ApplyError TransactionSnapshot → TransactionSnapshot
snapshot_or s (ok t) = t
snapshot_or s (err e) = s

abbrev at_update : Stage → ℤ → Bool
at_update before_update index = true
at_update _ _ = false

approved : (Stage → ℤ → Bool) → Options
unfolding undoing options
approved fails = record (options fails) { approved_plan_id = undoing.id }

recover : (Stage → ℤ → Bool) → Result ApplyError ApplyReport × Disk
unfolding loading approved undoing
recover fails = apply_transaction_recovery env unmarshal (approved fails) undoing halted_disk

undone_report : ApplyReport
unfolding undoing loading
undone_report = record {
  plan_id = undoing.id;
  applied_paths = codes ".uawp/CONTEXT.md" ∷ [];
  is_verified = true;
}

back : lookup (recover nowhere).1 (codes ".uawp/CONTEXT.md") ≡ some (file (codes "old") 384)
unfolding recover
back = refl

undone_ok :
    (apply_transaction_recovery env unmarshal (approved nowhere) undoing halted_disk).0
    ≡ ok undone_report
unfolding recover undone_report
undone_ok = refl

stopped_again :
    (apply_transaction_recovery env unmarshal (approved at_update) undoing halted_disk).0
    ≡ err (stopped before_update)
unfolding recover
stopped_again = refl

nothing_seen : TransactionSnapshot
unfolding journal value options persisted persist_change
nothing_seen = record {
  bundle = record {
    pointer = pointer_for env value (transaction_id env value (options nowhere));
    journal = journal;
    plan = persisted value;
    receipt = none;
  };
  observation = no_observation;
  journal_hash = [];
  bundle_dir = [];
}

snapshot : TransactionSnapshot
unfolding loading nothing_seen
snapshot = snapshot_or nothing_seen loading

loaded : load_transaction_snapshot env.platform unmarshal env.root halted_disk ≡ ok snapshot
unfolding snapshot
loaded = refl

public : ArePublic snapshot.bundle.plan.metadata.migration_receipt_path undoing.changes
unfolding snapshot undoing is_internal
public = (refl, tt)

recovery-retryable_example :
    HasPointer (apply_transaction_recovery env unmarshal (approved at_update) undoing halted_disk).1
    × ((lookup
            (apply_transaction_recovery env unmarshal (approved at_update) undoing halted_disk).1
            (codes "AGENTS.md")
          ≡ lookup halted_disk (codes "AGENTS.md"))
        ⊎ IsMade undoing.changes (codes "AGENTS.md") (
            lookup
              (apply_transaction_recovery env unmarshal (approved at_update) undoing halted_disk).1
              (codes "AGENTS.md")))
unfolding is_internal loading
recovery-retryable_example =
    recovery-retryable env unmarshal (approved at_update) undoing halted_disk snapshot loaded public
      (stopped before_update) (codes "AGENTS.md") stopped_again refl

recovery_complete_example :
    AllMade env.platform.hash_bytes undoing.changes
      (apply_transaction_recovery env unmarshal (approved nowhere) undoing halted_disk).1
    × (lookup
          (apply_transaction_recovery env unmarshal (approved nowhere) undoing halted_disk).1
          pointer_path
        ≡ none)
    × (undone_report.applied_paths ≡ map (λ (c : Change). c.path) undoing.changes)
    × ((lookup
            (apply_transaction_recovery env unmarshal (approved nowhere) undoing halted_disk).1
            (codes "AGENTS.md")
          ≡ lookup halted_disk (codes "AGENTS.md"))
        ⊎ IsMade undoing.changes (codes "AGENTS.md") (
            lookup
              (apply_transaction_recovery env unmarshal (approved nowhere) undoing halted_disk).1
              (codes "AGENTS.md")))
unfolding is_internal loading
recovery_complete_example =
    recovery_complete env unmarshal (approved nowhere) undoing halted_disk snapshot loaded public
      undone_report (codes "AGENTS.md") undone_ok refl

-- An entry with the mode that such files have.
abbrev shared_disk : Disk
shared_disk =
    (codes "b", directory)
    ∷ (codes "b/backups", directory)
    ∷ (codes "AGENTS.md", file (codes "old") 420)
    ∷ []

entry : PersistedChange
unfolding persist_change new_update_file
entry = persist_change (
    new_update_file sample_hash (codes "AGENTS.md") 420 (sample_hash (codes "old"))
      (codes "new text"))

staged : Action
unfolding entry
staged = record (plain_action env 0 entry) {
  backup_path = codes "backups/0000.bak";
  backup_sha256 = sample_hash (codes "old");
  backup_mode = 420;
}

staging : Result ApplyError Action × Disk
unfolding entry loading stage_backup
staging = stage_backup env (codes "b") 0 entry shared_disk

entry_is_copied : (stage_backup env (codes "b") 0 entry shared_disk).0 ≡ ok staged
unfolding staging staged
entry_is_copied = refl

-- The backup of the entry is there, and counts as damaged.
entry_backup :
    (observe_backup env.platform staged (lookup staging.1 (codes "b/backups/0000.bak"))).valid
    ≡ false
unfolding staging staged
entry_backup = refl

stage_backup-valid_iff_example :
    ((observe_backup env.platform staged (
        lookup
          (stage_backup env (codes "b") 0 entry shared_disk).1
          (codes "b" ++ (b'/' ∷ staged.backup_path)))).valid
      ≡ true)
    ↔ (staged.backup_mode ≡ 0o600)
stage_backup-valid_iff_example =
    stage_backup-valid_iff env (codes "b") 0 entry shared_disk staged entry_is_copied

-- ===== src/Transaction/Validate.antt =====
-- internal/transaction/types.go: the validation of the records.
pub mod Laws
use uawp.Base.{
  ℕ, suc, Bool, true, false, ◌&&◌, ◌||◌, not, Option, none, some, List, [], ◌∷◌, ◌==◌, ◌/=◌, nat_eq,
  if◌then◌else◌, Result, ok, err, ◌>>=◌, ◌>>◌, refuse_if, contains, length, Bytes, codes, bytes_eq,
  is_empty, has_prefix, contains_any,
}
use uawp.Base.FilePath.{clean, count_byte}
use uawp.Base.Int.{pos, int_eq}
use uawp.Base.Pattern.{is_hash, is_identifier}
use uawp.Plan.Change.{ChangeKind, update_file, delete_file, PersistedChange, restore_change}
use uawp.Plan.Persist.{restore}
use uawp.Transaction.Record.{
  ActionState, Phase, Action, Journal, LivePointer, Outcome, Receipt, Bundle, Platform, change_beq,
  phase_beq,
}

pub data RecordError : Type 0 where
  unsupported_schema invalid_identity workspace_not_absolute invalid_phase invalid_time :
      RecordError
  index_not_canonical duplicate_path invalid_action invalid_state lacks_backup : RecordError
  invalid_backup_path backup_hash_without_path : RecordError
  invalid_result invalid_receipt_hash invalid_plan : RecordError
  pointer_disagrees plan_disagrees action_count_differs action_differs receipt_disagrees :
      RecordError

unfoldable pub is_logical_path : Bytes → Bool
is_logical_path value =
    not (is_empty value)
    && not (contains_any value (codes "\\"))
    && not (has_prefix value (codes "/"))
    && clean value == value
    && value /= codes "."
    && not (has_prefix value (codes "../"))

unfoldable pub is_backup_path : Bytes → Bool
is_backup_path value =
    has_prefix value (codes "backups/") && is_logical_path value && count_byte b'/' value == 1

abbrev is_known_state : ActionState → Bool
is_known_state (ActionState.unknown s) = false
is_known_state _ = true

abbrev is_known_phase : Phase → Bool
is_known_phase (Phase.unknown s) = false
is_known_phase _ = true

abbrev is_known_result : Outcome → Bool
is_known_result (Outcome.unknown s) = false
is_known_result _ = true

-- `filepath.IsAbs` on a Unix system.
unfoldable pub validate_identity :
    Bytes → Bytes → Bytes → Bytes → Phase → Result RecordError (Unit {0})
validate_identity transaction_id operation plan_id workspace phase = do
  refuse_if (not (is_identifier transaction_id) || is_empty operation || not (is_hash plan_id))
      invalid_identity
  refuse_if (not (has_prefix workspace (codes "/"))) workspace_not_absolute
  refuse_if (not (is_known_phase phase)) invalid_phase

abbrev pub needs_backup : ChangeKind → Bool
needs_backup update_file = true
needs_backup delete_file = true
needs_backup _ = false

unfoldable pub validate_pointer : LivePointer → Result RecordError (Unit {0})
validate_pointer p = do
  refuse_if (p.schema_version /= codes "1") unsupported_schema
  validate_identity p.transaction_id p.operation p.plan_id p.workspace p.phase

unfoldable pub are_hashes : List (Bytes × Bytes) → Bool
are_hashes [] = true
are_hashes ((path, hash) ∷ rest) = is_logical_path path && is_hash hash && are_hashes rest

module _ (platform : Platform) where
  -- The body of the loop over the actions, at an index and with the paths seen so far.
  unfoldable pub validate_action : ℕ → List Bytes → Action → Result RecordError (Unit {0})
  validate_action index seen action = do
    refuse_if (action.index /= pos index) index_not_canonical
    refuse_if (contains seen action.change.path) duplicate_path
    refuse_if
        (elim (restore_change platform.hash_bytes action.change) [ ok c ↦ false | err e ↦ true ])
        invalid_action
    refuse_if (not (is_known_state action.state)) invalid_state
    refuse_if
        (needs_backup action.change.kind
          && (is_empty action.backup_path
              || not (is_hash action.backup_sha256)
              || action.backup_mode == 0))
        lacks_backup
    refuse_if (not (is_empty action.backup_path) && not (is_backup_path action.backup_path))
        invalid_backup_path
    refuse_if (is_empty action.backup_path && not (is_empty action.backup_sha256))
        backup_hash_without_path

  unfoldable pub validate_actions : ℕ → List Bytes → List Action → Result RecordError (Unit {0})
  validate_actions index seen [] = ok tt
  validate_actions index seen (action ∷ rest) = do
    validate_action index seen action
    validate_actions (suc index) (action.change.path ∷ seen) rest

  unfoldable pub validate_journal : Journal → Result RecordError (Unit {0})
  validate_journal j = do
    refuse_if (j.schema_version /= codes "1") unsupported_schema
    validate_identity j.transaction_id j.operation j.plan_id j.workspace j.phase
    refuse_if (not (platform.is_rfc3339 j.started_at)) invalid_time
    validate_actions 0 [] j.actions

  unfoldable pub validate_receipt : Receipt → Result RecordError (Unit {0})
  validate_receipt r = do
    refuse_if (r.schema_version /= codes "1") unsupported_schema
    refuse_if
        (not (is_identifier r.transaction_id) || is_empty r.operation || not (is_hash r.plan_id))
        invalid_identity
    refuse_if (not (platform.is_rfc3339 r.completed_at)) invalid_time
    refuse_if (not (is_known_result r.result)) invalid_result
    refuse_if (not (are_hashes r.hashes)) invalid_receipt_hash

  -- The loop that compares the journal's changes with the plan's, of equal number.
  unfoldable pub same_changes : List Action → List PersistedChange → Bool
  same_changes (a ∷ actions) (c ∷ changes) = change_beq a.change c && same_changes actions changes
  same_changes _ _ = true

  unfoldable pub check_receipt : Option Receipt → Journal → Result RecordError (Unit {0})
  check_receipt none j = ok tt
  check_receipt (some r) j = do
    validate_receipt r
    refuse_if
        (r.transaction_id /= j.transaction_id
          || r.operation /= j.operation
          || r.plan_id /= j.plan_id)
        receipt_disagrees

  unfoldable pub validate_bundle : Bundle → Result RecordError (Unit {0})
  validate_bundle b = do
    let p = b.pointer
    let j = b.journal
    validate_pointer p
    validate_journal j
    refuse_if
        (elim (restore platform.hash_bytes platform.marshal b.plan) [ ok c ↦ false | err e ↦ true ])
        invalid_plan
    refuse_if
        (p.transaction_id /= j.transaction_id
          || p.operation /= j.operation
          || p.plan_id /= j.plan_id
          || p.workspace /= j.workspace
          || not (phase_beq p.phase j.phase))
        pointer_disagrees
    refuse_if
        (b.plan.id /= j.plan_id
          || b.plan.operation /= j.operation
          || b.plan.workspace /= j.workspace)
        plan_disagrees
    refuse_if (length j.actions /= length b.plan.changes) action_count_differs
    refuse_if (not (same_changes j.actions b.plan.changes)) action_differs
    check_receipt b.receipt j

-- ===== src/Transaction/Recovery.antt =====
-- internal/transaction/recovery.go: the changes that undo or finish an interrupted transaction.
pub mod Order
pub mod Effect
pub mod Continue
pub mod Rollback
use uawp.Base.{
  ℕ, suc, ◌+◌, ◌-◌, ◌*◌, Bool, true, false, List, [], ◌∷◌, ◌++◌, if◌then◌else◌, Result, ok, err,
  ◌>>=◌, ◌>>◌, length, Bytes,
}
use uawp.Base.Int.{ℤ, pos, int_ltb}
use uawp.Base.Sort.{sort}
use uawp.Plan.Change.{
  ChangeKind, create_dir, create_file, update_file, delete_file, delete_dir, unsupported, Change,
  ChangeError, PersistedChange, missing_sha256, new_directory, new_file, new_update_file,
  new_delete_file, new_delete_directory, with_sequence, restore_change,
}
use uawp.Plan.Persist.{by_sequence}
use uawp.Transaction.Record.{Action, Bundle, Platform}
use uawp.Transaction.Classify.{
  Classification, rollback_available, continue_available, both_available, manual_required,
  transaction_complete, Observation, classify, live_state, backup_state, BackupState,
  matches_before, matches_after,
}

pub data RecoveryError : Type 0 where
  rollback_unavailable continuation_unavailable : Classification → RecoveryError
  unsupported_rollback neither_before_nor_after : RecoveryError
  bad_change : ChangeError → RecoveryError

module _ (platform : Platform) where
  -- The switch on the kind of the change to undo.
  unfoldable pub undo_change : Action → BackupState → Result RecoveryError Change
  undo_change action backup = elim action.change.kind [
    | create_file ↦ ok (new_delete_file action.change.path action.change.after_sha256)
    | create_dir ↦ ok (new_delete_directory action.change.path)
    | update_file ↦ ok (
        new_update_file platform.hash_bytes action.change.path action.backup_mode
          action.change.after_sha256 backup.content)
    | delete_file ↦ ok (
        new_file platform.hash_bytes action.change.path action.backup_mode missing_sha256
          backup.content)
    | delete_dir ↦ ok (new_directory action.change.path action.change.mode)
    | unsupported k ↦ err unsupported_rollback
  ]

  -- The body of the loop of `RollbackChanges`: nothing where the path is as the action found it.
  unfoldable pub undo_action : Observation → ℕ → ℕ → Action → Result RecoveryError (List Change)
  undo_action o count index action =
      if matches_before action.change (live_state o action.change.path) then ok [] else do
        change ← undo_change action (backup_state o index)
        ok (with_sequence change (pos ((count - index) * 10)) ∷ [])

  -- The loop, from the last action to the first.
  unfoldable pub undo_actions :
      Observation → ℕ → ℕ → List Action → Result RecoveryError (List Change)
  undo_actions o count index [] = ok []
  undo_actions o count index (a ∷ actions) = do
    later ← undo_actions o count (suc index) actions
    own ← undo_action o count index a
    ok (later ++ own)

  unfoldable pub rollback_changes : Bundle → Observation → Result RecoveryError (List Change)
  rollback_changes bundle o =
      let c = (classify platform bundle o).classification in
      let actions = bundle.journal.actions in
      elim c [
        | rollback_available ↦ undo_actions o (length actions) 0 actions
        | both_available ↦ undo_actions o (length actions) 0 actions
        | continue_available ↦ err (rollback_unavailable continue_available)
        | manual_required ↦ err (rollback_unavailable manual_required)
        | transaction_complete ↦ err (rollback_unavailable transaction_complete)
      ]

  -- The body of the loop of `ContinueChanges`.
  unfoldable pub redo_action : Observation → Action → Result RecoveryError (List Change)
  redo_action o action =
      let live = live_state o action.change.path in
      if matches_after action.change live
      then ok []
      else if matches_before action.change live
      then (elim (restore_change platform.hash_bytes action.change) [
        | ok change ↦ ok (change ∷ [])
        | err e ↦ err (bad_change e)
      ])
      else err neither_before_nor_after

  unfoldable pub redo_actions : Observation → List Action → Result RecoveryError (List Change)
  redo_actions o [] = ok []
  redo_actions o (a ∷ actions) = do
    own ← redo_action o a
    later ← redo_actions o actions
    ok (own ++ later)

  -- sort.SliceStable
  unfoldable pub sorted_redo : Observation → List Action → Result RecoveryError (List Change)
  sorted_redo o actions = do changes ← redo_actions o actions; ok (sort by_sequence changes)

  unfoldable pub continue_changes : Bundle → Observation → Result RecoveryError (List Change)
  unfolding sorted_redo
  continue_changes bundle o =
      let c = (classify platform bundle o).classification in
      let actions = bundle.journal.actions in
      elim c [
        | continue_available ↦ sorted_redo o actions
        | both_available ↦ sorted_redo o actions
        | transaction_complete ↦ sorted_redo o actions
        | rollback_available ↦ err (continuation_unavailable rollback_available)
        | manual_required ↦ err (continuation_unavailable manual_required)
      ]

-- ===== src/Workspace/Recover.antt =====
-- internal/workspace/transaction_recovery.go: the plan that rolls an interrupted transaction back or
-- continues it, and its application.
pub mod Loaded
pub mod Backup
pub mod Locked
pub mod Laws
mod Tests
use uawp.Base.{
  ℕ, suc, Bool, true, false, ◌&&◌, ◌||◌, Option, none, some, List, [], ◌∷◌, ◌++◌, map, ◌==◌, ◌/=◌,
  bytes_eq, if◌then◌else◌, ok, err, Bytes, codes, is_empty, not,
}
use uawp.Base.Int.{pos}
use uawp.Plan.Change.{Change}
use uawp.Plan.Persist.{Plan, Metadata, new_plan, restore}
use uawp.Transaction.Record.{Receipt, completed, undone}
use uawp.Transaction.Recovery.{rollback_changes, continue_changes}
use uawp.Transaction.Codec.{Unmarshal, encode_receipt}
use uawp.Workspace.Disk.{Node, file}
use uawp.Workspace.Op.{
  Op, approval_required, evidence_changed, missing_actor, no_changes, bad_evidence, pure, check,
  after, refuse_when, lstat, create, remove, ◌>>=◌, ◌>>◌,
}
use uawp.Workspace.Boundary.{target_for_change}
use uawp.Workspace.Verify.{verify_before_state, verify_after_state}
use uawp.Workspace.Snapshot.{TransactionSnapshot, load_transaction_snapshot}
use uawp.Workspace.Apply.Perform.{Options, perform, write_exclusive_synced, write_replace_atomic}
use uawp.Workspace.Apply.Prepare.{Environment, DurableTransaction, encoded}
use uawp.Workspace.Apply.Run.{ApplyReport, lock_path, pointer_path, unlock, write_migration_receipt}

pub data RecoveryAction : Type 0 where
  rollback continuation : RecoveryAction

abbrev pub action_text : RecoveryAction → Bytes
action_text rollback = codes "ROLLBACK"
action_text continuation = codes "CONTINUE"

abbrev pub is_known_action : Bytes → Bool
is_known_action text = text == codes "ROLLBACK" || text == codes "CONTINUE"

module _ (env : Environment) (options : Options) where
  -- The loop over the changes of the recovery plan.
  unfoldable pub recover_changes : ℕ → List Change → Op (Unit {0})
  recover_changes index [] = pure tt
  recover_changes index (c ∷ changes) = do
    target ← check (λ d. target_for_change d c.path)
    perform env.platform.hash_bytes options (pos index) c target
    check (verify_after_state env.platform.hash_bytes (c ∷ []))
    recover_changes (suc index) changes

  abbrev finalizer : TransactionSnapshot → DurableTransaction
  finalizer s = record {
    id = [];
    namespace = [];
    bundle_dir = [];
    journal = s.bundle.journal;
    bootstrap = false;
    metadata = s.bundle.plan.metadata;
  }

  -- The receipt of a migration that is continued to its end.
  unfoldable pub finalize_migration : TransactionSnapshot → Op (Unit {0})
  finalize_migration s = do
    original ← check (λ d.
        elim (restore env.platform.hash_bytes env.platform.marshal s.bundle.plan) [
          | ok p ↦ ok p
          | err e ↦ err bad_evidence
        ])
    write_migration_receipt env options (finalizer s) original.changes

  abbrev recovery_receipt : TransactionSnapshot → Bytes → Receipt
  recovery_receipt s action = record {
    schema_version = codes "1";
    transaction_id = s.bundle.journal.transaction_id;
    operation = s.bundle.journal.operation;
    plan_id = s.bundle.journal.plan_id;
    completed_at = options.completed_at;
    result = if action == codes "ROLLBACK" then undone else completed;
    hashes = [];
  }

  unfoldable pub write_receipt : Bytes → Bytes → Option Node → Op (Unit {0})
  write_receipt target text none = write_exclusive_synced target text 0o600
  write_receipt target text (some found) = write_replace_atomic target text 0o600

  -- What is done under the lock.
  unfoldable pub recover_locked : TransactionSnapshot → Plan → Op ApplyReport
  unfolding write_receipt
  recover_locked s value = do
    check (verify_before_state env.platform.hash_bytes value.changes)
    recover_changes 0 value.changes
    (if not (is_empty s.bundle.plan.metadata.migration_receipt_path)
          && value.metadata.recovery_action == codes "CONTINUE"
        then finalize_migration s
        else pure tt)
    text ← encoded (
        encode_receipt env.platform env.marshal (recovery_receipt s value.metadata.recovery_action))
    n ← lstat (s.bundle_dir ++ codes "/receipt.json")
    write_receipt (s.bundle_dir ++ codes "/receipt.json") text n
    remove pointer_path
    pure (record {
      plan_id = value.id;
      applied_paths = map (λ (c : Change). c.path) value.changes;
      is_verified = true;
    })

module _ (env : Environment) (unmarshal : Unmarshal) where
  abbrev load : Op TransactionSnapshot
  load = check (load_transaction_snapshot env.platform unmarshal env.root)

  abbrev recovery_metadata : Bytes → Bytes → RecoveryAction → TransactionSnapshot → Metadata
  recovery_metadata controller reason action s = record {
    actor_worker_id = [];
    actor_session_id = [];
    ownership_generation = 0;
    reason = reason;
    controller_id = controller;
    transaction_id = s.bundle.journal.transaction_id;
    journal_sha256 = s.journal_hash;
    recovery_action = action_text action;
    migration_from = [];
    migration_to = [];
    migration_receipt_path = [];
    purge_export_path = [];
    purge_archive_sha256 = [];
    purge_marker_sha256 = [];
  }

  abbrev recovery_changes : RecoveryAction → TransactionSnapshot → Op (List Change)
  recovery_changes action s = check (λ d. elim action [
    | rollback ↦ elim (rollback_changes env.platform s.bundle s.observation) [
      | ok changes ↦ ok changes
      | err e ↦ err (no_changes e)
    ]
    | continuation ↦ elim (continue_changes env.platform s.bundle s.observation) [
      | ok changes ↦ ok changes
      | err e ↦ err (no_changes e)
    ]
  ])

  unfoldable pub plan_transaction_recovery : Bytes → Bytes → RecoveryAction → Op Plan
  plan_transaction_recovery controller reason action = do
    refuse_when (is_empty controller || is_empty reason) missing_actor
    s ← load
    changes ← recovery_changes action s
    pure (
        new_plan env.platform.hash_bytes env.platform.marshal
          (codes "transaction-" ++ action_text action) env.root changes []
          (recovery_metadata controller reason action s))

  unfoldable pub apply_transaction_recovery : Options → Plan → Op ApplyReport
  apply_transaction_recovery options value = do
    refuse_when
        (is_empty options.approved_plan_id
          || options.approved_plan_id /= value.id
          || value.workspace /= env.root)
        approval_required
    s ← load
    refuse_when
        (value.metadata.transaction_id /= s.bundle.journal.transaction_id
          || value.metadata.journal_sha256 /= s.journal_hash
          || not (is_known_action value.metadata.recovery_action))
        evidence_changed
    create lock_path (file [] 0o600)
    after (recover_locked env options s value) unlock

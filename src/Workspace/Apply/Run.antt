-- ===== src/Workspace/Apply/Run.antt =====
-- internal/workspace/apply.go and transaction_apply.go: the actions one after the other, each
-- recorded before and after it is made, and the receipt at the end.
pub mod Complete
pub mod Migrated
pub mod Laws
use uawp.Base.{
  ℕ, zero, suc, Bool, true, false, ◌&&◌, ◌||◌, not, Option, none, some, List, [], ◌∷◌, ◌++◌, map,
  ◌==◌, ◌/=◌, bytes_eq, if◌then◌else◌, get_elem?, length, Bytes, codes, is_empty, has_prefix,
  trim_prefix, nat_eq,
}
use uawp.Base.Int.{pos, negsuc}
use uawp.Plan.Change.{Change, missing_sha256, directory_sha256}
use uawp.Plan.Persist.{Plan}
use uawp.Transaction.Record.{
  ActionState, in_progress, applied, verified, Action, Receipt, completed,
}
use uawp.Transaction.Progress.{can_transition}
use uawp.Transaction.Codec.{encode_journal, encode_receipt}
use uawp.Workspace.Disk.{Node, file, Disk, unset, is_directory, read_node}
use uawp.Workspace.Op.{
  Op, before_action, before_publish, after_publish, after_action_verify, after_receipt_sync,
  after_pointer_clear, approval_required, wrong_workspace, unsafe_namespace, recovery_required,
  purge_recovery_required, bad_transition, bad_receipt_path, receipt_collision, pure, fail, check,
  after, modify, refuse_when, lstat, create, replace, remove, ◌>>=◌, ◌>>◌,
}
use uawp.Workspace.Boundary.{target_for_change, resolve_uawp}
use uawp.Workspace.Verify.{
  verify_inputs, verify_inputs_except, verify_before_state, verify_after_state,
}
use uawp.Workspace.Apply.Perform.{
  write_exclusive_synced, write_replace_atomic, Options, failpoint, perform,
}
use uawp.Workspace.Apply.Prepare.{
  Environment, DurableTransaction, namespace_path, encoded, prepare_durable_transaction,
}

pub record ApplyReport : Type 0 where
  pub plan_id : Bytes
  pub applied_paths : List Bytes
  pub is_verified : Bool

abbrev pub lock_path : Bytes
lock_path = codes ".uawp/TRANSACTION.lock"

abbrev pub pointer_path : Bytes
pointer_path = codes ".uawp/RECOVERY.json"

abbrev purge_path : Bytes
purge_path = codes ".uawp/PURGE.json"

unfoldable pub set_state : ℕ → ActionState → List Action → List Action
set_state index state [] = []
set_state zero state (a ∷ actions) = record a { state = state } ∷ actions
set_state (suc index) state (a ∷ actions) = a ∷ set_state index state actions

abbrev pub is_present : Option Node → Bool
is_present none = false
is_present (some n) = true

abbrev pub unlock : Disk → Disk
unlock d = unset d lock_path

-- What the lock is given back for.
unfoldable pub locked_unless : Bool → Bool → Op Bool
locked_unless true purge = do modify unlock; fail recovery_required
locked_unless false true = do modify unlock; fail purge_recovery_required
locked_unless false false = pure true

unfoldable pub lock_found : Bool → Option Node → Op Bool
unfolding locked_unless
lock_found allow_pending_purge none = pure false
lock_found allow_pending_purge (some found) = do
  refuse_when (not (is_directory (some found))) unsafe_namespace
  create lock_path (file [] 0o600)
  pointer ← lstat pointer_path
  purge ← lstat purge_path
  locked_unless (is_present pointer) (not allow_pending_purge && is_present purge)

-- `acquireTransactionLock`; the result tells whether there is a lock to remove.
unfoldable pub acquire_transaction_lock : Bool → Op Bool
unfolding lock_found
acquire_transaction_lock allow_pending_purge = do
  n ← lstat namespace_path
  lock_found allow_pending_purge n

-- The hashes of the files that the changes leave.
unfoldable pub resulting_hashes : List Change → List (Bytes × Bytes)
resulting_hashes [] = []
resulting_hashes (c ∷ changes) =
    let rest = resulting_hashes changes in
    if c.after_sha256 /= missing_sha256 && c.after_sha256 /= directory_sha256
    then (c.path, c.after_sha256) ∷ rest
    else rest

-- A receipt that is there already must be the same.
unfoldable pub receipt_matches : Bytes → Option Bytes → Op (Unit {0})
receipt_matches content none = fail receipt_collision
receipt_matches content (some existing) = refuse_when (existing /= content) receipt_collision

module _ (env : Environment) (options : Options) where
  abbrev pub journal_path : DurableTransaction → Bytes
  journal_path t = t.bundle_dir ++ codes "/journal.json"

  unfoldable pub transition_from :
      DurableTransaction → ℕ → ActionState → Option Action → Op DurableTransaction
  transition_from t index state none = fail bad_transition
  transition_from t index state (some a) = do
    refuse_when (not (can_transition a.state state)) bad_transition
    let actions = set_state index state t.journal.actions
    let journal = record (t.journal) { actions = actions }
    text ← encoded (encode_journal env.platform env.marshal journal)
    write_replace_atomic (journal_path t) text 0o600
    pure (record t { journal = journal })

  unfoldable pub transition : DurableTransaction → ℕ → ActionState → Op DurableTransaction
  unfolding transition_from
  transition t index state = transition_from t index state (get_elem? t.journal.actions index)

  abbrev is_done : DurableTransaction → ℕ → Bool
  is_done t index = t.bootstrap && elim (get_elem? t.journal.actions index) [
    | none ↦ false
    | some a ↦ elim a.state [ verified ↦ true | _ ↦ false ]
  ]

  -- The body of the loop over the changes.
  unfoldable pub apply_action :
      Plan → ℕ → List Bytes → DurableTransaction → Change → Op DurableTransaction
  apply_action value index done t c = do
    failpoint options before_action (pos index)
    failpoint options before_publish (pos index)
    check (verify_inputs_except env.platform.hash_bytes done value.inputs)
    target ← check (λ d. target_for_change d c.path)
    t ← transition t index in_progress
    perform env.platform.hash_bytes options (pos index) c target
    failpoint options after_publish (pos index)
    t ← transition t index applied
    check (verify_after_state env.platform.hash_bytes (c ∷ []))
    failpoint options after_action_verify (pos index)
    transition t index verified

  -- The loop. In a new namespace an action that the bundle has made is passed over.
  unfoldable pub apply_actions :
      Plan → ℕ → List Bytes → DurableTransaction → List Change → Op DurableTransaction
  apply_actions value index done t [] = pure t
  apply_actions value index done t (c ∷ changes) = do
    t ← (if is_done t index then pure t else apply_action value index done t c)
    apply_actions value (suc index) (c.path ∷ done) t changes

  unfoldable pub receipt_found : Bytes → Bytes → Option Node → Op (Unit {0})
  unfolding receipt_matches
  receipt_found target content none = write_exclusive_synced target content 0o600
  receipt_found target content (some found) = receipt_matches content (read_node (some found))

  unfoldable pub write_migration_receipt : DurableTransaction → List Change → Op (Unit {0})
  unfolding receipt_found
  write_migration_receipt t changes = do
    let path = t.metadata.migration_receipt_path
    let content = env.marshal_migration (record {
      from = t.metadata.migration_from;
      to = t.metadata.migration_to;
      approved_plan_id = t.journal.plan_id;
      completed_at = options.migrated_at;
      resulting_hashes = resulting_hashes changes;
      applied_paths = map (λ (c : Change). c.path) changes;
    })
    refuse_when (not (has_prefix path (codes ".uawp/"))) bad_receipt_path
    target ← check (λ d. resolve_uawp d (trim_prefix path (codes ".uawp/")))
    n ← lstat target
    receipt_found target content n

  abbrev pub receipt_for : DurableTransaction → List Change → Receipt
  receipt_for t changes = record {
    schema_version = codes "1";
    transaction_id = t.id;
    operation = t.journal.operation;
    plan_id = t.journal.plan_id;
    completed_at = options.completed_at;
    result = completed;
    hashes = resulting_hashes changes;
  }

  unfoldable pub complete : DurableTransaction → List Change → Op (Unit {0})
  complete t changes = do
    (if is_empty t.metadata.migration_receipt_path
        then pure tt
        else write_migration_receipt t changes)
    text ← encoded (encode_receipt env.platform env.marshal (receipt_for t changes))
    write_exclusive_synced (t.bundle_dir ++ codes "/receipt.json") text 0o600
    failpoint options after_receipt_sync (negsuc 0)
    remove pointer_path
    failpoint options after_pointer_clear (negsuc 0)

  abbrev pub report_for : Plan → List Change → ApplyReport
  report_for value changes = record {
    plan_id = value.id;
    applied_paths = map (λ (c : Change). c.path) changes;
    is_verified = true;
  }

  -- From the preparation to the report, for a plan with changes.
  unfoldable pub apply_changes : Plan → Op ApplyReport
  apply_changes value = do
    t ← prepare_durable_transaction env value options
    t ← apply_actions value 0 [] t value.changes
    check (verify_after_state env.platform.hash_bytes value.changes)
    complete t value.changes
    pure (report_for value value.changes)

  -- What is done under the lock.
  unfoldable pub apply_locked : Plan → Op ApplyReport
  apply_locked value = do
    check (verify_inputs env.platform.hash_bytes value.inputs)
    check (verify_before_state env.platform.hash_bytes value.changes)
    (if length value.changes == 0 then pure (report_for value []) else apply_changes value)

  unfoldable pub apply : Plan → Op ApplyReport
  apply value = do
    refuse_when (is_empty options.approved_plan_id || options.approved_plan_id /= value.id)
        approval_required
    refuse_when (value.workspace /= env.root) wrong_workspace
    locked ← acquire_transaction_lock (value.operation == codes "purge-abort")
    after (apply_locked value) (λ d. if locked then unlock d else d)

-- ===== src/Workspace/Apply/Prepare.antt =====
-- internal/workspace/transaction_apply.go: the durable bundle of a transaction, which is written
-- before the first change: plan, backups, journal, and at last the pointer to it.
pub mod Laws
use uawp.Base.{
  ℕ, suc, ◌%◌, ◌^◌, Bool, true, false, ◌||◌, none, some, List, [], ◌∷◌, ◌++◌, ◌==◌, ◌/=◌, bytes_eq,
  if◌then◌else◌, leb, Result, ok, err, length, take, Bytes, codes, has_prefix, trim_prefix, Option,
}
use uawp.Base.Int.{pos, negsuc}
use uawp.Base.Number.{decimal_four}
use uawp.Plan.Change.{create_dir, PersistedChange, restore_change}
use uawp.Plan.Persist.{Plan, persisted, Metadata}
use uawp.Transaction.Record.{Action, Journal, LivePointer, applying, Platform, pending, verified}
use uawp.Transaction.Validate.{needs_backup}
use uawp.Transaction.Codec.{
  Marshal, max_record_bytes, CodecError, encode_plan, encode_journal, encode_pointer,
}
use uawp.Workspace.Disk.{Node, file, directory, Disk, Node}
use uawp.Workspace.Op.{
  Op, before_bundle, after_plan_sync, after_backup_sync, before_bootstrap_rename,
  after_pointer_sync, bad_record, backup_failed, unsafe_recovery_root, namespace_appeared, pure,
  fail, check, on_error, modify, refuse_when, lstat, create, ◌>>=◌, ◌>>◌,
}
use uawp.Workspace.Boundary.{target_for_change}
use uawp.Workspace.Apply.Perform.{write_exclusive_synced, write_replace_atomic, Options, failpoint}

-- `migrationReceipt` of internal/workspace/upgrade.go, less the two constants that it holds.
pub record MigrationReceipt : Type 0 where
  pub from : Bytes
  pub to : Bytes
  pub approved_plan_id : Bytes
  pub completed_at : Bytes
  pub resulting_hashes : List (Bytes × Bytes)
  pub applied_paths : List Bytes

-- The root of the workspace, and what the code calls and does not define.
pub record Environment : Type 0 where
  pub root : Bytes
  pub platform : Platform
  pub marshal : Marshal
  pub marshal_migration : MigrationReceipt → Bytes

pub record DurableTransaction : Type 0 where
  pub id : Bytes
  pub namespace : Bytes
  pub bundle_dir : Bytes
  pub journal : Journal
  pub bootstrap : Bool
  pub metadata : Metadata

abbrev pub namespace_path : Bytes
namespace_path = codes ".uawp"

abbrev pub encoded : {A : Type 0} → Result CodecError A → Op A
encoded r = check (λ d. elim r [ ok text ↦ ok text | err e ↦ err bad_record ])

-- os.RemoveAll
unfoldable pub remove_all : Bytes → Disk → Disk
remove_all p [] = []
remove_all p ((q, n) ∷ d) =
    let rest = remove_all p d in
    if q == p || has_prefix q (p ++ (b'/' ∷ [])) then rest else (q, n) ∷ rest

-- os.Rename of a directory to a path where nothing stands.
unfoldable pub rename_tree : Bytes → Bytes → Disk → Disk
rename_tree old new [] = []
rename_tree old new ((q, n) ∷ d) =
    let rest = rename_tree old new d in
    if q == old
    then (new, n) ∷ rest
    else if has_prefix q (old ++ (b'/' ∷ []))
    then (new ++ trim_prefix q old, n) ∷ rest
    else (q, n) ∷ rest

-- `readRegularBounded`
unfoldable pub read_found : Option Node → Op (Bytes × ℕ)
read_found (some (file content mode)) =
    if leb (length content) max_record_bytes then pure (content, mode) else fail backup_failed
read_found other = fail backup_failed

unfoldable pub read_regular_bounded : Bytes → Op (Bytes × ℕ)
unfolding read_found
read_regular_bounded target = do n ← lstat target; read_found n

module _ (env : Environment) where
  abbrev hash : Bytes → Bytes
  hash = env.platform.hash_bytes

  abbrev pub transaction_id : Plan → Options → Bytes
  transaction_id value options =
      codes "txn-" ++ take 32 (hash (value.id ++ (0 ∷ options.started_nano)))

  abbrev pub plain_action : ℕ → PersistedChange → Action
  plain_action index c = record {
    index = pos index;
    change = c;
    state = pending;
    backup_path = [];
    backup_sha256 = [];
    backup_mode = 0;
  }

  -- The branch for a change that needs a backup.
  unfoldable pub stage_backup : Bytes → ℕ → PersistedChange → Op Action
  stage_backup bundle_dir index c = do
    change ← check (λ d. elim (restore_change hash c) [ ok c ↦ ok c | err e ↦ err backup_failed ])
    target ← check (λ d. target_for_change d change.path)
    (content, mode) ← read_regular_bounded target
    refuse_when (hash content /= c.before_sha256) backup_failed
    let backup_path = codes "backups/" ++ (decimal_four index ++ codes ".bak")
    write_exclusive_synced (bundle_dir ++ (b'/' ∷ backup_path)) content 0o600
    pure (record (plain_action index c) {
      backup_path = backup_path;
      backup_sha256 = hash content;
      backup_mode = mode % 2 ^ 9;
    })

  unfoldable pub stage_actions : Bytes → ℕ → List PersistedChange → Op (List Action)
  stage_actions bundle_dir index [] = pure []
  stage_actions bundle_dir index (c ∷ changes) = do
    action ←
        (if needs_backup c.kind
          then stage_backup bundle_dir index c
          else pure (plain_action index c))
    actions ← stage_actions bundle_dir (suc index) changes
    pure (action ∷ actions)

  -- Two directories of a new namespace are there with the bundle.
  abbrev is_bootstrapped : PersistedChange → Bool
  is_bootstrapped c = elim c.kind [
    | create_dir ↦ c.path == codes ".uawp" || c.path == codes ".uawp/recovery"
    | _ ↦ false
  ]

  unfoldable pub mark_bootstrapped : List Action → List Action
  mark_bootstrapped [] = []
  mark_bootstrapped (a ∷ actions) =
      let rest = mark_bootstrapped actions in
      if is_bootstrapped a.change then record a { state = verified } ∷ rest else a ∷ rest

  abbrev pub pointer_for : Plan → Bytes → LivePointer
  pointer_for value id = record {
    schema_version = codes "1";
    transaction_id = id;
    operation = value.operation;
    plan_id = value.id;
    workspace = env.root;
    phase = applying;
  }

  abbrev pub journal_for : Plan → Options → Bytes → List Action → Journal
  journal_for value options id actions = record {
    schema_version = codes "1";
    transaction_id = id;
    operation = value.operation;
    plan_id = value.id;
    workspace = env.root;
    phase = applying;
    started_at = options.started_at;
    actions = actions;
  }

  unfoldable pub recovery_root_found : Bytes → Option Node → Op (Unit {0})
  recovery_root_found recovery_root none = create recovery_root directory
  recovery_root_found recovery_root (some directory) = pure tt
  recovery_root_found recovery_root other = fail unsafe_recovery_root

  -- From the directories to the pointer, below the storage namespace.
  unfoldable pub write_bundle : Plan → Options → Bytes → Bool → Op Journal
  unfolding recovery_root_found
  write_bundle value options storage bootstrap = do
    let id = transaction_id value options
    let recovery_root = storage ++ codes "/recovery"
    let bundle_dir = recovery_root ++ (b'/' ∷ id)
    let plan = persisted value
    n ← lstat recovery_root
    recovery_root_found recovery_root n
    create bundle_dir directory
    create (bundle_dir ++ codes "/backups") directory
    plan_text ← encoded (encode_plan env.platform env.marshal plan)
    write_exclusive_synced (bundle_dir ++ codes "/plan.json") plan_text 0o600
    failpoint options after_plan_sync (negsuc 0)
    staged ← stage_actions bundle_dir 0 plan.changes
    failpoint options after_backup_sync (negsuc 0)
    let actions = if bootstrap then mark_bootstrapped staged else staged
    let journal = journal_for value options id actions
    journal_text ← encoded (encode_journal env.platform env.marshal journal)
    write_exclusive_synced (bundle_dir ++ codes "/journal.json") journal_text 0o600
    pointer_text ← encoded (encode_pointer env.platform env.marshal (pointer_for value id))
    write_exclusive_synced (storage ++ codes "/RECOVERY.json") pointer_text 0o600
    pure journal

  abbrev pub prepared : Plan → Options → Bool → Journal → DurableTransaction
  prepared value options bootstrap journal = record {
    id = transaction_id value options;
    namespace = namespace_path;
    bundle_dir = namespace_path ++ codes "/recovery/" ++ transaction_id value options;
    journal = journal;
    bootstrap = bootstrap;
    metadata = value.metadata;
  }

  unfoldable pub prepare_in_namespace : Plan → Options → Op DurableTransaction
  prepare_in_namespace value options = do
    let bundle_dir = namespace_path ++ (codes "/recovery" ++ (b'/' ∷ transaction_id value options))
    journal ← on_error (write_bundle value options namespace_path false) (remove_all bundle_dir)
    failpoint options after_pointer_sync (negsuc 0)
    pure (prepared value options false journal)

  -- A new namespace is built aside and renamed into its place with the bundle in it.
  unfoldable pub prepare_bootstrap : Plan → Options → Op DurableTransaction
  prepare_bootstrap value options = do
    let storage = codes ".uawp-bootstrap-" ++ transaction_id value options
    create storage directory
    journal ←
        on_error
          (do
            journal ← write_bundle value options storage true
            failpoint options before_bootstrap_rename (negsuc 0)
            n ← lstat namespace_path
            refuse_when (elim n [ none ↦ false | some found ↦ true ]) namespace_appeared
            modify (rename_tree storage namespace_path)
            pure journal)
          (remove_all storage)
    failpoint options after_pointer_sync (negsuc 0)
    pure (prepared value options true journal)

  unfoldable pub prepare_at : Plan → Options → Option Node → Op DurableTransaction
  prepare_at value options none = prepare_bootstrap value options
  prepare_at value options (some found) = prepare_in_namespace value options

  unfoldable pub prepare_durable_transaction : Plan → Options → Op DurableTransaction
  unfolding prepare_at
  prepare_durable_transaction value options = do
    failpoint options before_bundle (negsuc 0)
    n ← lstat namespace_path
    prepare_at value options n

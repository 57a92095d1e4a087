-- ===== src/Workspace/Snapshot.antt =====
-- internal/workspace/transaction_recovery.go: what a workspace shows of an interrupted transaction.
-- A link that cannot be read through counts as leading nowhere.
use uawp.Base.{
  ℕ, suc, ◌%◌, ◌^◌, true, false, ◌&&◌, Option, none, some, List, [], ◌∷◌, ◌++◌, ◌==◌, ◌/=◌,
  bytes_eq, nat_eq, if◌then◌else◌, ltb, leb, Result, ok, err, ◌>>=◌, ◌>>◌, refuse_if, length, drop,
  Bytes, codes, is_empty, has_prefix,
}
use uawp.Plan.Change.{PersistedChange, restore_change, missing_sha256}
use uawp.Plan.Persist.{Input, PersistedPlan}
use uawp.Transaction.Record.{Action, Bundle, Journal, LivePointer, Receipt, Platform}
use uawp.Transaction.Validate.{validate_bundle}
use uawp.Transaction.Classify.{
  PathState, BackupState, Observation, path_missing, path_file, path_directory, path_unsafe,
  classify, Report,
}
use uawp.Transaction.Codec.{
  Unmarshal, CodecError, max_record_bytes, decode_pointer, decode_journal, decode_plan,
  decode_receipt,
}
use uawp.Workspace.Disk.{Node, file, directory, symlink, Disk, lookup, read_node}
use uawp.Workspace.Op.{ApplyError, not_found, bad_record, wrong_workspace, bad_evidence}
use uawp.Workspace.Boundary.{target_for_change, resolve_uawp, resolve_native}

pub record TransactionSnapshot : Type 0 where
  pub bundle : Bundle
  pub observation : Observation
  pub journal_hash : Bytes
  pub bundle_dir : Bytes

unfoldable pub observe_recovery_path : (Bytes → Bytes) → Option Node → PathState
observe_recovery_path hash_bytes none = record { kind = path_missing; sha256 = [] }
observe_recovery_path hash_bytes (some directory) = record { kind = path_directory; sha256 = [] }
observe_recovery_path hash_bytes (some (file content mode)) =
    if ltb max_record_bytes (length content)
    then record { kind = path_unsafe; sha256 = [] }
    else record { kind = path_file; sha256 = hash_bytes content }
observe_recovery_path hash_bytes other = record { kind = path_unsafe; sha256 = [] }

unfoldable pub logical_target : Disk → Bytes → Result ApplyError Bytes
logical_target d logical =
    if logical == codes ".uawp"
    then ok (codes ".uawp")
    else if ltb 6 (length logical) && has_prefix logical (codes ".uawp/")
    then resolve_uawp d (drop 6 logical)
    else resolve_native d logical

-- What the map holds for an input's state.
abbrev input_text : PathState → Bytes
input_text s = elim s.kind [
  | path_missing ↦ missing_sha256
  | path_file ↦ s.sha256
  | path_directory ↦ codes "UNSAFE"
  | path_unsafe ↦ codes "UNSAFE"
]

abbrev pub no_observation : Observation
no_observation = record { paths = λ p. none; inputs = λ p. none; backups = λ i. none }

abbrev with_path : Bytes → PathState → Observation → Observation
with_path p s o = record o { paths = λ q. if p == q then some s else o.paths q }

abbrev with_input : Bytes → Bytes → Observation → Observation
with_input p s o = record o { inputs = λ q. if p == q then some s else o.inputs q }

abbrev with_backup : ℕ → BackupState → Observation → Observation
with_backup i s o = record o { backups = λ j. if i == j then some s else o.backups j }

abbrev pub opened :
    {A : Type 0} → Option Bytes → (Bytes → Result CodecError A) → Result ApplyError A
opened none decode = err not_found
opened (some text) decode = elim (decode text) [ ok a ↦ ok a | err e ↦ err bad_record ]

module _ (platform : Platform) where
  -- The mode is that of the file that holds the backup.
  unfoldable pub observe_backup : Action → Option Node → BackupState
  observe_backup a (some (file content mode)) =
      if leb (length content) max_record_bytes
      then record {
        valid = platform.hash_bytes content == a.backup_sha256 && mode % 2 ^ 9 == a.backup_mode;
        sha256 = platform.hash_bytes content;
        mode = mode % 2 ^ 9;
        content = content;
      }
      else record { valid = false; sha256 = platform.hash_bytes []; mode = 0; content = [] }
  observe_backup a other = record {
    valid = false;
    sha256 = platform.hash_bytes [];
    mode = 0;
    content = [];
  }

  -- The path of the restored change; a change that is not restored is empty.
  abbrev restored_path : PersistedChange → Bytes
  restored_path c = elim (restore_change platform.hash_bytes c) [ ok r ↦ r.path | err e ↦ [] ]

  abbrev observe_action : Disk → Bytes → ℕ → Action → Bytes → Observation → Observation
  observe_action d bundle_dir index a target o =
      let p =
        with_path a.change.path (observe_recovery_path platform.hash_bytes (lookup d target)) o in
      if is_empty a.backup_path
      then p
      else with_backup index (observe_backup a (lookup d (bundle_dir ++ (b'/' ∷ a.backup_path)))) p

  unfoldable pub observe_actions :
      Disk → Bytes → ℕ → List Action → Observation → Result ApplyError Observation
  observe_actions d bundle_dir index [] o = ok o
  observe_actions d bundle_dir index (a ∷ actions) o = do
    target ← target_for_change d (restored_path a.change)
    observe_actions d bundle_dir (suc index) actions (observe_action d bundle_dir index a target o)

  abbrev observe_input : Disk → Input → Observation → Result ApplyError Observation
  observe_input d i o = elim (o.paths i.path) [
    | some state ↦ ok o
    | none ↦ do
      target ← logical_target d i.path
      ok (
          with_input i.path
            (input_text (observe_recovery_path platform.hash_bytes (lookup d target))) o)
  ]

  unfoldable pub observe_inputs : Disk → List Input → Observation → Result ApplyError Observation
  observe_inputs d [] o = ok o
  observe_inputs d (i ∷ inputs) o = do o ← observe_input d i o; observe_inputs d inputs o

  module _ (unmarshal : Unmarshal) where
    abbrev load_receipt : Option Node → Result ApplyError (Option Receipt)
    load_receipt none = ok none
    load_receipt (some (symlink none)) = ok none
    load_receipt (some n) = do
      r ← opened (read_node (some n)) (decode_receipt platform unmarshal)
      ok (some r)

    abbrev bundle_of : LivePointer → Journal → PersistedPlan → Option Receipt → Bundle
    bundle_of pointer journal plan receipt = record {
      pointer = pointer;
      journal = journal;
      plan = plan;
      receipt = receipt;
    }

    abbrev snapshot_of : Bundle → Observation → Bytes → Bytes → TransactionSnapshot
    snapshot_of bundle o raw bundle_dir = record {
      bundle = bundle;
      observation = o;
      journal_hash = platform.hash_bytes raw;
      bundle_dir = bundle_dir;
    }

    unfoldable pub load_bundle : Disk → Bytes → LivePointer → Result ApplyError (Bundle × Bytes)
    load_bundle d bundle_dir pointer = do
      raw ← elim (read_node (lookup d (bundle_dir ++ codes "/journal.json"))) [
        | none ↦ err not_found
        | some text ↦ ok text
      ]
      journal ← opened (some raw) (decode_journal platform unmarshal)
      plan ←
          opened (read_node (lookup d (bundle_dir ++ codes "/plan.json")))
            (decode_plan platform unmarshal)
      receipt ← load_receipt (lookup d (bundle_dir ++ codes "/receipt.json"))
      let bundle = bundle_of pointer journal plan receipt
      refuse_if (elim (validate_bundle platform bundle) [ ok x ↦ false | err e ↦ true ])
          bad_evidence
      ok (bundle, raw)

    -- The bundle with what the workspace shows for it.
    unfoldable pub load_from : Disk → Bytes → LivePointer → Result ApplyError TransactionSnapshot
    load_from d bundle_dir pointer = do
      (bundle, raw) ← load_bundle d bundle_dir pointer
      actions ← observe_actions d bundle_dir 0 bundle.journal.actions no_observation
      o ← observe_inputs d bundle.plan.inputs actions
      ok (snapshot_of bundle o raw bundle_dir)

    unfoldable pub load_transaction_snapshot : Bytes → Disk → Result ApplyError TransactionSnapshot
    load_transaction_snapshot root d = do
      pointer ←
          opened (read_node (lookup d (codes ".uawp/RECOVERY.json")))
            (decode_pointer platform unmarshal)
      refuse_if (pointer.workspace /= root) wrong_workspace
      bundle_dir ← resolve_uawp d (codes "recovery/" ++ pointer.transaction_id)
      load_from d bundle_dir pointer

    unfoldable pub transaction_status : Bytes → Disk → Result ApplyError Report
    transaction_status root d = do
      s ← load_transaction_snapshot root d
      ok (classify platform s.bundle s.observation)

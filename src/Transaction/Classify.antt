-- ===== src/Transaction/Classify.antt =====
-- internal/transaction/classify.go: what the live workspace allows for an interrupted transaction.
pub mod Laws
use uawp.Base.{
  ℕ, suc, Bool, true, false, ◌&&◌, ◌||◌, not, Option, none, some, List, [], ◌∷◌, ◌++◌, ◌==◌, ◌/=◌,
  nat_eq, if◌then◌else◌, Result, ok, err, contains, length, Eq, Bytes, codes, bytes_eq,
}
use uawp.Plan.Change.{
  ChangeKind, create_dir, create_file, update_file, delete_file, delete_dir, unsupported,
  PersistedChange,
}
use uawp.Plan.Persist.{Input}
use uawp.Transaction.Record.{Action, Bundle, Platform}
use uawp.Transaction.Validate.{needs_backup, validate_bundle}

pub data Classification : Type 0 where
  rollback_available continue_available both_available manual_required : Classification
  transaction_complete : Classification

pub data PathKind : Type 0 where
  path_missing path_file path_directory path_unsafe : PathKind

pub record PathState : Type 0 where
  pub kind : PathKind
  pub sha256 : Bytes

pub record BackupState : Type 0 where
  pub valid : Bool
  pub sha256 : Bytes
  pub mode : ℕ
  pub content : Bytes

-- The three maps, as functions of their keys.
pub record Observation : Type 0 where
  pub paths : Bytes → Option PathState
  pub inputs : Bytes → Option Bytes
  pub backups : ℕ → Option BackupState

pub record Evidence : Type 0 where
  pub path : Bytes
  pub observed : Bytes
  pub before : Bool
  pub after : Bool
  pub backup : Bool

pub record Report : Type 0 where
  pub classification : Classification
  pub evidence : List Evidence

abbrev is_missing : PathKind → Bool
is_missing path_missing = true
is_missing _ = false

abbrev is_file : PathKind → Bool
is_file path_file = true
is_file _ = false

abbrev is_directory : PathKind → Bool
is_directory path_directory = true
is_directory _ = false

unfoldable pub matches_before : PersistedChange → PathState → Bool
matches_before change live = elim change.kind [
  | create_dir ↦ is_missing live.kind
  | create_file ↦ is_missing live.kind
  | update_file ↦ is_file live.kind && live.sha256 == change.before_sha256
  | delete_file ↦ is_file live.kind && live.sha256 == change.before_sha256
  | delete_dir ↦ is_directory live.kind
  | unsupported k ↦ false
]

unfoldable pub matches_after : PersistedChange → PathState → Bool
matches_after change live = elim change.kind [
  | create_dir ↦ is_directory live.kind
  | create_file ↦ is_file live.kind && live.sha256 == change.after_sha256
  | update_file ↦ is_file live.kind && live.sha256 == change.after_sha256
  | delete_file ↦ is_missing live.kind
  | delete_dir ↦ is_missing live.kind
  | unsupported k ↦ false
]

-- A path that was not observed counts as unsafe.
abbrev pub live_state : Observation → Bytes → PathState
live_state o path = elim (o.paths path) [
  | none ↦ record { kind = path_unsafe; sha256 = [] }
  | some live ↦ live
]

-- A missing entry of the map reads as Go's zero value.
abbrev pub backup_state : Observation → ℕ → BackupState
backup_state o index = elim (o.backups index) [
  | none ↦ record { valid = false; sha256 = []; mode = 0; content = [] }
  | some backup ↦ backup
]

unfoldable pub backup_ok : Observation → ℕ → Action → Bool
backup_ok o index action =
    let backup = backup_state o index in
    if needs_backup action.change.kind
    then backup.valid && backup.sha256 == action.backup_sha256 && backup.mode == action.backup_mode
    else true

abbrev kind_text : PathKind → Bytes
kind_text path_missing = codes "MISSING"
kind_text path_file = codes "FILE"
kind_text path_directory = codes "DIRECTORY"
kind_text path_unsafe = codes "UNSAFE"

-- The variables of the loop over the actions.
pub record Scan : Type 0 where
  pub rollback_safe : Bool
  pub continue_safe : Bool
  pub all_after : Bool
  pub paths : List Bytes
  pub evidence : List Evidence

abbrev pub scan_start : Scan
scan_start = record {
  rollback_safe = true;
  continue_safe = true;
  all_after = true;
  paths = [];
  evidence = [];
}

-- The body of the loop.
unfoldable pub scan_action : Observation → ℕ → Action → Scan → Scan
scan_action o index action s =
    let live = live_state o action.change.path in
    let before = matches_before action.change live in
    let after = matches_after action.change live in
    let backup = backup_ok o index action in
    record {
      rollback_safe = s.rollback_safe && (before || after) && backup;
      continue_safe = s.continue_safe && (before || after) && backup;
      all_after = s.all_after && after;
      paths = action.change.path ∷ s.paths;
      evidence =
          s.evidence
          ++ (record {
            path = action.change.path;
            observed = kind_text live.kind ++ (codes ":" ++ live.sha256);
            before = before;
            after = after;
            backup = backup;
          }
              ∷ []);
    }

unfoldable pub scan_actions : Observation → ℕ → List Action → Scan → Scan
scan_actions o index [] s = s
scan_actions o index (a ∷ actions) s = scan_actions o (suc index) actions (scan_action o index a s)

abbrev pub input_ok : Observation → Input → Bool
input_ok o input = elim (o.inputs input.path) [ none ↦ false | some seen ↦ seen == input.sha256 ]

-- The loop over the inputs, which clears both flags at an input that is no action's path.
unfoldable pub scan_inputs : Observation → List Input → Scan → Scan
scan_inputs o [] s = s
scan_inputs o (i ∷ inputs) s = scan_inputs o inputs (
    if contains s.paths i.path || input_ok o i
    then s
    else record s { rollback_safe = false; continue_safe = false })

unfoldable pub verdict : List Action → Scan → Classification
verdict actions s =
    if s.all_after && not (length actions == 0)
    then transaction_complete
    else if s.rollback_safe && s.continue_safe
    then both_available
    else if s.rollback_safe
    then rollback_available
    else if s.continue_safe
    then continue_available
    else manual_required

module _ (platform : Platform) where
  unfoldable pub classify : Bundle → Observation → Report
  classify bundle o = elim (validate_bundle platform bundle) [
    | err e ↦ record { classification = manual_required; evidence = [] }
    | ok u ↦
        let s =
          scan_inputs o bundle.plan.inputs (scan_actions o 0 bundle.journal.actions scan_start) in
        record { classification = verdict bundle.journal.actions s; evidence = s.evidence }
  ]

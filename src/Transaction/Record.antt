-- ===== src/Transaction/Record.antt =====
-- internal/transaction/types.go and classify.go: the journal, the pointer to it, the receipt, and
-- what is observed of the workspace.
use uawp.Base.{ℕ, Bool, ◌&&◌, false, true, Option, List, Bytes, bytes_eq, ◌==◌, nat_eq}
use uawp.Base.Int.{ℤ, int_eq}
use uawp.Plan.Change.{
  Change, PersistedChange, ChangeKind, create_dir, create_file, update_file, delete_file,
  delete_dir, unsupported,
}
use uawp.Plan.Persist.{PersistedPlan, Input, Metadata}

-- `ActionState` is a string; `unknown` stands for every text but the six constants.
pub data ActionState : Type 0 where
  pending in_progress applied verified rolled_back rollback_verified : ActionState
  unknown : Bytes → ActionState

pub data Phase : Type 0 where
  preparing applying recovering : Phase
  unknown : Bytes → Phase

pub record Action : Type 0 where
  pub index : ℤ
  pub change : PersistedChange
  pub state : ActionState
  pub backup_path : Bytes
  pub backup_sha256 : Bytes
  pub backup_mode : ℕ

pub record Journal : Type 0 where
  pub schema_version : Bytes
  pub transaction_id : Bytes
  pub operation : Bytes
  pub plan_id : Bytes
  pub workspace : Bytes
  pub phase : Phase
  pub started_at : Bytes
  pub actions : List Action

pub record LivePointer : Type 0 where
  pub schema_version : Bytes
  pub transaction_id : Bytes
  pub operation : Bytes
  pub plan_id : Bytes
  pub workspace : Bytes
  pub phase : Phase

pub data Outcome : Type 0 where
  completed undone : Outcome
  unknown : Bytes → Outcome

pub record Receipt : Type 0 where
  pub schema_version : Bytes
  pub transaction_id : Bytes
  pub operation : Bytes
  pub plan_id : Bytes
  pub completed_at : Bytes
  pub result : Outcome
  pub hashes : List (Bytes × Bytes)

pub record Bundle : Type 0 where
  pub pointer : LivePointer
  pub journal : Journal
  pub plan : PersistedPlan
  pub receipt : Option Receipt

-- What the code calls and does not define: SHA-256 in hexadecimal, the JSON encoding of a plan, and
-- whether time.Parse reads a text as RFC 3339.
pub record Platform : Type 0 where
  pub hash_bytes : Bytes → Bytes
  pub marshal : Bytes → Bytes → List Change → List Input → Metadata → Bytes
  pub is_rfc3339 : Bytes → Bool

abbrev pub kind_beq : ChangeKind → ChangeKind → Bool
kind_beq create_dir create_dir = true
kind_beq create_file create_file = true
kind_beq update_file update_file = true
kind_beq delete_file delete_file = true
kind_beq delete_dir delete_dir = true
kind_beq (unsupported a) (unsupported b) = a == b
kind_beq _ _ = false

-- reflect.DeepEqual on two stored changes.
unfoldable pub change_beq : PersistedChange → PersistedChange → Bool
change_beq a b =
    kind_beq a.kind b.kind
    && a.path == b.path
    && a.before_sha256 == b.before_sha256
    && a.after_sha256 == b.after_sha256
    && a.mode == b.mode
    && a.size == b.size
    && a.sequence == b.sequence
    && a.content == b.content

abbrev pub phase_beq : Phase → Phase → Bool
phase_beq preparing preparing = true
phase_beq applying applying = true
phase_beq recovering recovering = true
phase_beq (unknown a) (unknown b) = a == b
phase_beq _ _ = false

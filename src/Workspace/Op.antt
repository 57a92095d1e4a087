-- ===== src/Workspace/Op.antt =====
-- An operation on the disk: it returns a value or an error, and the disk as it leaves it. What was
-- written before an error stays written. The calls of package os that the workspace code makes fail
-- here where the state of the disk makes them fail; a full or broken disk is not modelled.
pub mod Triple
use uawp.Base.{
  ◌≡◌, refl, Bool, true, false, ◌&&◌, ◌||◌, not, Option, none, some, List, [], ◌∷◌, if◌then◌else◌,
  Result, ok, err, Bytes,
}
use uawp.Transaction.Recovery.{RecoveryError}
use uawp.Workspace.Disk.{
  Node, file, directory, Disk, lookup, set, unset, is_directory, has_parent, has_children,
}

-- The places where a stage of an application can be made to fail.
pub data Stage : Type 0 where
  before_bundle after_plan_sync after_backup_sync before_bootstrap_rename after_pointer_sync : Stage
  before_action before_publish temp_write before_rename before_update after_publish : Stage
  after_action_verify after_receipt_sync after_pointer_clear : Stage

pub data ApplyError : Type 0 where
  approval_required wrong_workspace unsafe_namespace : ApplyError
  recovery_required purge_recovery_required : ApplyError
  input_drift before_drift after_mismatch update_drift : ApplyError
  stopped : Stage → ApplyError
  invalid_path unsafe_ancestor unsupported_kind : ApplyError
  exists_already not_found no_parent not_empty : ApplyError
  unsafe_recovery_root backup_failed bad_record bad_transition namespace_appeared : ApplyError
  bad_receipt_path receipt_collision : ApplyError
  evidence_changed bad_evidence missing_actor : ApplyError
  no_changes : RecoveryError → ApplyError

abbrev pub Op : Type 0 → Type 0
Op A = Disk → Result ApplyError A × Disk

module _ {A : Type 0} where
  unfoldable pub pure : A → Op A
  pure a d = (ok a, d)

  unfoldable pub fail : ApplyError → Op A
  fail e d = (err e, d)

  -- A result that the disk decides and that leaves it as it is.
  unfoldable pub check : (Disk → Result ApplyError A) → Op A
  check f d = (f d, d)

  -- What a deferred call does to the disk after the operation, on every return.
  unfoldable pub after : Op A → (Disk → Disk) → Op A
  after m f d = let (r, d') = m d in (r, f d')

  -- What is undone where the operation fails.
  unfoldable pub on_error : Op A → (Disk → Disk) → Op A
  on_error m f d = let (r, d') = m d in (r, elim r [ ok a ↦ d' | err e ↦ f d' ])

module _ {A B : Type 0} where
  abbrev pub continue : Result ApplyError A → (A → Op B) → Op B
  continue (ok a) f d = f a d
  continue (err e) f d = (err e, d)

  infixl 5 ◌>>=◌ ◌>>◌
  unfoldable pub ◌>>=◌ : Op A → (A → Op B) → Op B
  ◌>>=◌ m f d = let (r, d') = m d in continue r f d'

  abbrev pub ◌>>◌ : Op A → Op B → Op B
  m >> n = m >>= λ _. n

unfoldable pub modify : (Disk → Disk) → Op (Unit {0})
modify f d = (ok tt, f d)

unfoldable pub refuse_when : Bool → ApplyError → Op (Unit {0})
refuse_when b e d = (if b then err e else ok tt, d)

-- os.Lstat
unfoldable pub lstat : Bytes → Op (Option Node)
lstat p d = (ok (lookup d p), d)

-- A new node at a path where nothing stands: os.Mkdir, os.OpenFile with O_EXCL, os.Link.
unfoldable pub create : Bytes → Node → Op (Unit {0})
create p n d =
    if not (has_parent d p)
    then (err no_parent, d)
    else elim (lookup d p) [ some old ↦ (err exists_already, d) | none ↦ (ok tt, set d p n) ]

-- os.Rename of a new file over the target, which may be there, but no directory.
unfoldable pub replace : Bytes → Node → Op (Unit {0})
replace p n d =
    if not (has_parent d p)
    then (err no_parent, d)
    else if is_directory (lookup d p)
    then (err exists_already, d)
    else (ok tt, set d p n)

-- os.Remove
unfoldable pub remove : Bytes → Op (Unit {0})
remove p d = elim (lookup d p) [
  | none ↦ (err not_found, d)
  | some n ↦ if has_children d p then (err not_empty, d) else (ok tt, unset d p)
]

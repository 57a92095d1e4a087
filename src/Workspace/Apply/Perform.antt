-- ===== src/Workspace/Apply/Perform.antt =====
-- internal/workspace/apply.go: one change is made on the disk. The temporary file that is written
-- first is gone on every return, and is left out.
use uawp.Base.{ℕ, Bool, not, bytes_eq, if◌then◌else◌, ok, Bytes, err}
use uawp.Base.Int.{ℤ}
use uawp.Plan.Change.{
  create_dir, create_file, update_file, delete_file, delete_dir, unsupported, Change,
}
use uawp.Workspace.Disk.{file, directory, has_parent}
use uawp.Workspace.Op.{
  Op, Stage, temp_write, before_rename, before_update, stopped, no_parent, update_drift,
  unsupported_kind, fail, lstat, refuse_when, check, create, replace, remove, ◌>>=◌, ◌>>◌,
}
use uawp.Workspace.Verify.{reads_as}

-- `ApplyOptions`: the failpoint tells at which stage and index it returns an error. The clock is
-- read at the start, for the migration receipt and for the receipt.
pub record Options : Type 0 where
  pub approved_plan_id : Bytes
  pub fails : Stage → ℤ → Bool
  pub started_at : Bytes
  pub started_nano : Bytes
  pub migrated_at : Bytes
  pub completed_at : Bytes

-- `callFailpoint`
abbrev pub failpoint : Options → Stage → ℤ → Op (Unit {0})
failpoint options stage index = refuse_when (options.fails stage index) (stopped stage)

-- os.CreateTemp in the directory of the target.
abbrev create_temporary : Bytes → Op (Unit {0})
create_temporary target = check (λ d. if has_parent d target then ok tt else err no_parent)

abbrev pub write_exclusive_synced : Bytes → Bytes → ℕ → Op (Unit {0})
write_exclusive_synced target content mode = create target (file content mode)

abbrev pub write_replace_atomic : Bytes → Bytes → ℕ → Op (Unit {0})
write_replace_atomic target content mode = replace target (file content mode)

unfoldable pub write_atomic : Options → Bytes → Bytes → ℕ → ℤ → Op (Unit {0})
write_atomic options target content mode index = do
  create_temporary target
  failpoint options temp_write index
  failpoint options before_rename index
  create target (file content mode)

module _ (hash_bytes : Bytes → Bytes) where
  -- The hard link that is made as a backup and removed on return is left out.
  unfoldable pub write_update : Options → Bytes → Bytes → Bytes → ℕ → ℤ → Op (Unit {0})
  write_update options target before content mode index = do
    create_temporary target
    failpoint options before_update index
    current ← lstat target
    refuse_when (not (reads_as hash_bytes current before)) update_drift
    replace target (file content mode)

  -- The switch on the kind of the change.
  unfoldable pub perform : Options → ℤ → Change → Bytes → Op (Unit {0})
  perform options index c target = elim c.kind [
    | create_dir ↦ create target directory
    | create_file ↦ write_atomic options target c.content c.mode index
    | update_file ↦ write_update options target c.before_sha256 c.content c.mode index
    | delete_file ↦ remove target
    | delete_dir ↦ remove target
    | unsupported k ↦ fail unsupported_kind
  ]

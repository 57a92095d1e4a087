-- ===== src/Workspace/Verify.antt =====
-- internal/workspace/apply.go: the checks of the disk before and after a plan is applied.
pub mod Laws
use uawp.Base.{
  Bool, true, false, ◌&&◌, not, Option, none, some, List, [], ◌∷◌, ◌==◌, bytes_eq, if◌then◌else◌,
  Result, ok, ◌>>=◌, ◌>>◌, refuse_if, contains, Bytes,
}
use uawp.Base.FilePath.{clean}
use uawp.Plan.Change.{
  create_dir, create_file, update_file, delete_file, delete_dir, unsupported, Change,
  missing_sha256, directory_sha256,
}
use uawp.Plan.Persist.{Input}
use uawp.Workspace.Disk.{Node, Disk, lookup, is_directory, is_regular, read_node}
use uawp.Workspace.Op.{ApplyError, input_drift, before_drift, after_mismatch}
use uawp.Workspace.Boundary.{target_for_change}

module _ (hash_bytes : Bytes → Bytes) where
  -- What is at the path can be read and has the hash.
  abbrev pub reads_as : Option Node → Bytes → Bool
  reads_as n hash = elim (read_node n) [ none ↦ false | some content ↦ hash_bytes content == hash ]

  -- The body of the loop of `verifyInputs`.
  unfoldable pub input_unchanged : Disk → Input → Bool
  input_unchanged d i =
      let n = lookup d (clean i.path) in
      if i.sha256 == missing_sha256
      then (elim n [ none ↦ true | some found ↦ false ])
      else if i.sha256 == directory_sha256
      then is_directory n
      else is_regular n && reads_as n i.sha256

  unfoldable pub verify_inputs : List Input → Disk → Result ApplyError (Unit {0})
  verify_inputs [] d = ok tt
  verify_inputs (i ∷ inputs) d = do
    refuse_if (not (input_unchanged d i)) input_drift
    verify_inputs inputs d

  unfoldable pub remaining : List Bytes → List Input → List Input
  remaining skip [] = []
  remaining skip (i ∷ inputs) =
      let rest = remaining skip inputs in if contains skip i.path then rest else i ∷ rest

  unfoldable pub verify_inputs_except :
      List Bytes → List Input → Disk → Result ApplyError (Unit {0})
  verify_inputs_except skip inputs d = verify_inputs (remaining skip inputs) d

  -- The body of the loop of `verifyBeforeState`.
  unfoldable pub is_before : Change → Option Node → Bool
  is_before c n =
      if c.before_sha256 == missing_sha256
      then (elim n [ none ↦ true | some found ↦ false ])
      else reads_as n c.before_sha256

  unfoldable pub verify_before_state : List Change → Disk → Result ApplyError (Unit {0})
  verify_before_state [] d = ok tt
  verify_before_state (c ∷ changes) d = do
    target ← target_for_change d c.path
    refuse_if (not (is_before c (lookup d target))) before_drift
    verify_before_state changes d

  -- The body of the loop of `verifyAfterState`.
  unfoldable pub is_after : Change → Option Node → Bool
  is_after c n = elim c.kind [
    | delete_file ↦ elim n [ none ↦ true | some found ↦ false ]
    | delete_dir ↦ elim n [ none ↦ true | some found ↦ false ]
    | create_dir ↦ is_directory n
    | create_file ↦ reads_as n c.after_sha256
    | update_file ↦ reads_as n c.after_sha256
    | unsupported k ↦ reads_as n c.after_sha256
  ]

  unfoldable pub verify_after_state : List Change → Disk → Result ApplyError (Unit {0})
  verify_after_state [] d = ok tt
  verify_after_state (c ∷ changes) d = do
    target ← target_for_change d c.path
    refuse_if (not (is_after c (lookup d target))) after_mismatch
    verify_after_state changes d

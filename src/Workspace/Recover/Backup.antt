-- ===== src/Workspace/Recover/Backup.antt =====
-- The backup that an application stages, as a recovery reads it.
use uawp.Base.{
  inl, inr, ◌≡◌, ◌↔◌, refl, true, none, some, Option, ℕ, ◌++◌, ◌∷◌, Bytes, codes, ok, arith, subst,
  length, leb, bytes_eq, nat_eq, bytes_beq_iff, Bool-cases,
}
use uawp.Plan.Change.{PersistedChange}
use uawp.Transaction.Record.{Action}
use uawp.Transaction.Codec.{max_record_bytes}
use uawp.Workspace.Disk.{directory, symlink, special, Node, file, Disk, lookup, lookup-set, set}
use uawp.Workspace.Op.Triple.{
  Triple, Triple-bind, Triple-pure, Triple-create, Post, Keeps, Triple-fail,
}
use uawp.Workspace.Snapshot.{observe_backup}
use uawp.Workspace.Apply.Prepare.{Environment, stage_backup, read_regular_bounded, read_found}
use uawp.Workspace.Apply.Quiet.{Quiet-step, Quiet-check, Quiet-refuse_when, Quiet-lstat, Keeps-step}
use uawp.Base.Number.{decimal_four}

lookup-set_same : (d : Disk) (p : Bytes) (n : Node) → lookup (set d p n) p ≡ some n
lookup-set_same d p n = ground (arith, lookup-set d p p n, (bytes_beq_iff p p).1 refl)

abbrev Fits : Bytes × ℕ → Type 0
Fits r = leb (length r.0) max_record_bytes ≡ true

read_found-Fits : (n : Option Node) → Keeps (λ d. Unit {0}) Fits (read_found n)
unfolding read_found
read_found-Fits none = Triple-fail _ (λ d h. tt)
read_found-Fits (some (file content mode)) =
    elim (Bool-cases (leb (length content) max_record_bytes)) [
      | inl e ↦ rw e (Triple-pure _ (λ d h. (tt, e)))
      | inr e ↦ rw e (Triple-fail _ (λ d h. tt))
    ]
read_found-Fits (some directory) = Triple-fail _ (λ d h. tt)
read_found-Fits (some (symlink found)) = Triple-fail _ (λ d h. tt)
read_found-Fits (some special) = Triple-fail _ (λ d h. tt)

read_regular_bounded-Fits :
    (target : Bytes) → Keeps (λ d. Unit {0}) Fits (read_regular_bounded target)
unfolding read_regular_bounded
read_regular_bounded-Fits target = Quiet-step (Quiet-lstat _) read_found-Fits

module _ (env : Environment) (bundle_dir : Bytes) (index : ℕ) (c : PersistedChange) where
  -- The file that holds the backup has the mode 0600, whatever the mode of the action.
  abbrev IsStaged : Action → Disk → Type 0
  IsStaged a d =
      (content : Bytes) × (lookup d (bundle_dir ++ (b'/' ∷ a.backup_path))
        ≡ some (file content 0o600))
      × (env.platform.hash_bytes content ≡ a.backup_sha256)
      × (leb (length content) max_record_bytes ≡ true)

  stage_backup-IsStaged :
      Triple (λ d. Unit {0}) IsStaged (λ d. Unit {0}) (stage_backup env bundle_dir index c)
  unfolding stage_backup
  stage_backup-IsStaged = Quiet-step (Quiet-check _) (λ change.
      Quiet-step (Quiet-check _) (λ target. Keeps-step (read_regular_bounded-Fits target) (λ r fits.
        Quiet-step (Quiet-refuse_when _ _) (λ _.
          Triple-bind _ _
            (Triple-create
              {Q = λ _ d.
                lookup d (
                  bundle_dir ++ (b'/' ∷ (codes "backups/" ++ (decimal_four index ++ codes ".bak"))))
                ≡ some (file r.0 0o600)}
              _ _ (λ d h e. lookup-set_same d _ _) (λ d h. tt))
            (λ _. Triple-pure _ (λ d h. (r.0, h, refl, fits)))))))

  -- What a recovery sees of the backup is valid exactly where the file that was backed up had the mode
  -- 0600.
  pub stage_backup-valid_iff :
      (d : Disk) (a : Action)
      → (stage_backup env bundle_dir index c d).0 ≡ ok a
      → ((observe_backup env.platform a (
            lookup
              (stage_backup env bundle_dir index c d).1
              (bundle_dir ++ (b'/' ∷ a.backup_path)))).valid
          ≡ true)
        ↔ (a.backup_mode ≡ 0o600)
  unfolding observe_backup
  stage_backup-valid_iff d a e =
      let (content, there, same, fits) = staged d a e in
      rw there (ground (arith, bytes_beq_iff (env.platform.hash_bytes content) a.backup_sha256))
    where
      staged :
          (d : Disk) (a : Action)
          → (stage_backup env bundle_dir index c d).0 ≡ ok a
          → IsStaged a (stage_backup env bundle_dir index c d).1
      staged d a e =
          subst (λ r. Post IsStaged (λ d. Unit {0}) r (stage_backup env bundle_dir index c d).1) e
            (stage_backup-IsStaged.at d tt)

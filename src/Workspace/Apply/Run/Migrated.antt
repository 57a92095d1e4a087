-- ===== src/Workspace/Apply/Run/Migrated.antt =====
-- The path of the migration receipt.
use uawp.Base.{
  ◌≡◌, true, none, some, Option, List, Bytes, codes, ok, arith, subst, sym, ◌∙◌, trim_prefix_lem,
  trim_prefix, has_prefix, bytes_beq_iff,
}
use uawp.Plan.Change.{Change}
use uawp.Workspace.Disk.{Node, Disk, set}
use uawp.Workspace.Boundary.{resolve_uawp}
use uawp.Workspace.Boundary.Laws.{resolve_uawp-target}
use uawp.Workspace.Op.Triple.{Triple-check, Triple-create}
use uawp.Workspace.Apply.Frame.{is_internal}
use uawp.Workspace.Apply.Prepare.{Environment, DurableTransaction}
use uawp.Workspace.Apply.Perform.{Options}
use uawp.Workspace.Apply.Run.{receipt_found, receipt_matches, write_migration_receipt}
use uawp.Workspace.Apply.Quiet.{
  Keeps-guard, Quiet, Quiet-step, Quiet-refuse_when, Quiet-fail, Quiet-lstat, Keeps-step,
}

-- Writing to an internal path keeps the predicate.
abbrev pub KeptBySet : Bytes → (Disk → Type 0) → Type 0
KeptBySet receipt I =
    (d : Disk) (p : Bytes) (n : Node) → is_internal receipt p ≡ true → I d → I (set d p n)

module _ (env : Environment) (options : Options) (receipt : Bytes) {I : Disk → Type 0}
    (kept : KeptBySet receipt I) where
  receipt_matches-Quiet : (content : Bytes) (n : Option Bytes) → Quiet I (receipt_matches content n)
  unfolding receipt_matches
  receipt_matches-Quiet content none = Quiet-fail _
  receipt_matches-Quiet content (some existing) = Quiet-refuse_when _ _

  receipt_found-Quiet :
      (target content : Bytes) (n : Option Node)
      → is_internal receipt target ≡ true
      → Quiet I (receipt_found env options target content n)
  unfolding receipt_found
  receipt_found-Quiet target content none u =
      Triple-create _ _ (λ d h _. kept d target _ u h) (λ d h. h)
  receipt_found-Quiet target content (some found) u = receipt_matches-Quiet content _

  receipt_target-is_internal :
      (d : Disk) (path target : Bytes)
      → path ≡ receipt
      → has_prefix path (codes ".uawp/") ≡ true
      → resolve_uawp d (trim_prefix path (codes ".uawp/")) ≡ ok target
      → is_internal receipt target ≡ true
  unfolding is_internal
  receipt_target-is_internal d path target same u h =
      let whole : target ≡ path =
        (resolve_uawp-target d (trim_prefix path (codes ".uawp/")) target h).0
        ∙ trim_prefix_lem path (codes ".uawp/") u in
      subst (λ q. is_internal receipt q ≡ true) (sym whole)
        (ground (arith, bytes_beq_iff path receipt))

  pub write_migration_receipt-Quiet :
      (t : DurableTransaction) (changes : List Change)
      → t.metadata.migration_receipt_path ≡ receipt
      → Quiet I (write_migration_receipt env options t changes)
  unfolding write_migration_receipt
  write_migration_receipt-Quiet t changes same = Keeps-step (Keeps-guard _ _) (λ _ u.
      Keeps-step
        (Triple-check _
          (λ d target h e. (h, receipt_target-is_internal d _ target same (ground arith) e))
          (λ d h. h))
        (λ target v. Quiet-step (Quiet-lstat _) (λ n. receipt_found-Quiet target _ n v)))

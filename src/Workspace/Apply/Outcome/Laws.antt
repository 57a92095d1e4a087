-- ===== src/Workspace/Apply/Outcome/Laws.antt =====
-- The outcome of a whole application.
use uawp.Base.{
  Result-cases, [], ◌≡◌, ◌⊎◌, inl, inr, refl, false, none, some, Bytes, ok, err, arith, subst,
  Result, length, ◌==◌, bytes_eq, bytes_beq, bytes_beq_iff, codes, Bool, Option, All,
}
use uawp.Plan.Persist.{Plan}
use uawp.Workspace.Verify.Laws.{
  IsUnchanged, IsUntouched, verify_inputs-IsUnchanged, verify_before_state-IsUntouched,
}
use uawp.Workspace.Disk.{parent_of, Disk, lookup, set, file, lookup-set, directory, has_parent}
use uawp.Workspace.Op.{
  pure, check, modify, fail, ◌>>=◌, after, refuse_when, ◌>>=◌, ApplyError, lstat, create,
}
use uawp.Workspace.Op.Triple.{Post}
use uawp.Workspace.Apply.Frame.{is_internal, IsMade}
use uawp.Workspace.Apply.Prepare.{Environment}
use uawp.Workspace.Apply.Perform.{Options}
use uawp.Workspace.Apply.Run.{
  apply_locked, acquire_transaction_lock, lock_found, locked_unless, ApplyReport, report_for, apply,
  pointer_path, lock_path,
}
use uawp.Workspace.Apply.Run.Complete.{AllAfter, ArePublic}
use uawp.Workspace.Apply.Prepare.Laws.{HasPointer, HasNamespace}
use uawp.Workspace.Apply.Outcome.{
  HasReturned, HasFailed, apply-outcome, acquire_transaction_lock, lock_found, locked_unless,
  modify, fail, is_present, Node,
}
use uawp.Workspace.Verify.{verify_inputs, verify_before_state}

module _ {A : Type 0} (Q : A → Disk → Type 0) (E : Disk → Type 0) where
  post_ok : (r : Result ApplyError A) (a : A) (d : Disk) → r ≡ ok a → Post Q E r d → Q a d
  post_ok r a d e h = subst (λ r. Post Q E r d) e h

  post_err : (r : Result ApplyError A) (e : ApplyError) (d : Disk) → r ≡ err e → Post Q E r d → E d
  post_err r x d e h = subst (λ r. Post Q E r d) e h

  post_either :
      (P : Disk → Type 0) (r : Result ApplyError A) (d : Disk)
      → ((a : A) → Q a d → P d)
      → (E d → P d)
      → Post Q E r d
      → P d
  post_either P (ok a) d kq ke h = kq a h
  post_either P (err e) d kq ke h = ke h

module _ (env : Environment) (options : Options) (value : Plan) (d : Disk) (has : HasNamespace d)
    (public : ArePublic value.metadata.migration_receipt_path value.changes) where
  outcome :
      Post
        (HasReturned env options value d)
        (HasFailed env options value d)
        (apply env options value d).0
        (apply env options value d).1
  outcome = (apply-outcome env options value d has public).at d (λ q u. refl)

  -- In a workspace where .uawp stands, so not in a bootstrap, an application of a plan that
  -- changes no record path (the lock, the pointer, .uawp/recovery or below it, the migration receipt)
  -- leaves each path but the records as it was, or as one of the plan's changes leaves it, with the
  -- content and the mode of the plan, whether it returns or fails.
  pub apply-frame :
      (q : Bytes)
      → is_internal value.metadata.migration_receipt_path q ≡ false
      → (lookup (apply env options value d).1 q ≡ lookup d q)
        ⊎ IsMade value.changes q (lookup (apply env options value d).1 q)
  apply-frame q u =
      post_either (HasReturned env options value d) (HasFailed env options value d)
        (λ e. (lookup e q ≡ lookup d q) ⊎ IsMade value.changes q (lookup e q)) _ _
        (λ report h. h.0.0 q u) (λ h. h.0 q u) outcome

  -- In a workspace where .uawp stands, so not in a bootstrap, an application of a plan that
  -- changes no record path (the lock, the pointer, .uawp/recovery or below it, the migration receipt)
  -- and that returns leaves the path of every change as the plan says, has removed the pointer if it
  -- had anything to do, and reports the plan's paths.
  pub apply_complete :
      (report : ApplyReport)
      → (apply env options value d).0 ≡ ok report
      → AllAfter env.platform.hash_bytes value.changes (apply env options value d).1
        × ((lookup (apply env options value d).1 pointer_path ≡ none) ⊎ (length value.changes ≡ 0))
        × (report ≡ report_for env options value value.changes)
  apply_complete report e = let h = post_ok _ _ _ report _ e outcome in (h.0.1, h.1, h.2)

  -- In a workspace where .uawp stands, so not in a bootstrap, where an application of a plan
  -- that changes no record path (the lock, the pointer, .uawp/recovery or below it, the migration
  -- receipt) fails, the pointer is there for the recovery, or no path but the records has changed, or
  -- every change has been made.
  pub apply-recoverable :
      (e : ApplyError) (q : Bytes)
      → (apply env options value d).0 ≡ err e
      → is_internal value.metadata.migration_receipt_path q ≡ false
      → HasPointer (apply env options value d).1
        ⊎ ((lookup (apply env options value d).1 q ≡ lookup d q)
            ⊎ AllAfter env.platform.hash_bytes value.changes (apply env options value d).1)
  apply-recoverable x q e u = elim (post_err _ _ _ x _ e outcome).1 [
    | inl p ↦ inl p
    | inr (inl same) ↦ inr (inl (same q u))
    | inr (inr made) ↦ inr (inr made)
  ]

not_present : (n : Option Node) → is_present n ≡ false → n ≡ none
not_present n h = ground arith

acquire-ok :
    (allow_pending_purge locked : Bool) (d : Disk)
    → lookup d (codes ".uawp") ≡ some directory
    → (acquire_transaction_lock allow_pending_purge d).0 ≡ ok locked
    → (lookup d lock_path ≡ none)
      × (is_present (lookup d pointer_path) ≡ false)
      × (acquire_transaction_lock allow_pending_purge d
          ≡ (ok locked, set d lock_path (file [] 0o600)))
unfolding acquire_transaction_lock lock_found locked_unless ◌>>=◌ refuse_when lstat create
    has_parent parent_of modify fail bytes_beq pure
acquire-ok allow_pending_purge locked d n h =
    ground (arith, lookup-set d lock_path pointer_path (file [] 0o600))

apply_locked-checked :
    (env : Environment) (options : Options) (value : Plan) (d : Disk) (report : ApplyReport)
    → (apply_locked env options value d).0 ≡ ok report
    → (verify_inputs env.platform.hash_bytes value.inputs d ≡ ok tt)
      × (verify_before_state env.platform.hash_bytes value.changes d ≡ ok tt)
unfolding apply_locked ◌>>=◌ check
apply_locked-checked env options value d report h =
    elim (Result-cases (verify_inputs env.platform.hash_bytes value.inputs d)) [
      | inl (x, e) ↦
          elim (Result-cases (verify_before_state env.platform.hash_bytes value.changes d)) [
            | inl (y, f) ↦ (e, f)
            | inr (y, f) ↦ ground arith
          ]
      | inr (x, e) ↦ ground arith
    ]

-- In a workspace whose .uawp is a directory, so not in a bootstrap, an application that returns was
-- approved for this plan and is in the plan's workspace; no lock and no pointer were there; and with
-- the lock in place there was at the path of every input nothing, a directory or a file of the hash,
-- as the plan's input says, and at the target of every change nothing or what reads as a content of
-- the hash, as the change's before hash says.
pub apply-checked :
    (env : Environment) (options : Options) (value : Plan) (d : Disk) (report : ApplyReport)
    → lookup d (codes ".uawp") ≡ some directory
    → (apply env options value d).0 ≡ ok report
    → (options.approved_plan_id ≡ value.id)
      × (value.workspace ≡ env.root)
      × (lookup d lock_path ≡ none)
      × (lookup d pointer_path ≡ none)
      × All (IsUnchanged env.platform.hash_bytes (set d lock_path (file [] 0o600))) value.inputs
      × All (IsUntouched env.platform.hash_bytes (set d lock_path (file [] 0o600))) value.changes
unfolding apply ◌>>=◌ refuse_when after
apply-checked env options value d report n h =
    elim (Result-cases (acquire_transaction_lock (value.operation == codes "purge-abort") d).0) [
      | inl (locked, e) ↦
          let (l, p, same) = acquire-ok (value.operation == codes "purge-abort") locked d n e in
          let locked_disk = set d lock_path (file [] 0o600) in
          let checked = apply_locked-checked env options value locked_disk report in
          let (approved, here, returned) : (options.approved_plan_id ≡ value.id)
              × (value.workspace ≡ env.root)
              × ((apply_locked env options value locked_disk).0 ≡ ok report) =
            ground (
              arith,
              bytes_beq_iff options.approved_plan_id value.id,
              bytes_beq_iff value.workspace env.root,
            ) in
          let (inputs, before) = checked returned in
          (
            approved,
            here,
            l,
            not_present (lookup d pointer_path) p,
            verify_inputs-IsUnchanged env.platform.hash_bytes locked_disk value.inputs inputs,
            verify_before_state-IsUntouched env.platform.hash_bytes locked_disk value.changes
                before,
          )
      | inr (x, e) ↦ ground arith
    ]

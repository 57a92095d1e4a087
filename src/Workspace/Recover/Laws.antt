-- ===== src/Workspace/Recover/Laws.antt =====
-- What the application of a recovery plan leaves on the disk.
use uawp.Workspace.Apply.Run.Complete.{ArePublic}
use uawp.Workspace.Apply.Prepare.Laws.{HasPointer, lock-is_internal}
use uawp.Workspace.Apply.Frame.{is_internal, IsMade, Follows-IsStable}
use uawp.Base.{
  ◌||◌, ◌/=◌, not, bytes_eq, ◌∙◌, ◌≡◌, ◌⊎◌, inl, refl, true, false, none, [], Bytes, ok, err, arith,
  subst, sym, Result, map,
}
use uawp.Plan.Change.{Change}
use uawp.Plan.Persist.{Plan}
use uawp.Transaction.Codec.{Unmarshal}
use uawp.Workspace.Disk.{Disk, lookup, file}
use uawp.Workspace.Op.{◌>>◌, evidence_changed, Op, refuse_when, create, after, ApplyError}
use uawp.Workspace.Op.Triple.{
  Post, Triple, Triple-bind, Triple-check, Triple-create, Triple-weaken, Triple-after,
}
use uawp.Workspace.Snapshot.{TransactionSnapshot, load_transaction_snapshot}
use uawp.Workspace.Recover.{recover_locked, apply_transaction_recovery, is_known_action, load}
use uawp.Workspace.Apply.Perform.{Options}
use uawp.Workspace.Apply.Prepare.{Environment}
use uawp.Workspace.Apply.Run.{ApplyReport, pointer_path, unlock, lock_path}
use uawp.Workspace.Apply.Quiet.{Quiet-step, Quiet-bind, Quiet-refuse_when}
use uawp.Workspace.Apply.Outcome.Lock.{unlock-Same, unlock_if-pointer}
use uawp.Workspace.Recover.Loaded.{load-bundle_dir}
use uawp.Workspace.Recover.Locked.{
  AllMade, AllMade-IsStable, IsRunning-KeptBySet, IsRecovering, HasRecovered,
  recover_locked-outcome,
}

ok_inj : {A : Type 0} {a b : A} → ◌≡◌ {A = Result ApplyError A} (ok a) (ok b) → a ≡ b
ok_inj h = ground arith

module _ (env : Environment) (unmarshal : Unmarshal) (options : Options) (value : Plan) (d : Disk)
    (s : TransactionSnapshot)
    (loaded : load_transaction_snapshot env.platform unmarshal env.root d ≡ ok s)
    (public : ArePublic s.bundle.plan.metadata.migration_receipt_path value.changes) where
  abbrev Begun : Disk → Type 0
  Begun e = e ≡ d

  abbrev Failed : Disk → Type 0
  Failed = IsRecovering env options value s d

  abbrev Returned : ApplyReport → Disk → Type 0
  Returned = HasRecovered env options value s d

  begun : (e : Disk) → Begun e → Failed e
  begun e same =
      subst Failed (sym same) ((λ q u. inl refl), (load-bundle_dir env unmarshal d s loaded).1)

  unlock-Failed : (e : Disk) → Failed e → Failed (unlock e)
  unlock-Failed e h = (
    Follows-IsStable s.bundle.plan.metadata.migration_receipt_path value.changes d e _
        (unlock-Same _ e) h.0,
    rw (unlock_if-pointer true e) h.1,
  )

  unlock-Returned :
      (report : ApplyReport) (e : Disk) → Returned report e → Returned report (unlock e)
  unlock-Returned report e h = (
    Follows-IsStable s.bundle.plan.metadata.migration_receipt_path value.changes d e _
        (unlock-Same _ e) h.0,
    rw (unlock_if-pointer true e) h.1,
    h.2,
    AllMade-IsStable env.platform.hash_bytes _ value.changes public e _ (unlock-Same _ e) h.3,
  )

  abbrev from_snapshot : TransactionSnapshot → Op ApplyReport
  from_snapshot t = do
    refuse_when
        (value.metadata.transaction_id /= t.bundle.journal.transaction_id
          || value.metadata.journal_sha256 /= t.journal_hash
          || not (is_known_action value.metadata.recovery_action))
        evidence_changed
    create lock_path (file [] 0o600)
    after (recover_locked env options t value) unlock

  from_snapshot-outcome : Triple Begun Returned Failed (from_snapshot s)
  from_snapshot-outcome =
      Triple-weaken _
        (Quiet-step (Quiet-refuse_when _ _) (λ _.
          Quiet-step
            (Triple-create _ _
              (λ e h _. IsRunning-KeptBySet _ value.changes d e lock_path _ (lock-is_internal _) h)
              (λ e h. h))
            (λ _.
              Triple-after _ _
                (recover_locked-outcome env options value s d public _
                  (load-bundle_dir env unmarshal d s loaded).0.1)
                unlock-Returned unlock-Failed)))
        begun (λ report e h. h) (λ e h. h)

  load_same : Triple Begun (λ t e. Begun e × (t ≡ s)) Failed (load env unmarshal)
  load_same =
      Triple-check _
        (λ e t h f. (
          h,
          ok_inj (
              sym (
                subst (λ x. load_transaction_snapshot env.platform unmarshal env.root x ≡ ok t) h f)
              ∙ loaded),
        ))
        begun

  recovery-outcome :
      Triple Begun Returned Failed (apply_transaction_recovery env unmarshal options value)
  unfolding apply_transaction_recovery
  recovery-outcome = Quiet-bind _ _ begun (Quiet-refuse_when _ _) (λ _.
      Triple-bind _ _ load_same (λ t. record {
        at = λ e h.
            (subst (λ x. Triple Begun Returned Failed (from_snapshot x)) (sym h.1)
                from_snapshot-outcome).at
              e h.0;
      }))

  -- Where no change of the recovery plan is at a record path (the lock, the pointer, the recovery
  -- directory or below it, the migration receipt), and the recovery of a loaded transaction fails, the
  -- pointer is there, so that it can be tried again, and each path but the records is as it was, or as
  -- one of the changes of the recovery plan leaves it.
  pub recovery-retryable :
      (e : ApplyError) (q : Bytes)
      → (apply_transaction_recovery env unmarshal options value d).0 ≡ err e
      → is_internal s.bundle.plan.metadata.migration_receipt_path q ≡ false
      → HasPointer (apply_transaction_recovery env unmarshal options value d).1
        × ((lookup (apply_transaction_recovery env unmarshal options value d).1 q ≡ lookup d q)
            ⊎ IsMade value.changes q
                (lookup (apply_transaction_recovery env unmarshal options value d).1 q))
  recovery-retryable x q e u =
      let h =
        subst
          (λ r. Post Returned Failed r (apply_transaction_recovery env unmarshal options value d).1)
          e (recovery-outcome.at d refl) in
      (h.1, h.0 q u)

  -- Where no change of the recovery plan is at a record path (the lock, the pointer, the recovery
  -- directory or below it, the migration receipt), and the recovery of a loaded transaction returns,
  -- every change has been made, in that the path of each change reads as the last change of that path
  -- leaves it; the pointer is gone, the report names the paths of the plan, and each path but the
  -- records is as it was, or as one of the changes leaves it.
  pub recovery_complete :
      (report : ApplyReport) (q : Bytes)
      → (apply_transaction_recovery env unmarshal options value d).0 ≡ ok report
      → is_internal s.bundle.plan.metadata.migration_receipt_path q ≡ false
      → AllMade env.platform.hash_bytes value.changes
          (apply_transaction_recovery env unmarshal options value d).1
        × (lookup (apply_transaction_recovery env unmarshal options value d).1 pointer_path ≡ none)
        × (report.applied_paths ≡ map (λ (c : Change). c.path) value.changes)
        × ((lookup (apply_transaction_recovery env unmarshal options value d).1 q ≡ lookup d q)
            ⊎ IsMade value.changes q
                (lookup (apply_transaction_recovery env unmarshal options value d).1 q))
  recovery_complete report q e u =
      let h =
        subst
          (λ r. Post Returned Failed r (apply_transaction_recovery env unmarshal options value d).1)
          e (recovery-outcome.at d refl) in
      (h.3, h.1, h.2, h.0 q u)

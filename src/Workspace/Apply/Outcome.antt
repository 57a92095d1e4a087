-- ===== src/Workspace/Apply/Outcome.antt =====
-- What an application leaves on the disk, whether it returns or fails, and wherever it fails.
pub mod Lock
pub mod Running
pub mod Laws
use uawp.Base.{
  ◌≡◌, ◌⊎◌, inl, inr, refl, true, false, none, some, Option, List, [], ◌∷◌, All, Bytes, arith,
  subst, sym, bytes_beq, bytes_eq, length, nat_eq, ◌==◌, if◌then◌else◌, ◌++◌, has_prefix, Bool,
  Bool-cases,
}
use uawp.Plan.Change.{Change}
use uawp.Plan.Persist.{Plan}
use uawp.Workspace.Disk.{Node, Disk, lookup, lookup-set, lookup-unset}
use uawp.Workspace.Verify.{verify_after_state}
use uawp.Workspace.Op.{◌>>=◌, ◌>>◌, Op, pure, check, ApplyError, modify, fail}
use uawp.Workspace.Op.Triple.{
  Triple, Triple-bind, Triple-check, Triple-weaken, Triple-pure, Triple-after, Triple-modify,
}
use uawp.Workspace.Apply.Frame.{
  is_internal, IsMade, Leaves, Same, Same-set, Same-IsStable, Follows, Follows-IsStable,
  set-Follows, unset-Follows, IsStable, Same-unset,
}
use uawp.Workspace.Apply.Prepare.{Environment, DurableTransaction, namespace_path}
use uawp.Workspace.Apply.Perform.{Options}
use uawp.Workspace.Apply.Run.{
  ApplyReport, report_for, apply_changes, pointer_path, is_present, apply_locked, apply_actions,
  unlock, locked_unless, lock_found, apply, acquire_transaction_lock, lock_path, complete,
}
use uawp.Workspace.Apply.Run.Laws.{KeptByRecords, Admits, apply_actions-Keeps}
use uawp.Workspace.Apply.Run.Complete.{
  AllAfter, AllAfter-IsStable, ArePublic, verify_after_state-AllAfter, complete-NoPointer,
}
use uawp.Workspace.Apply.Prepare.Laws.{
  HasPointer, HasNamespace, IsFor, prepare-IsPrepared, bundle-is_internal, recovery_prefix,
}
use uawp.Workspace.Apply.Quiet.{
  Quiet-step, Quiet-bind, Quiet, Quiet-refuse_when, Quiet-pure, Quiet-lstat, Quiet-check,
  Quiet-create, Quiet-fail,
}
use uawp.Workspace.Apply.Outcome.Running.{
  IsRunning, IsRunning-KeptByRecords, all-Admits, Same-Follows,
}
use uawp.Workspace.Apply.Outcome.Lock.{
  unlock_if, unlock_if-pointer, unlock_if-Same, lock_found-Quiet,
}

length-empty : (changes : List Change) → length changes ≡ 0 → changes ≡ []
length-empty [] e = refl
length-empty (c ∷ changes) e = absurd (ground arith)

module _ (env : Environment) (options : Options) (value : Plan) (d0 : Disk) where
  abbrev pub receipt : Bytes
  receipt = value.metadata.migration_receipt_path

  -- Every change is made and compared.
  abbrev pub IsDone : Disk → Type 0
  IsDone d = Follows receipt value.changes d0 d × AllAfter env.platform.hash_bytes value.changes d

  abbrev pub HasFailed : Disk → Type 0
  HasFailed d =
      Follows receipt value.changes d0 d
      × (HasPointer d ⊎ (Same receipt d0 d ⊎ AllAfter env.platform.hash_bytes value.changes d))

  abbrev pub HasReturned : ApplyReport → Disk → Type 0
  HasReturned report d =
      IsDone d
      × (lookup d pointer_path ≡ none ⊎ (length value.changes ≡ 0))
      × (report ≡ report_for env options value value.changes)

  module _ (has : HasNamespace d0) (u : ArePublic receipt value.changes) where
    namespace_kept : (d : Disk) → Same receipt d0 d → HasNamespace d
    unfolding is_internal bytes_beq has_prefix
    namespace_kept d h = subst (λ n. is_present n ≡ true) (sym (h namespace_path refl)) has

    IsDone-IsStable : IsStable receipt IsDone
    IsDone-IsStable d d' same h = (
      Follows-IsStable receipt value.changes d0 d d' same h.0,
      AllAfter-IsStable env.platform.hash_bytes receipt value.changes u d d' same h.1,
    )

    abbrev finish : DurableTransaction → Op ApplyReport
    finish t = do
      check (verify_after_state env.platform.hash_bytes value.changes)
      complete env options t value.changes
      pure (report_for env options value value.changes)

    finish-outcome :
        (t : DurableTransaction)
        → IsFor env options value t
        → Triple (IsRunning receipt value.changes d0) HasReturned HasFailed (finish t)
    finish-outcome t ours =
        Triple-bind _ _
          (Triple-check _
            (λ d a h e.
              (h.0, verify_after_state-AllAfter env.platform.hash_bytes value.changes d e))
            (λ d h. (h.0, inl h.1)))
          (λ _.
            Triple-bind _ _
              (Triple-weaken _
                (complete-NoPointer env options value IsDone-IsStable t value.changes ours)
                (λ d h. h) (λ _ d h. h) (λ d h. (h.0, inr (inr h.1))))
              (λ _. Triple-pure _ (λ d h. (h.0, inl h.1, refl))))

    loop-outcome :
        (t : DurableTransaction)
        → IsFor env options value t
        → Triple
            (IsRunning receipt value.changes d0)
            HasReturned
            HasFailed
            (apply_actions env options value 0 [] t value.changes >>= finish)
    loop-outcome t ours =
        Triple-bind _ _
          (Triple-weaken _
            (apply_actions-Keeps env options value
              (IsRunning-KeptByRecords receipt value.changes d0) 0 [] t value.changes ours
              (all-Admits receipt value.changes d0 value.changes u (λ q n m. m)))
            (λ d h. h) (λ _ d h. h) (λ d h. (h.0, inl h.1)))
          (λ t. record { at = λ d h. (finish-outcome t h.1).at d h.0 })

    failed_before : (d : Disk) → Same receipt d0 d → HasFailed d
    failed_before d h = (Same-Follows receipt value.changes d0 d h, inr (inl h))

    no_changes :
        length value.changes ≡ 0
        → (d : Disk) → Same receipt d0 d
        → HasReturned (report_for env options value []) d
    no_changes e d h = (
      (
        Same-Follows receipt value.changes d0 d h,
        subst (λ cs. AllAfter env.platform.hash_bytes cs d) (sym (length-empty value.changes e)) tt,
      ),
      inr e,
      rw (length-empty value.changes e) refl,
    )

    returned_unlock :
        (locked : Bool) (report : ApplyReport) (d : Disk)
        → HasReturned report d
        → HasReturned report (unlock_if locked d)
    returned_unlock locked report d h = (
      IsDone-IsStable d _ (unlock_if-Same receipt locked d) h.0,
      rw (unlock_if-pointer locked d) h.1,
      h.2,
    )

    failed_unlock : (locked : Bool) (d : Disk) → HasFailed d → HasFailed (unlock_if locked d)
    failed_unlock locked d h = (
      Follows-IsStable receipt value.changes d0 d _ same h.0,
      rw (unlock_if-pointer locked d) (elim h.1 [
        | inl p ↦ inl p
        | inr (inl v) ↦ inr (inl (Same-IsStable receipt d0 d _ same v))
        | inr (inr v) ↦
            inr (inr (AllAfter-IsStable env.platform.hash_bytes receipt value.changes u d _ same v))
      ]),
    )
      where
        same : Same receipt d (unlock_if locked d)
        same = unlock_if-Same receipt locked d

    apply_changes-outcome :
        Triple (Same receipt d0) HasReturned HasFailed (apply_changes env options value)
    unfolding apply_changes
    apply_changes-outcome =
        Triple-bind _ _
          (Triple-weaken _
            (prepare-IsPrepared env receipt (Same-IsStable receipt d0) value options namespace_kept)
            (λ d h. h) (λ _ d h. h) failed_before)
          (λ t. record {
            at =
                λ d h. (loop-outcome t h.2).at d (Same-Follows receipt value.changes d0 d h.0, h.1);
          })

    apply_locked-outcome :
        Triple (Same receipt d0) HasReturned HasFailed (apply_locked env options value)
    unfolding apply_locked
    apply_locked-outcome =
        Quiet-bind _ _ failed_before (Quiet-check _)
          (λ _. Quiet-bind _ _ failed_before (Quiet-check _) (λ _. by_length))
      where
        by_length : Triple (Same receipt d0) HasReturned HasFailed (
            if length value.changes == 0
            then pure (report_for env options value [])
            else apply_changes env options value)
        by_length = elim (Bool-cases (length value.changes == 0)) [
          | inl e ↦ rw e (Triple-pure _ (no_changes (ground arith)))
          | inr e ↦ rw e apply_changes-outcome
        ]

    acquire-Quiet :
        (allow_pending_purge : Bool)
        → Quiet (Same receipt d0) (acquire_transaction_lock allow_pending_purge)
    unfolding acquire_transaction_lock
    acquire-Quiet allow_pending_purge =
        Quiet-step (Quiet-lstat _) (λ n. lock_found-Quiet receipt d0 allow_pending_purge n)

    -- The outcome of a whole application, the lock taken and given back.
    pub apply-outcome : Triple (Same receipt d0) HasReturned HasFailed (apply env options value)
    unfolding apply
    apply-outcome = Quiet-bind _ _ failed_before (Quiet-refuse_when _ _) (λ _.
        Quiet-bind _ _ failed_before (Quiet-refuse_when _ _) (λ _.
          Quiet-bind _ _ failed_before (acquire-Quiet _) (λ locked.
            Triple-after _ _ apply_locked-outcome (returned_unlock locked) (failed_unlock locked))))

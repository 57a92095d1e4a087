-- ===== src/Workspace/Apply/Run/Complete.antt =====
-- The end of an application.
use uawp.Base.{
  bytes_beq, ◌++◌, ◌≡◌, refl, true, false, none, List, [], ◌∷◌, All, Bytes, codes, ok, arith, subst,
  sym, Result-cases, inl, inr,
}
use uawp.Plan.Change.{Change}
use uawp.Plan.Persist.{Plan}
use uawp.Workspace.Disk.{lookup-unset, Disk, lookup, lookup-unset, unset}
use uawp.Workspace.Verify.{is_after, verify_after_state}
use uawp.Workspace.Boundary.{target_for_change}
use uawp.Workspace.Boundary.Laws.{target_for_change_sound}
use uawp.Workspace.Op.Triple.{Triple, Triple-if, Triple-refuse_when, Triple-bind, Triple-remove}
use uawp.Workspace.Apply.Run.Migrated.{write_migration_receipt-Quiet}
use uawp.Workspace.Apply.Frame.{Same-set, is_internal, IsStable, Same-unset}
use uawp.Workspace.Apply.Prepare.{Environment, DurableTransaction}
use uawp.Workspace.Apply.Perform.{Options}
use uawp.Workspace.Apply.Run.{write_migration_receipt, complete, pointer_path}
use uawp.Workspace.Apply.Prepare.Laws.{IsFor, bundle-is_internal, pointer-is_internal}
use uawp.Workspace.Apply.Quiet.{
  Quiet, Quiet-step, Quiet-check, Quiet-refuse_when, Quiet-pure, Quiet-create,
}

-- Every change's path reads as the change leaves it.
abbrev pub AllAfter : (Bytes → Bytes) → List Change → Disk → Type 0
AllAfter hash_bytes changes d = All (λ c. is_after hash_bytes c (lookup d c.path) ≡ true) changes

abbrev pub ArePublic : Bytes → List Change → Type 0
ArePublic receipt changes = All (λ c. is_internal receipt c.path ≡ false) changes

pub AllAfter-IsStable :
    (hash_bytes : Bytes → Bytes) (receipt : Bytes) (changes : List Change)
    → ArePublic receipt changes
    → IsStable receipt (AllAfter hash_bytes changes)
AllAfter-IsStable hash_bytes receipt [] u d d' same h = tt
AllAfter-IsStable hash_bytes receipt (c ∷ changes) u d d' same h = (
  subst (λ n. is_after hash_bytes c n ≡ true) (sym (same c.path u.0)) h.0,
  AllAfter-IsStable hash_bytes receipt changes u.1 d d' same h.1,
)

pub verify_after_state-AllAfter :
    (hash_bytes : Bytes → Bytes) (changes : List Change) (d : Disk)
    → verify_after_state hash_bytes changes d ≡ ok tt
    → AllAfter hash_bytes changes d
unfolding verify_after_state
verify_after_state-AllAfter hash_bytes [] d h = tt
verify_after_state-AllAfter hash_bytes (c ∷ changes) d h =
    elim (Result-cases (target_for_change d c.path)) [
      | inl (target, e) ↦
          let same = (target_for_change_sound d c.path target e).0 in
          let here : is_after hash_bytes c (lookup d target) ≡ true = ground arith in
          (
            subst (λ p. is_after hash_bytes c (lookup d p) ≡ true) same here,
            verify_after_state-AllAfter hash_bytes changes d (ground arith),
          )
      | inr (x, e) ↦ absurd (ground arith)
    ]

pub pointer-unset : (d : Disk) → lookup (unset d pointer_path) pointer_path ≡ none
unfolding bytes_beq
pointer-unset d = ground (arith, lookup-unset d pointer_path pointer_path)

module _ (env : Environment) (options : Options) (value : Plan) {I : Disk → Type 0}
    (stable : IsStable value.metadata.migration_receipt_path I) where
  abbrev receipt : Bytes
  receipt = value.metadata.migration_receipt_path

  migration-Quiet :
      (t : DurableTransaction) (changes : List Change)
      → IsFor env options value t
      → Quiet I (write_migration_receipt env options t changes)
  migration-Quiet t changes ours =
      write_migration_receipt-Quiet env options receipt
        (λ d p n u h. stable d _ (Same-set receipt d p n u) h) t changes (rw ours.metadata refl)

  -- The operation ends with the pointer gone, unless it fails; what does not look at internal paths
  -- is kept.
  pub complete-NoPointer :
      (t : DurableTransaction) (changes : List Change)
      → IsFor env options value t
      → Triple I (λ _ d. I d × (lookup d pointer_path ≡ none)) I (complete env options t changes)
  unfolding complete
  complete-NoPointer t changes ours =
      Quiet-step (Triple-if _ _ _ (Quiet-pure tt) (migration-Quiet t changes ours)) (λ _.
        Quiet-step (Quiet-check _) (λ text.
          Quiet-step
            (Quiet-create receipt stable _ _ (
              subst (λ b. is_internal receipt (b ++ codes "/receipt.json") ≡ true) (sym ours.bundle)
                (bundle-is_internal receipt _)))
            (λ _. Quiet-step (Quiet-refuse_when _ _) (λ _.
              Triple-bind _ _
                (Triple-remove pointer_path
                  (λ d h. (
                    stable d _ (Same-unset receipt d _ (pointer-is_internal receipt)) h,
                    pointer-unset d,
                  ))
                  (λ d h. h))
                (λ _. Triple-refuse_when _ _ (λ d h _. h) (λ d h. h.0))))))

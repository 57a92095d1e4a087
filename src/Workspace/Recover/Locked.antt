-- ===== src/Workspace/Recover/Locked.antt =====
-- What is done under the lock of a recovery.
use uawp.Workspace.Apply.Run.Complete.{verify_after_state-AllAfter, pointer-unset, ArePublic}
use uawp.Workspace.Apply.Frame.{
  IsStable, Same-unset, is_internal, Follows, Follows-IsStable, Same-set,
}
use uawp.Workspace.Disk.{lookup-unset, Node, Disk, lookup, set, lookup-set}
use uawp.Workspace.Verify.{is_after}
use uawp.Workspace.Op.Triple.{
  Triple-check, Triple-weaken, Triple, Triple-bind, Triple-pure, Triple-if, Triple-create,
  Triple-replace, Triple-remove,
}
use uawp.Base.{
  contains, ◌==◌, false, bytes_eq, ◌≡◌, refl, true, none, some, Option, ℕ, suc, List, [], ◌∷◌, ◌++◌,
  All, Bytes, codes, arith, subst, sym, map,
}
use uawp.Workspace.Apply.Prepare.Laws.{
  pointer-is_internal, HasPointer, bundle-is_internal, recovery_prefix,
}
use uawp.Plan.Change.{Change}
use uawp.Plan.Persist.{Plan}
use uawp.Workspace.Op.{remove}
use uawp.Workspace.Snapshot.{TransactionSnapshot}
use uawp.Workspace.Recover.{recover_changes, finalize_migration, write_receipt, recover_locked, pos}
use uawp.Workspace.Apply.Perform.{Options, perform}
use uawp.Workspace.Apply.Prepare.{Environment}
use uawp.Workspace.Apply.Run.{ApplyReport, pointer_path}
use uawp.Workspace.Apply.Run.Laws.{Admits, target-Keeps, perform_as-Quiet}
use uawp.Workspace.Apply.Run.Migrated.{KeptBySet, write_migration_receipt-Quiet}
use uawp.Workspace.Apply.Outcome.Running.{IsRunning, all-Admits}
use uawp.Workspace.Apply.Quiet.{Quiet, Quiet-step, Quiet-check, Quiet-pure, Quiet-lstat, Keeps-step}

-- A node at any path leaves the pointer there.
pointer-kept : (d : Disk) (p : Bytes) (n : Node) → HasPointer d → HasPointer (set d p n)
pointer-kept d p n h = ground (arith, lookup-set d p pointer_path n)

pub IsRunning-KeptBySet :
    (receipt : Bytes) (changes : List Change) (d0 : Disk)
    → KeptBySet receipt (IsRunning receipt changes d0)
IsRunning-KeptBySet receipt changes d0 d p n u h =
    (Follows-IsStable receipt changes d0 d _ (Same-set receipt d p n u) h.0, pointer-kept d p n h.1)

abbrev change_paths : List Change → List Bytes
change_paths [] = []
change_paths (c ∷ changes) = c.path ∷ change_paths changes

-- The path reads as the change leaves it, unless a change of the list is of the same path.
abbrev IsLast : (Bytes → Bytes) → Change → List Change → Disk → Type 0
IsLast hash_bytes c changes d =
    contains (change_paths changes) c.path ≡ false → is_after hash_bytes c (lookup d c.path) ≡ true

-- The path of each change reads as the last change of that path leaves it.
abbrev pub AllMade : (Bytes → Bytes) → List Change → Disk → Type 0
AllMade hash_bytes [] d = Unit
AllMade hash_bytes (c ∷ changes) d = IsLast hash_bytes c changes d × AllMade hash_bytes changes d

pub AllMade-IsStable :
    (hash_bytes : Bytes → Bytes) (receipt : Bytes) (changes : List Change)
    → ArePublic receipt changes
    → IsStable receipt (AllMade hash_bytes changes)
AllMade-IsStable hash_bytes receipt [] u d d' same h = tt
AllMade-IsStable hash_bytes receipt (c ∷ changes) u d d' same h = (
  λ last. subst (λ n. is_after hash_bytes c n ≡ true) (sym (same c.path u.0)) (h.0 last),
  AllMade-IsStable hash_bytes receipt changes u.1 d d' same h.1,
)

module _ (hash_bytes : Bytes → Bytes) (I : Disk → Type 0) (c : Change) (later : List Change) where
  -- Making changes of other paths keeps what a change has made.
  IsLast-Admits :
      (rest : List Change)
      → (contains (change_paths later) c.path ≡ false → contains (change_paths rest) c.path ≡ false)
      → All (Admits I) rest
      → All (Admits (λ d. I d × IsLast hash_bytes c later d)) rest
  IsLast-Admits [] free a = tt
  IsLast-Admits (e ∷ rest) free a = (
    (
      λ d n l h. (
        a.0.0 d n l h.0,
        λ last.
            let other : e.path == c.path ≡ false = ground (arith, free last) in
            rw (lookup-set d e.path c.path n, other) (h.1 last),
      ),
      λ d l h. (
        a.0.1 d l h.0,
        λ last.
            let other : e.path == c.path ≡ false = ground (arith, free last) in
            rw (lookup-unset d e.path c.path, other) (h.1 last),
      ),
    ),
    IsLast-Admits rest (λ last. ground (arith, free last)) a.1,
  )

module _ (env : Environment) (options : Options) where
  recover_changes-AllMade :
      (index : ℕ) (changes : List Change) (I : Disk → Type 0)
      → All (Admits I) changes
      → Triple I
          (λ _ d. I d × AllMade env.platform.hash_bytes changes d)
          I
          (recover_changes env options index changes)
  unfolding recover_changes
  recover_changes-AllMade index [] I a = Triple-pure tt (λ d h. (h, tt))
  recover_changes-AllMade index (c ∷ changes) I a = Keeps-step (target-Keeps c.path) (λ target same.
      Quiet-step
        (subst (λ p. Quiet I (perform env.platform.hash_bytes options (pos index) c p)) (sym same)
          (perform_as-Quiet _ options _ c c.kind refl a.0))
        (λ _.
          Triple-bind _ _
            (Triple-check _
              (λ d x h e.
                (h, λ last. (verify_after_state-AllAfter env.platform.hash_bytes (c ∷ []) d e).0))
              (λ d h. h))
            (λ _.
              Triple-weaken _
                (recover_changes-AllMade (suc index) changes
                  (λ d. I d × IsLast env.platform.hash_bytes c changes d)
                  (IsLast-Admits env.platform.hash_bytes I c changes changes (λ free. free) a.1))
                (λ d h. h) (λ x d h. (h.0.0, (h.0.1, h.1))) (λ d h. h.0))))

module _ (env : Environment) (options : Options) (value : Plan) (s : TransactionSnapshot)
    (d0 : Disk) where
  abbrev receipt : Bytes
  receipt = s.bundle.plan.metadata.migration_receipt_path

  abbrev pub IsRecovering : Disk → Type 0
  IsRecovering = IsRunning receipt value.changes d0

  abbrev IsMadeSo : Disk → Type 0
  IsMadeSo d = IsRecovering d × AllMade env.platform.hash_bytes value.changes d

  abbrev pub HasRecovered : ApplyReport → Disk → Type 0
  HasRecovered report d =
      Follows receipt value.changes d0 d
      × (lookup d pointer_path ≡ none)
      × (report.applied_paths ≡ map (λ (c : Change). c.path) value.changes)
      × AllMade env.platform.hash_bytes value.changes d

  module _ (public : ArePublic receipt value.changes) where
    IsMadeSo-KeptBySet : KeptBySet receipt IsMadeSo
    IsMadeSo-KeptBySet d p n u h = (
      IsRunning-KeptBySet receipt value.changes d0 d p n u h.0,
      AllMade-IsStable env.platform.hash_bytes receipt value.changes public d _
          (Same-set receipt d p n u) h.1,
    )

    finalize_migration-Quiet : Quiet IsMadeSo (finalize_migration env options s)
    unfolding finalize_migration
    finalize_migration-Quiet =
        Quiet-step (Quiet-check _) (λ original.
          write_migration_receipt-Quiet env options receipt IsMadeSo-KeptBySet _ _ refl)

    write_receipt-Quiet :
        (target text : Bytes) (n : Option Node)
        → is_internal receipt target ≡ true
        → Quiet IsMadeSo (write_receipt env options target text n)
    unfolding write_receipt
    write_receipt-Quiet target text none u =
        Triple-create _ _ (λ d h _. IsMadeSo-KeptBySet d target _ u h) (λ d h. h)
    write_receipt-Quiet target text (some found) u =
        Triple-replace _ _ (λ d. IsMadeSo-KeptBySet d target _ u) (λ d h. h)

    remove_pointer :
        Triple IsMadeSo
          (λ _ d.
            Follows receipt value.changes d0 d
            × (lookup d pointer_path ≡ none)
            × AllMade env.platform.hash_bytes value.changes d)
          IsMadeSo
          (remove pointer_path)
    remove_pointer =
        Triple-remove pointer_path
          (λ d h. (
            Follows-IsStable receipt value.changes d0 d _
                (Same-unset receipt d _ (pointer-is_internal receipt)) h.0.0,
            pointer-unset d,
            AllMade-IsStable env.platform.hash_bytes receipt value.changes public d _
                (Same-unset receipt d _ (pointer-is_internal receipt)) h.1,
          ))
          (λ d h. h)

    pub recover_locked-outcome :
        (id : Bytes)
        → s.bundle_dir ≡ recovery_prefix ++ id
        → Triple IsRecovering HasRecovered IsRecovering (recover_locked env options s value)
    unfolding recover_locked
    recover_locked-outcome id here = Quiet-step (Quiet-check _) (λ _.
        Triple-bind _ _
          (recover_changes-AllMade env options 0 value.changes IsRecovering
            (all-Admits receipt value.changes d0 value.changes public (λ q n m. m)))
          (λ _.
            Triple-weaken _
              (Quiet-step (Triple-if _ _ _ finalize_migration-Quiet (Quiet-pure tt)) (λ _.
                Quiet-step (Quiet-check _) (λ text. Quiet-step (Quiet-lstat _) (λ n.
                  Quiet-step
                    (write_receipt-Quiet _ text n (
                      subst (λ b. is_internal receipt (b ++ codes "/receipt.json") ≡ true)
                        (sym here) (bundle-is_internal receipt _)))
                    (λ _.
                      Triple-bind _ _ remove_pointer
                        (λ _. Triple-pure _ (λ d h. (h.0, h.1, refl, h.2))))))))
              (λ d h. h) (λ x d h. h) (λ d h. h.0)))

-- ===== src/Workspace/Apply/Prepare/Laws.antt =====
-- What the preparation in an existing namespace writes.
use uawp.Workspace.Apply.Run.{lock_path, pointer_path, is_present}
use uawp.Workspace.Op.{create, ◌>>=◌, lstat, pure, fail}
use uawp.Base.{
  ◌≡◌, refl, true, ℕ, Option, none, some, ◌++◌, Bytes, codes, has_prefix, bytes_beq, arith, List,
  ◌∷◌, false, suc, [],
}
use uawp.Plan.Change.{PersistedChange}
use uawp.Workspace.Disk.{Node, file, directory, symlink, special, Disk, lookup, set, lookup-set}
use uawp.Workspace.Apply.Frame.{is_internal, IsStable, Same-set, Same-remove_all}
use uawp.Workspace.Apply.Prepare.{
  Environment, stage_backup, read_regular_bounded, read_found, write_bundle, stage_actions,
  recovery_root_found, namespace_path, Options, Plan, DurableTransaction, transaction_id,
  needs_backup, persisted, prepare_in_namespace, prepare_durable_transaction, prepare_at,
}
use uawp.Workspace.Apply.Quiet.{
  Quiet, Quiet-check, Quiet-refuse_when, Quiet-step, Quiet-reads, Quiet-create, Quiet-pure,
  Quiet-fail, Quiet-lstat, Quiet-bind,
}
use uawp.Workspace.Op.Triple.{
  Triple, Triple-if, Triple-bind, Triple-on_error, Triple-create, Triple-pure, Triple-weaken,
}

abbrev pub recovery_prefix : Bytes
recovery_prefix = codes ".uawp/recovery/"

pub bundle-is_internal :
    (receipt tail : Bytes) → is_internal receipt (recovery_prefix ++ tail) ≡ true
unfolding is_internal has_prefix bytes_beq
bundle-is_internal receipt tail = refl

read_regular_bounded-disk : (target : Bytes) (d : Disk) → (read_regular_bounded target d).1 ≡ d
unfolding read_regular_bounded read_found ◌>>=◌ lstat pure fail
read_regular_bounded-disk target d = by_node (lookup d target)
  where
    by_node : (n : Option Node) → (read_found n d).1 ≡ d
    by_node none = refl
    by_node (some (file content mode)) = ground arith
    by_node (some directory) = refl
    by_node (some (symlink found)) = refl
    by_node (some special) = refl

pub lock-is_internal : (receipt : Bytes) → is_internal receipt lock_path ≡ true
unfolding is_internal bytes_beq
lock-is_internal receipt = refl

pub pointer-is_internal : (receipt : Bytes) → is_internal receipt pointer_path ≡ true
unfolding is_internal bytes_beq
pointer-is_internal receipt = refl

-- The pointer is there, and something else than nothing is at the namespace.
abbrev pub HasPointer : Disk → Type 0
HasPointer d = is_present (lookup d pointer_path) ≡ true

abbrev pub HasNamespace : Disk → Type 0
HasNamespace d = is_present (lookup d namespace_path) ≡ true

-- The transaction is the plan's: its bundle is below the recovery directory.
pub record IsFor (env : Environment) (options : Options) (value : Plan) (t : DurableTransaction)
    : Type 0 where
  pub bundle : t.bundle_dir ≡ recovery_prefix ++ transaction_id env value options
  pub metadata : t.metadata ≡ value.metadata

lstat-present :
    {I : Disk → Type 0}
    → ((d : Disk) → I d → HasNamespace d)
    → Triple I (λ n d. I d × (is_present n ≡ true)) I (lstat namespace_path)
unfolding lstat
lstat-present has = record { at = λ d h. (h, has d h) }

pointer-set : (d : Disk) (n : Node) → HasPointer (set d pointer_path n)
unfolding bytes_beq
pointer-set d n = ground (arith, lookup-set d pointer_path pointer_path n)

module _ (env : Environment) (receipt : Bytes) {I : Disk → Type 0}
    (stable : IsStable receipt I) where
  stage_backup-Quiet :
      (id : Bytes) (index : ℕ) (c : PersistedChange)
      → Quiet I (stage_backup env (recovery_prefix ++ id) index c)
  unfolding stage_backup
  stage_backup-Quiet id index c = Quiet-step (Quiet-check _) (λ change.
      Quiet-step (Quiet-check _) (λ target.
        Quiet-step (Quiet-reads (read_regular_bounded target) (read_regular_bounded-disk target))
          (λ r. Quiet-step (Quiet-refuse_when _ _) (λ _.
            Quiet-step (Quiet-create receipt stable _ _ (bundle-is_internal receipt _))
              (λ _. Quiet-pure _)))))

  stage_actions-Quiet :
      (id : Bytes) (index : ℕ) (changes : List PersistedChange)
      → Quiet I (stage_actions env (recovery_prefix ++ id) index changes)
  unfolding stage_actions
  stage_actions-Quiet id index [] = Quiet-pure _
  stage_actions-Quiet id index (c ∷ changes) =
      Quiet-step
        (Triple-if (needs_backup c.kind) _ _ (stage_backup-Quiet id index c) (Quiet-pure _))
        (λ action.
          Quiet-step (stage_actions-Quiet id (suc index) changes) (λ actions. Quiet-pure _))

  recovery_root_found-Quiet :
      (n : Option Node) → Quiet I (recovery_root_found env (codes ".uawp/recovery") n)
  unfolding recovery_root_found is_internal bytes_beq
  recovery_root_found-Quiet none = Quiet-create receipt stable _ _ refl
  recovery_root_found-Quiet (some directory) = Quiet-pure tt
  recovery_root_found-Quiet (some (file content mode)) = Quiet-fail _
  recovery_root_found-Quiet (some (symlink found)) = Quiet-fail _
  recovery_root_found-Quiet (some special) = Quiet-fail _

  -- The bundle is written beside what the predicate tells of, and the pointer is there at the end.
  write_bundle-pointer :
      (value : Plan) (options : Options)
      → Triple I (λ _ d. I d × HasPointer d) I (write_bundle env value options namespace_path false)
  unfolding write_bundle
  write_bundle-pointer value options = Quiet-step (Quiet-lstat _) (λ n.
      Quiet-step (recovery_root_found-Quiet n) (λ _. Quiet-step (make _ _) (λ _.
        Quiet-step (make _ _) (λ _. Quiet-step (Quiet-check _) (λ plan_text.
          Quiet-step (make _ _) (λ _. Quiet-step (Quiet-refuse_when _ _) (λ _.
            Quiet-step (stage_actions-Quiet id 0 (persisted value).changes) (λ staged.
              Quiet-step (Quiet-refuse_when _ _) (λ _. Quiet-step (Quiet-check _) (λ journal_text.
                Quiet-step (make _ _) (λ _. Quiet-step (Quiet-check _) (λ pointer_text.
                  Triple-bind _ _
                    (Triple-create pointer_path (file pointer_text 0o600)
                      (λ d h _. (
                        stable d _ (Same-set receipt d _ _ (pointer-is_internal receipt)) h,
                        pointer-set d _,
                      ))
                      (λ d h. h))
                    (λ _. Triple-pure _ (λ d h. h))))))))))))))
    where
      id : Bytes
      id = transaction_id env value options

      make : (tail : Bytes) (n : Node) → Quiet I (create (recovery_prefix ++ tail) n)
      make tail n = Quiet-create receipt stable _ n (bundle-is_internal receipt tail)

  module _ (value : Plan) (options : Options) where
    -- What the preparation leaves when it returns.
    abbrev pub IsPrepared : DurableTransaction → Disk → Type 0
    IsPrepared t d = I d × HasPointer d × IsFor env options value t

    prepare_in_namespace-IsPrepared : Triple I IsPrepared I (prepare_in_namespace env value options)
    unfolding prepare_in_namespace
    prepare_in_namespace-IsPrepared =
        Triple-bind _ _
          (Triple-on_error _ _ (write_bundle-pointer value options)
            (λ d h. stable d _ (Same-remove_all receipt d _) h))
          (λ journal.
            Quiet-bind _ _ (λ d h. h.0) (Quiet-refuse_when _ _)
              (λ _. Triple-pure _ (λ d h. (h.0, h.1, record { bundle = refl; metadata = refl }))))

    prepare_at-IsPrepared :
        (n : Option Node)
        → Triple (λ d. I d × (is_present n ≡ true)) IsPrepared I (prepare_at env value options n)
    unfolding prepare_at
    prepare_at-IsPrepared none = record { at = λ d h. absurd (ground arith) }
    prepare_at-IsPrepared (some n) =
        Triple-weaken _ prepare_in_namespace-IsPrepared (λ d h. h.0) (λ t d h. h) (λ d h. h)

    pub prepare-IsPrepared :
        ((d : Disk) → I d → HasNamespace d)
        → Triple I IsPrepared I (prepare_durable_transaction env value options)
    unfolding prepare_durable_transaction
    prepare-IsPrepared has =
        Quiet-step (Quiet-refuse_when _ _)
          (λ _. Triple-bind _ _ (lstat-present has) prepare_at-IsPrepared)

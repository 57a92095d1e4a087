-- ===== src/Workspace/Apply/Run/Laws.antt =====
-- The predicates that the loop over the changes keeps.
use uawp.Base.Int.{pos, ℤ}
use uawp.Base.{
  ◌≡◌, refl, ℕ, suc, Option, none, some, List, [], ◌∷◌, ◌++◌, Bytes, subst, sym, All, codes,
}
use uawp.Plan.Change.{
  Change, ChangeKind, create_dir, create_file, update_file, delete_file, delete_dir, unsupported,
}
use uawp.Plan.Persist.{Plan}
use uawp.Transaction.Record.{Action, ActionState}
use uawp.Workspace.Disk.{Node, Disk, set, unset, directory}
use uawp.Workspace.Op.{check}
use uawp.Workspace.Op.Triple.{
  Triple-if, Keeps, Triple-fail, Triple-create, Triple-replace, Triple-pure, Triple-check,
  Triple-remove,
}
use uawp.Workspace.Apply.Perform.{Options, perform, write_atomic, write_update}
use uawp.Workspace.Apply.Prepare.{Environment, DurableTransaction}
use uawp.Workspace.Apply.Run.{
  transition_from, transition, apply_action, apply_actions, target_for_change, file,
}
use uawp.Workspace.Apply.Prepare.Laws.{recovery_prefix, IsFor}
use uawp.Workspace.Apply.Frame.{Leaves, LeavesAs}
use uawp.Workspace.Apply.Quiet.{
  Quiet, Quiet-step, Quiet-check, Quiet-refuse_when, Quiet-fail, Quiet-lstat, Keeps-step,
}
use uawp.Workspace.Boundary.Laws.{target_for_change_sound}

-- Writing below the recovery directory keeps the predicate.
abbrev pub KeptByRecords : (Disk → Type 0) → Type 0
KeptByRecords I = (d : Disk) (tail : Bytes) (n : Node) → I d → I (set d (recovery_prefix ++ tail) n)

-- Making the change keeps the predicate.
abbrev pub Admits : (Disk → Type 0) → Change → Type 0
Admits I c =
    ((d : Disk) (n : Node) → Leaves c (some n) → I d → I (set d c.path n))
    × ((d : Disk) → Leaves c none → I d → I (unset d c.path))

module _ {I : Disk → Type 0} where
  pub target-Keeps :
      (path : Bytes) → Keeps I (λ target. target ≡ path) (check (λ d. target_for_change d path))
  target-Keeps path =
      Triple-check _ (λ d target h e. (h, (target_for_change_sound d path target e).0)) (λ d h. h)

leaves_as :
    (c : Change) (kind : ChangeKind) (n : Option Node)
    → c.kind ≡ kind
    → LeavesAs c.content c.mode n kind
    → Leaves c n
leaves_as c kind n e h = subst (LeavesAs c.content c.mode n) (sym e) h

module _ (hash_bytes : Bytes → Bytes) (options : Options) {I : Disk → Type 0} where
  write_atomic-Quiet :
      (target content : Bytes) (mode : ℕ) (index : ℤ)
      → ((d : Disk) → I d → I (set d target (file content mode)))
      → Quiet I (write_atomic options target content mode index)
  unfolding write_atomic
  write_atomic-Quiet target content mode index k = Quiet-step (Quiet-check _) (λ _.
      Quiet-step (Quiet-refuse_when _ _) (λ _.
        Quiet-step (Quiet-refuse_when _ _) (λ _. Triple-create _ _ (λ d h _. k d h) (λ d h. h))))

  write_update-Quiet :
      (target before content : Bytes) (mode : ℕ) (index : ℤ)
      → ((d : Disk) → I d → I (set d target (file content mode)))
      → Quiet I (write_update hash_bytes options target before content mode index)
  unfolding write_update
  write_update-Quiet target before content mode index k = Quiet-step (Quiet-check _) (λ _.
      Quiet-step (Quiet-refuse_when _ _) (λ _.
        Quiet-step (Quiet-lstat _)
          (λ current. Quiet-step (Quiet-refuse_when _ _) (λ _. Triple-replace _ _ k (λ d h. h)))))

  pub perform_as-Quiet :
      (index : ℤ) (c : Change) (kind : ChangeKind)
      → c.kind ≡ kind
      → Admits I c
      → Quiet I (perform hash_bytes options index c c.path)
  unfolding perform
  perform_as-Quiet index c create_dir e a =
      rw e (Triple-create _ _ (λ d h _. a.0 d directory (leaves_as c _ _ e refl) h) (λ d h. h))
  perform_as-Quiet index c create_file e a =
      rw e (write_atomic-Quiet _ _ _ _ (λ d. a.0 d _ (leaves_as c _ _ e refl)))
  perform_as-Quiet index c update_file e a =
      rw e (write_update-Quiet _ _ _ _ _ (λ d. a.0 d _ (leaves_as c _ _ e refl)))
  perform_as-Quiet index c delete_file e a =
      rw e (Triple-remove _ (λ d. a.1 d (leaves_as c _ _ e refl)) (λ d h. h))
  perform_as-Quiet index c delete_dir e a =
      rw e (Triple-remove _ (λ d. a.1 d (leaves_as c _ _ e refl)) (λ d h. h))
  perform_as-Quiet index c (unsupported k) e a = rw e (Quiet-fail _)

module _ (env : Environment) (options : Options) (value : Plan) {I : Disk → Type 0}
    (records : KeptByRecords I) where
  abbrev Ours : DurableTransaction → Type 0
  Ours t = IsFor env options value t

  transition_from-Keeps :
      (t : DurableTransaction) (index : ℕ) (state : ActionState) (found : Option Action)
      → Ours t
      → Keeps I Ours (transition_from env options t index state found)
  unfolding transition_from
  transition_from-Keeps t index state none ours = Triple-fail _ (λ d h. h)
  transition_from-Keeps t index state (some a) ours = Quiet-step (Quiet-refuse_when _ _) (λ _.
      Quiet-step (Quiet-check _) (λ text.
        Quiet-step
          (Triple-replace _ _
            (λ d h.
              subst (λ b. I (set d (b ++ codes "/journal.json") (file text 0o600)))
                (sym ours.bundle) (records d _ _ h))
            (λ d h. h))
          (λ _.
            Triple-pure _ (λ d h. (h, record { bundle = ours.bundle; metadata = ours.metadata })))))

  transition-Keeps :
      (t : DurableTransaction) (index : ℕ) (state : ActionState)
      → Ours t
      → Keeps I Ours (transition env options t index state)
  unfolding transition
  transition-Keeps t index state = transition_from-Keeps t index state _

  apply_action-Keeps :
      (index : ℕ) (done : List Bytes) (t : DurableTransaction) (c : Change)
      → Ours t
      → Admits I c
      → Keeps I Ours (apply_action env options value index done t c)
  unfolding apply_action
  apply_action-Keeps index done t c ours a = Quiet-step (Quiet-refuse_when _ _) (λ _.
      Quiet-step (Quiet-refuse_when _ _) (λ _. Quiet-step (Quiet-check _) (λ _.
        Keeps-step (target-Keeps c.path) (λ target same.
          Keeps-step (transition-Keeps t index _ ours) (λ t ours.
            Quiet-step
              (subst (λ p. Quiet I (perform env.platform.hash_bytes options (pos index) c p))
                (sym same) (perform_as-Quiet _ options _ c c.kind refl a))
              (λ _. Quiet-step (Quiet-refuse_when _ _) (λ _.
                Keeps-step (transition-Keeps t index _ ours) (λ t ours.
                  Quiet-step (Quiet-check _) (λ _.
                    Quiet-step (Quiet-refuse_when _ _)
                      (λ _. transition-Keeps t index _ ours))))))))))

  pub apply_actions-Keeps :
      (index : ℕ) (done : List Bytes) (t : DurableTransaction) (changes : List Change)
      → Ours t
      → All (Admits I) changes
      → Keeps I Ours (apply_actions env options value index done t changes)
  unfolding apply_actions
  apply_actions-Keeps index done t [] ours a = Triple-pure _ (λ d h. (h, ours))
  apply_actions-Keeps index done t (c ∷ changes) ours a =
      Keeps-step
        (Triple-if _ _ _ (Triple-pure _ (λ d h. (h, ours)))
          (apply_action-Keeps index done t c ours a.0))
        (λ t ours. apply_actions-Keeps (suc index) (c.path ∷ done) t changes ours a.1)

-- ===== src/Transaction/Recovery/Rollback.antt =====
-- Rolling back undoes a transaction.
use uawp.Plan.Persist.{order_changes}
use uawp.Transaction.Recovery.Order.{Finds, Backwards, undo_actions-Backwards, IsNumbered-order}
use uawp.Base.{
  ◌-◌, ◌*◌, ℕ, suc, Bool, true, false, List, [], ◌∷◌, ◌++◌, ◌≡◌, refl, arith, All, Bytes, bytes_eq,
  contains, bytes_beq_iff, ok, Result-cases, some, >>=-eq-ok, inr, ◌⊎◌, Bool-cases, inl, ◌↔◌,
  length, ap, ◌≢◌, err,
}
use uawp.Plan.Change.{
  Change, create_dir, create_file, update_file, delete_file, delete_dir, unsupported, ChangeKind,
  with_sequence, new_delete_file, new_delete_directory, new_update_file, new_file, new_directory,
  persist_change, PersistedChange,
}
use uawp.Plan.Change.Laws.{restore_change_iff, IsConsistent}
use uawp.Transaction.Record.{Action, Bundle, Platform}
use uawp.Transaction.Validate.Laws.{IsRestorable, validate_bundle-actions}
use uawp.Transaction.Classify.{
  PathState, Observation, live_state, backup_state, matches_before, classify, both_available,
  BackupState,
}
use uawp.Transaction.Classify.Laws.{
  paths_of, AreSettled, IsSettled, classify-both_iff, classify-all_or_none, IsRecoverable,
  IsCompleted,
}
use uawp.Transaction.Recovery.{
  undo_action, undo_actions, undo_change, rollback_changes, pos, RecoveryError,
}
use uawp.Transaction.Recovery.Effect.{
  effect, run, Serves, Collect, none_left, add, Collect-run, Collect-paths, run_untouched,
}
use uawp.Transaction.Validate.{needs_backup, validate_bundle}

abbrev before : Action → PathState → Bool
before a = matches_before a.change

-- The journal's backup of a file has the hash that the plan found, as it is when the transaction
-- is prepared.
abbrev pub IsPrepared : Action → Type 0
IsPrepared a = (needs_backup a.change.kind ≡ false) ⊎ (a.backup_sha256 ≡ a.change.before_sha256)

-- A backup that was found good has the hash that was observed of it.
pub record IsHonest (platform : Platform) (o : Observation) : Type 0 where
  pub content :
      (index : ℕ) (backup : BackupState)
      → o.backups index ≡ some backup
      → platform.hash_bytes backup.content ≡ backup.sha256

module _ (platform : Platform) (o : Observation) where
  -- Undoing an action leaves its path as the action found it.
  undo_change-before :
      (k : ChangeKind) (a : Action) (backup : BackupState) (c : Change)
      → a.change.kind ≡ k
      → (needs_backup k ≡ false) ⊎ (platform.hash_bytes backup.content ≡ a.change.before_sha256)
      → undo_change platform a backup ≡ ok c
      → (c.path ≡ a.change.path) × (before a (effect c) ≡ true)
  unfolding undo_change matches_before new_delete_file new_delete_directory new_update_file new_file
      new_directory
  undo_change-before create_dir a b c e h r = ground arith
  undo_change-before create_file a b c e h r = ground arith
  undo_change-before update_file a b c e h r =
      ground (arith, bytes_beq_iff (platform.hash_bytes b.content) a.change.before_sha256)
  undo_change-before delete_file a b c e h r =
      ground (arith, bytes_beq_iff (platform.hash_bytes b.content) a.change.before_sha256)
  undo_change-before delete_dir a b c e h r = ground arith
  undo_change-before (unsupported k) a b c e h r = absurd (ground arith)

  module _ (honest : IsHonest platform o) where
    backup_content :
        (index : ℕ) (a : Action)
        → IsSettled o index a
        → IsPrepared a
        → (needs_backup a.change.kind ≡ false)
          ⊎ (platform.hash_bytes (backup_state o index).content ≡ a.change.before_sha256)
    backup_content index a settled (inl free) = inl free
    backup_content index a settled (inr same) = elim (Bool-cases (needs_backup a.change.kind)) [
      | inr free ↦ inl free
      | inl needed ↦
          let r = settled.1 needed in
          inr (ground (arith, r.found, r.sha256, honest.content index r.backup r.found))
    ]

    undo_action-Serves :
        (count index : ℕ) (a : Action) (own : List Change)
        → IsSettled o index a
        → IsPrepared a
        → undo_action platform o count index a ≡ ok own
        → Serves before (live_state o) a own
    unfolding undo_action with_sequence
    undo_action-Serves count index a own settled prepared h =
        elim (Bool-cases (before a (live_state o a.change.path))) [
          | inl there ↦ let e : own ≡ [] = ground arith in rw e (tt, ground arith)
          | inr away ↦ elim (Result-cases (undo_change platform a (backup_state o index))) [
            | inr (x, bad) ↦ absurd (ground arith)
            | inl (c, good) ↦
                let e : own ≡ with_sequence c (pos ((count - index) * 10)) ∷ [] = ground arith in
                let (at, hits) =
                  undo_change-before a.change.kind a (backup_state o index) c refl
                    (backup_content index a settled prepared) good in
                rw e (((at, hits), tt), ground (arith, bytes_beq_iff c.path a.change.path))
          ]
        ]

    undo_actions-Collect :
        (count index : ℕ) (actions : List Action) (cs : List Change)
        → AreSettled o index actions
        → All IsPrepared actions
        → undo_actions platform o count index actions ≡ ok cs
        → Collect before (live_state o) actions cs
    unfolding undo_actions
    undo_actions-Collect count index [] cs settled prepared h =
        let e : cs ≡ [] = ground arith in rw e none_left
    undo_actions-Collect count index (a ∷ actions) cs settled prepared h =
        let (later, rest, more) =
          >>=-eq-ok (undo_actions platform o count (suc index) actions) _ h in
        let (own, first, joined) = >>=-eq-ok (undo_action platform o count index a) _ more in
        add own later (undo_action-Serves count index a own settled.0 prepared.0 first)
          (undo_actions-Collect count (suc index) actions later settled.1 prepared.1 rest)
          (inr (ground arith))

  undo_change-ne-err :
      (k : ChangeKind) (a : Action) (backup : BackupState) (c : Change) (x : RecoveryError)
      → a.change.kind ≡ k
      → IsConsistent platform.hash_bytes k c
      → undo_change platform a backup ≢ err x
  unfolding undo_change
  undo_change-ne-err (unsupported k) a b c x e h = absurd h
  undo_change-ne-err _ a b c x e h = ground arith

  undo_change-total :
      (a : Action) (backup : BackupState)
      → IsRestorable platform a
      → (d : Change) × (undo_change platform a backup ≡ ok d)
  unfolding persist_change
  undo_change-total a backup (c, good) =
      let (named, consistent, from) = (restore_change_iff platform.hash_bytes a.change c).0 good in
      let kind : a.change.kind ≡ c.kind = ap (λ (v : PersistedChange). v.kind) from in
      elim (Result-cases (undo_change platform a backup)) [
        | inl done ↦ done
        | inr (x, bad) ↦ absurd (undo_change-ne-err c.kind a backup c x kind consistent bad)
      ]

  undo_action-total :
      (count index : ℕ) (a : Action)
      → IsRestorable platform a
      → (own : List Change) × (undo_action platform o count index a ≡ ok own)
  unfolding undo_action
  undo_action-total count index a restorable =
      let (d, undone) = undo_change-total a (backup_state o index) restorable in
      elim (Bool-cases (before a (live_state o a.change.path))) [
        | inl there ↦ ([], ground arith)
        | inr away ↦ (with_sequence d (pos ((count - index) * 10)) ∷ [], ground arith)
      ]

  undo_actions-total :
      (count index : ℕ) (actions : List Action)
      → All (IsRestorable platform) actions
      → (cs : List Change) × (undo_actions platform o count index actions ≡ ok cs)
  unfolding undo_actions
  undo_actions-total count index [] restorable = ([], refl)
  undo_actions-total count index (a ∷ actions) restorable =
      let (later, rest) = undo_actions-total count (suc index) actions restorable.1 in
      let (own, first) = undo_action-total count index a restorable.0 in
      (later ++ own, ground arith)

module _ (platform : Platform) (b : Bundle) (o : Observation) where
  both_of :
      (cs : List Change)
      → rollback_changes platform b o ≡ ok cs
      → ((classify platform b o).classification ≡ both_available)
        × (undo_actions platform o (length b.journal.actions) 0 b.journal.actions ≡ ok cs)
  unfolding rollback_changes
  both_of cs h = let never = classify-all_or_none platform b o in (ground arith, ground arith)

  -- When `RollbackChanges` returns changes, the journal was prepared with the hashes that the plan
  -- found, and each backup has the hash observed of it, then the changes are of the paths of actions,
  -- the last action's first, the plan that is made of them keeps that order, and each was observed at
  -- its path to be in the state that it starts from. On the states of paths alone, without parents
  -- and without the refusals of an application, one after the other they bring every action's path to
  -- the state before the action and leave every other path as it was observed.
  pub rollback_changes-undoes :
      (cs : List Change) (p : Bytes)
      → rollback_changes platform b o ≡ ok cs
      → All IsPrepared b.journal.actions
      → IsHonest platform o
      → contains (paths_of b.journal.actions) p ≡ false
      → All
          (λ a. matches_before a.change (run cs (live_state o) a.change.path) ≡ true)
          b.journal.actions
        × (run cs (live_state o) p ≡ live_state o p)
        × Backwards b.journal.actions cs
        × All (Finds o) cs
        × (order_changes cs ≡ cs)
  rollback_changes-undoes cs p h prepared honest free =
      let (both, undone) = both_of cs h in
      let (valid, (settled, inputs), unfinished) = (classify-both_iff platform b o).0 both in
      let (restorable, alone) = validate_bundle-actions platform b valid in
      let c =
        undo_actions-Collect platform o honest (length b.journal.actions) 0 b.journal.actions cs
          settled prepared undone in
      let (backwards, finds, numbered, sorted) =
        undo_actions-Backwards platform o (length b.journal.actions) 0 b.journal.actions cs
          (ground arith) settled undone in
      (
        Collect-run before (live_state o) c alone,
        run_untouched p cs (live_state o) (Collect-paths before (live_state o) p c free),
        backwards,
        finds,
        IsNumbered-order cs _ numbered sorted,
      )

  both_rolls_back :
      (cs : List Change)
      → (classify platform b o).classification ≡ both_available
      → undo_actions platform o (length b.journal.actions) 0 b.journal.actions ≡ ok cs
      → rollback_changes platform b o ≡ ok cs
  unfolding rollback_changes
  both_rolls_back cs both undone = ground arith

  -- `RollbackChanges` returns changes exactly when the records are valid, every path is settled, the
  -- other inputs hold, and the transaction is not complete.
  pub rollback_changes_iff : ((cs : List Change) × (rollback_changes platform b o ≡ ok cs)) ↔ (
      (validate_bundle platform b ≡ ok tt)
      × IsRecoverable platform b o
      × (¬ IsCompleted platform b o))
  rollback_changes_iff = (
    (λ (cs, h). (classify-both_iff platform b o).0 (both_of cs h).0),
    (λ evidence.
        let (restorable, alone) = validate_bundle-actions platform b evidence.0 in
        let (cs, undone) =
          undo_actions-total platform o (length b.journal.actions) 0 b.journal.actions restorable in
        (cs, both_rolls_back cs ((classify-both_iff platform b o).1 evidence) undone)),
  )

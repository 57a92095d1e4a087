-- ===== src/Transaction/Tests.antt =====
-- A transaction of three actions, interrupted after the first, and the theorems at it.
use uawp.Base.Sort.{IsSorted, sort}
use uawp.Plan.Persist.{
  by_sequence, order_changes, PersistedPlan, new_plan, persisted, restore, restore_changes,
}
use uawp.Transaction.Recovery.Order.{Finds, Backwards}
use uawp.Transaction.Codec.{Unmarshal, Marshal, encode, encode_journal}
use uawp.Base.{
  some, none, bytes_eq, zero, suc, ◌≡◌, refl, codes, ◌∷◌, [], ok, bytes_beq, bytes_ltb, Bytes, List,
  true, contains_any, Result, ◌≤◌, ℕ, contains, All, ◌≢◌, ◌↔◌, if◌then◌else◌, Option, ◌==◌, inr,
  false, ◌⊎◌, inl, arith, ◌++◌,
}
use uawp.Base.Int.{pos}
use uawp.Base.FilePath.{clean, count_byte}
use uawp.Base.Pattern.{is_hash, is_identifier}
use uawp.Plan.Change.{
  Change, new_directory, new_update_file, new_delete_file, with_sequence, persist_change,
  restore_change, check_kind, restored,
}
use uawp.Plan.Sample.{sample_hash, sample_marshal, no_metadata}
use uawp.Transaction.Record.{
  Action, Bundle, Platform, change_beq, pending, verified, applying, rollback_verified, rolled_back,
  in_progress, applied,
}
use uawp.Transaction.Validate.{
  is_logical_path, is_backup_path, validate_identity, validate_pointer, validate_action,
  validate_actions, validate_journal, same_changes, check_receipt, validate_bundle, RecordError,
}
use uawp.Transaction.Recovery.Rollback.{
  IsHonest, IsPrepared, rollback_changes_iff, rollback_changes-undoes,
}
use uawp.Transaction.Recovery.{
  rollback_changes, continue_changes, undo_actions, redo_actions, undo_action, redo_action,
  undo_change,
}
use uawp.Transaction.Progress.{can_transition, Trail-bound, Trail, step, here}
use uawp.Transaction.Classify.{
  classify, PathState, Observation, BackupState, verdict, transaction_complete, path_missing,
  path_file, matches_before, matches_after, manual_required, both_available, scan_inputs,
  rollback_available, scan_actions, path_directory, live_state, continue_available, scan_action,
  backup_ok, Classification,
}
use uawp.Transaction.Classify.Laws.{
  paths_of, IsRecoverable, IsCompleted, classify-both_iff, classify-all_or_none,
  classify-complete_iff,
}
use uawp.Transaction.Recovery.Effect.{run}
use uawp.Transaction.Recovery.Continue.{continue_changes_iff, continue_changes-finishes}

abbrev platform : Platform
platform = record { hash_bytes = sample_hash; marshal = sample_marshal; is_rfc3339 = λ t. true }

abbrev old_text : Bytes
old_text = codes "old"

abbrev update : Change
update =
    with_sequence
      (new_update_file sample_hash (codes "a") 384 (sample_hash old_text) (codes "new text"))
      (pos 10)

abbrev folder : Change
folder = with_sequence (new_directory (codes "d") 448) (pos 20)

abbrev removal : Change
removal = with_sequence (new_delete_file (codes "z") (sample_hash old_text)) (pos 30)

plan : PersistedPlan
unfolding new_plan order_changes sort bytes_ltb new_directory new_update_file new_delete_file
    with_sequence persisted persist_change
plan = persisted (
    new_plan sample_hash sample_marshal (codes "upgrade") (codes "/w")
      (removal ∷ update ∷ folder ∷ []) [] no_metadata)

actions : List Action
unfolding persist_change new_directory new_update_file new_delete_file with_sequence
actions =
    record {
      index = pos 0;
      change = persist_change update;
      state = verified;
      backup_path = codes "backups/0000.bak";
      backup_sha256 = sample_hash old_text;
      backup_mode = 384;
    }
    ∷ record {
      index = pos 1;
      change = persist_change folder;
      state = pending;
      backup_path = [];
      backup_sha256 = [];
      backup_mode = 0;
    }
    ∷ record {
      index = pos 2;
      change = persist_change removal;
      state = pending;
      backup_path = codes "backups/0002.bak";
      backup_sha256 = sample_hash old_text;
      backup_mode = 384;
    }
    ∷ []

bundle : Bundle
unfolding plan actions
bundle = record {
  pointer = record {
    schema_version = codes "1";
    transaction_id = codes "txn-1";
    operation = codes "upgrade";
    plan_id = plan.id;
    workspace = codes "/w";
    phase = applying;
  };
  journal = record {
    schema_version = codes "1";
    transaction_id = codes "txn-1";
    operation = codes "upgrade";
    plan_id = plan.id;
    workspace = codes "/w";
    phase = applying;
    started_at = codes "2026-09-22T12:00:00Z";
    actions = actions;
  };
  plan = plan;
  receipt = none;
}

-- Unfolding this opens all that a validation calls.
validated : Bundle → Result RecordError (Unit {0})
unfolding is_logical_path is_backup_path validate_identity validate_pointer validate_action
    validate_actions validate_journal same_changes check_receipt validate_bundle change_beq clean
    count_byte is_hash is_identifier restore restore_changes restore_change restored check_kind
    new_plan order_changes sort bytes_ltb bytes_beq contains_any bundle
validated = validate_bundle platform

bundle_valid : validate_bundle platform bundle ≡ ok tt
unfolding validated
bundle_valid = refl

abbrev file : Bytes → PathState
file content = record { kind = path_file; sha256 = sample_hash content }

abbrev gone : PathState
gone = record { kind = path_missing; sha256 = [] }

abbrev good_backup : BackupState
good_backup = record { valid = true; sha256 = sample_hash old_text; mode = 384; content = old_text }

abbrev backups : ℕ → Option BackupState
backups zero = some good_backup
backups (suc zero) = none
backups (suc (suc n)) = some good_backup

-- The update was made; the folder and the removal were not.
abbrev midway : Observation
midway = record {
  paths = λ p.
      if p == codes "a"
      then some (file (codes "new text"))
      else if p == codes "d"
      then some gone
      else if p == codes "z"
      then some (file old_text)
      else none;
  inputs = λ p. none;
  backups = backups;
}

-- Everything was made.
abbrev finished : Observation
finished = record midway {
  paths = λ p.
      if p == codes "a"
      then some (file (codes "new text"))
      else if p == codes "d"
      then some (record { kind = path_directory; sha256 = [] })
      else some gone;
}

-- Unfolding this opens all that a classification calls.
classified : Observation → Classification
unfolding classify verdict scan_inputs scan_actions scan_action matches_before matches_after
    backup_ok validated
classified o = (classify platform bundle o).classification

midway_both : (classify platform bundle midway).classification ≡ both_available
unfolding classified
midway_both = refl

finished_complete : (classify platform bundle finished).classification ≡ transaction_complete
unfolding classified
finished_complete = refl

lost_backup :
    (classify platform bundle (record midway { backups = λ n. none })).classification
    ≡ manual_required
unfolding classified
lost_backup = refl

-- Undone in reverse order: only the update was made.
undo : List Change
unfolding new_update_file with_sequence
undo =
    with_sequence
      (new_update_file sample_hash (codes "a") 384 (sample_hash (codes "new text")) old_text)
      (pos 30)
    ∷ []

midway_rolls_back : rollback_changes platform bundle midway ≡ ok undo
unfolding rollback_changes undo_actions undo_action undo_change classified undo
midway_rolls_back = refl

redo : List Change
unfolding new_directory new_delete_file with_sequence
redo = folder ∷ removal ∷ []

midway_continues : continue_changes platform bundle midway ≡ ok redo
unfolding continue_changes redo_actions redo_action classified redo
midway_continues = refl

finished_done : continue_changes platform bundle finished ≡ ok []
unfolding continue_changes redo_actions redo_action classified
finished_done = refl

classify-both_iff_example : ((classify platform bundle midway).classification ≡ both_available) ↔ (
    (validate_bundle platform bundle ≡ ok tt)
    × IsRecoverable platform bundle midway
    × (¬ IsCompleted platform bundle midway))
classify-both_iff_example = classify-both_iff platform bundle midway

classify-all_or_none_example :
    ((classify platform bundle midway).classification ≢ rollback_available)
    × ((classify platform bundle midway).classification ≢ continue_available)
classify-all_or_none_example = classify-all_or_none platform bundle midway

free : contains (paths_of bundle.journal.actions) (codes "q") ≡ false
unfolding bundle bytes_beq
free = refl

continue_changes-finishes_example :
    All
      (λ a. matches_after a.change (run redo (live_state midway) a.change.path) ≡ true)
      bundle.journal.actions
    × (run redo (live_state midway) (codes "q") ≡ live_state midway (codes "q"))
    × IsSorted by_sequence redo
    × All (Finds midway) redo
continue_changes-finishes_example =
    continue_changes-finishes platform bundle midway redo (codes "q") midway_continues free

continue_changes_iff_example :
    ((cs : List Change) × (continue_changes platform bundle midway ≡ ok cs)) ↔ (
      (validate_bundle platform bundle ≡ ok tt)
      × (IsRecoverable platform bundle midway ⊎ IsCompleted platform bundle midway))
continue_changes_iff_example = continue_changes_iff platform bundle midway

prepared : All IsPrepared bundle.journal.actions
unfolding bundle
prepared = (inr refl, (inl refl, (inr refl, tt)))

honest_content :
    (index : ℕ) (backup : BackupState)
    → backups index ≡ some backup
    → sample_hash backup.content ≡ backup.sha256
honest_content zero backup found = ground arith
honest_content (suc zero) backup found = absurd (ground arith)
honest_content (suc (suc n)) backup found = ground arith

honest : IsHonest platform midway
honest = record { content = honest_content }

rollback_changes-undoes_example :
    All
      (λ a. matches_before a.change (run undo (live_state midway) a.change.path) ≡ true)
      bundle.journal.actions
    × (run undo (live_state midway) (codes "q") ≡ live_state midway (codes "q"))
    × Backwards bundle.journal.actions undo
    × All (Finds midway) undo
    × (order_changes undo ≡ undo)
rollback_changes-undoes_example =
    rollback_changes-undoes platform bundle midway undo (codes "q") midway_rolls_back prepared
      honest free

rollback_changes_iff_example :
    ((cs : List Change) × (rollback_changes platform bundle midway ≡ ok cs)) ↔ (
      (validate_bundle platform bundle ≡ ok tt)
      × IsRecoverable platform bundle midway
      × (¬ IsCompleted platform bundle midway))
rollback_changes_iff_example = rollback_changes_iff platform bundle midway

-- The way of an action that is applied, verified and then rolled back.
applied_way : Trail 3 pending verified
unfolding can_transition
applied_way =
    step {t = in_progress} refl (step {t = applied} refl (step {t = verified} refl (here verified)))

undone_way : Trail 2 verified rollback_verified
unfolding can_transition
undone_way =
    step {t = rolled_back} refl (step {t = rollback_verified} refl (here rollback_verified))

Trail-bound_example : (2 ≤ 5) × (◌≡◌ {A = ℕ} 0 0) × (◌≡◌ {A = ℕ} 3 3)
Trail-bound_example = Trail-bound undone_way (here pending) applied_way

abbrev texts : Marshal
texts = record {
  plan = λ p. codes "{plan}";
  journal = λ j. codes "{journal}";
  pointer = λ p. codes "{pointer}";
  receipt = λ r. codes "{receipt}";
}

journal_encoded : encode_journal platform texts bundle.journal ≡ ok (codes "{journal}" ++ (10 ∷ []))
unfolding validated bundle encode_journal encode
journal_encoded = refl

reading : Unmarshal
unfolding bundle
reading = record {
  plan = λ t. some bundle.plan;
  journal = λ t. some bundle.journal;
  pointer = λ t. some bundle.pointer;
  receipt = λ t. none;
}

classify-complete_iff_example :
    ((classify platform bundle finished).classification ≡ transaction_complete)
    ↔ ((validate_bundle platform bundle ≡ ok tt) × IsCompleted platform bundle finished)
classify-complete_iff_example = classify-complete_iff platform bundle finished

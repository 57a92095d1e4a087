-- ===== src/Transaction/Classify/Laws.antt =====
-- Which evidence leads to which classification.
use uawp.Base.{
  ℕ, suc, Bool, true, false, ◌&&◌, ◌||◌, not, some, List, [], ◌∷◌, ◌≡◌, ◌≢◌, ◌↔◌, ◌⊎◌, refl, arith,
  All, map, inl, inr, ◌==◌, nat_eq, if◌then◌else◌, ok, err, contains, length, bytes_beq_iff,
  Result-cases, Bool-cases, Bytes, bytes_eq, Option-cases,
}
use uawp.Plan.Persist.{Input}
use uawp.Transaction.Record.{Action, Bundle, Platform}
use uawp.Transaction.Validate.{validate_bundle, RecordError}
use uawp.Transaction.Classify.{
  Observation, rollback_available, continue_available, both_available, manual_required,
  transaction_complete, matches_before, matches_after, live_state, backup_ok, Scan, scan_start,
  scan_action, scan_actions, scan_inputs, verdict, classify, input_ok, needs_backup, BackupState,
}

abbrev pub paths_of : List Action → List Bytes
paths_of = map (λ a. a.change.path)

-- Each action's path is observed as the action found it or as it leaves it, and the backup that it
-- may need is there.
abbrev settled : Observation → ℕ → List Action → Bool
settled o index [] = true
settled o index (a ∷ actions) =
    (matches_before a.change (live_state o a.change.path)
      || matches_after a.change (live_state o a.change.path))
    && backup_ok o index a
    && settled o (suc index) actions

abbrev all_done : Observation → List Action → Bool
all_done o [] = true
all_done o (a ∷ actions) = matches_after a.change (live_state o a.change.path) && all_done o actions

abbrev inputs_ok : Observation → List Bytes → List Input → Bool
inputs_ok o paths [] = true
inputs_ok o paths (i ∷ inputs) = (contains paths i.path || input_ok o i) && inputs_ok o paths inputs

-- The flags after the loop over the actions.
scan_actions-flags :
    (o : Observation) (index : ℕ) (actions : List Action) (s : Scan)
    → let t = scan_actions o index actions s in
      (t.rollback_safe ≡ (s.rollback_safe && settled o index actions))
      × (t.continue_safe ≡ (s.continue_safe && settled o index actions))
      × (t.all_after ≡ (s.all_after && all_done o actions))
unfolding scan_actions scan_action
scan_actions-flags o index [] s = ground arith
scan_actions-flags o index (a ∷ actions) s =
    ground (arith, scan_actions-flags o (suc index) actions (scan_action o index a s))

-- The paths that the loop over the actions has seen.
scan_actions-paths :
    (o : Observation) (index : ℕ) (actions : List Action) (s : Scan) (p : Bytes)
    → contains (scan_actions o index actions s).paths p
      ≡ (contains s.paths p || contains (paths_of actions) p)
unfolding scan_actions scan_action
scan_actions-paths o index [] s p = ground arith
scan_actions-paths o index (a ∷ actions) s p =
    ground (arith, scan_actions-paths o (suc index) actions (scan_action o index a s) p)

-- The flags after the loop over the inputs.
scan_inputs-flags :
    (o : Observation) (inputs : List Input) (s : Scan)
    → let t = scan_inputs o inputs s in
      (t.rollback_safe ≡ (s.rollback_safe && inputs_ok o s.paths inputs))
      × (t.continue_safe ≡ (s.continue_safe && inputs_ok o s.paths inputs))
      × (t.all_after ≡ s.all_after)
unfolding scan_inputs
scan_inputs-flags o [] s = ground arith
scan_inputs-flags o (i ∷ inputs) s = ground (
  arith,
  scan_inputs-flags o inputs s,
  scan_inputs-flags o inputs (record s { rollback_safe = false; continue_safe = false }),
)

inputs_ok-same :
    (o : Observation) (xs ys : List Bytes) (inputs : List Input)
    → ((p : Bytes) → contains xs p ≡ contains ys p)
    → inputs_ok o xs inputs ≡ inputs_ok o ys inputs
inputs_ok-same o xs ys [] h = refl
inputs_ok-same o xs ys (i ∷ inputs) h = ground (arith, h i.path, inputs_ok-same o xs ys inputs h)

-- The backup of an action is there, unharmed, with the recorded hash and mode.
pub record HasBackup (o : Observation) (index : ℕ) (a : Action) : Type 0 where
  pub backup : BackupState
  pub found : o.backups index ≡ some backup
  pub valid : backup.valid ≡ true
  pub sha256 : backup.sha256 ≡ a.backup_sha256
  pub mode : backup.mode ≡ a.backup_mode

-- The path is observed as the action found it or as it leaves it, and the backup is there if the
-- action replaces or deletes a file.
abbrev pub IsSettled : Observation → ℕ → Action → Type 0
IsSettled o index a =
    ((matches_before a.change (live_state o a.change.path) ≡ true)
      ⊎ (matches_after a.change (live_state o a.change.path) ≡ true))
    × (needs_backup a.change.kind ≡ true → HasBackup o index a)

abbrev pub AreSettled : Observation → ℕ → List Action → Type 0
AreSettled o index [] = Unit
AreSettled o index (a ∷ actions) = IsSettled o index a × AreSettled o (suc index) actions

abbrev pub IsDone : Observation → Action → Type 0
IsDone o a = matches_after a.change (live_state o a.change.path) ≡ true

-- An input that no action changes is observed with the hash that the plan recorded.
abbrev pub InputHolds : Observation → List Action → Input → Type 0
InputHolds o actions i =
    (contains (paths_of actions) i.path ≡ true) ⊎ (o.inputs i.path ≡ some i.sha256)

backup_ok_iff :
    (o : Observation) (index : ℕ) (a : Action)
    → (backup_ok o index a ≡ true) ↔ (needs_backup a.change.kind ≡ true → HasBackup o index a)
unfolding backup_ok
backup_ok_iff o index a = elim (Option-cases (o.backups index)) [
  | inl absent ↦ (
    (λ good needed. absurd (ground arith)),
    (λ h. elim (Bool-cases (needs_backup a.change.kind)) [
      | inl needed ↦ let r = h needed in cc (r.found, absent)
      | inr free ↦ ground arith
    ]),
  )
  | inr (backup, present) ↦ (
    (λ good needed. record {
      backup = backup;
      found = present;
      valid = ground arith;
      sha256 = ground (arith, bytes_beq_iff backup.sha256 a.backup_sha256);
      mode = ground arith;
    }),
    (λ h. elim (Bool-cases (needs_backup a.change.kind)) [
      | inl needed ↦
          let r = h needed in
          let same : r.backup ≡ backup = ground (arith, r.found, present) in
          ground
            (arith, same, r.valid, r.sha256, r.mode, bytes_beq_iff backup.sha256 a.backup_sha256)
      | inr free ↦ ground arith
    ]),
  )
]

settled_iff :
    (o : Observation) (index : ℕ) (actions : List Action)
    → (settled o index actions ≡ true) ↔ AreSettled o index actions
settled_iff o index [] = ground arith
settled_iff o index (a ∷ actions) =
    ground (arith, backup_ok_iff o index a, settled_iff o (suc index) actions)

all_done_iff :
    (o : Observation) (actions : List Action) → (all_done o actions ≡ true) ↔ All (IsDone o) actions
all_done_iff o [] = ground arith
all_done_iff o (a ∷ actions) = ground (arith, all_done_iff o actions)

input_ok_iff :
    (o : Observation) (i : Input) → (input_ok o i ≡ true) ↔ (o.inputs i.path ≡ some i.sha256)
input_ok_iff o i = elim (Option-cases (o.inputs i.path)) [
  | inl absent ↦ rw absent (ground arith)
  | inr (seen, present) ↦ rw present (ground (arith, bytes_beq_iff seen i.sha256))
]

inputs_ok_iff :
    (o : Observation) (actions : List Action) (inputs : List Input)
    → (inputs_ok o (paths_of actions) inputs ≡ true) ↔ All (InputHolds o actions) inputs
inputs_ok_iff o actions [] = ground arith
inputs_ok_iff o actions (i ∷ inputs) =
    ground (arith, inputs_ok_iff o actions inputs, input_ok_iff o i)

module _ (platform : Platform) (b : Bundle) (o : Observation) where
  abbrev complete : Bool
  complete = all_done o b.journal.actions && not (length b.journal.actions == 0)

  abbrev recoverable : Bool
  recoverable =
      settled o 0 b.journal.actions && inputs_ok o (paths_of b.journal.actions) b.plan.inputs

  -- The two flags are one, so the verdict has three outcomes.
  classify_lem :
      validate_bundle platform b ≡ ok tt
      → (classify platform b o).classification ≡ (
          if complete
          then transaction_complete
          else if recoverable
          then both_available
          else manual_required)
  unfolding classify verdict
  classify_lem valid =
      let t = scan_actions o 0 b.journal.actions scan_start in
      let (r, c, d) = scan_actions-flags o 0 b.journal.actions scan_start in
      let (r', c', d') = scan_inputs-flags o b.plan.inputs t in
      let e =
        inputs_ok-same o t.paths (paths_of b.journal.actions) b.plan.inputs
          (λ p. scan_actions-paths o 0 b.journal.actions scan_start p) in
      ground arith

  classify_invalid :
      {e : RecordError}
      → validate_bundle platform b ≡ err e
      → (classify platform b o).classification ≡ manual_required
  unfolding classify
  classify_invalid bad = ground arith

  abbrev pub IsCompleted : Type 0
  IsCompleted = (b.journal.actions ≢ []) × All (IsDone o) b.journal.actions

  abbrev pub IsRecoverable : Type 0
  IsRecoverable =
      AreSettled o 0 b.journal.actions × All (InputHolds o b.journal.actions) b.plan.inputs

  complete_iff : (complete ≡ true) ↔ IsCompleted
  complete_iff = ground (arith, all_done_iff o b.journal.actions)

  recoverable_iff : (recoverable ≡ true) ↔ IsRecoverable
  recoverable_iff =
      ground
        (arith, settled_iff o 0 b.journal.actions, inputs_ok_iff o b.journal.actions b.plan.inputs)

  -- A transaction is complete exactly when its records are valid, it has an action, and every path
  -- is observed as its action leaves it.
  pub classify-complete_iff :
      ((classify platform b o).classification ≡ transaction_complete)
      ↔ ((validate_bundle platform b ≡ ok tt) × IsCompleted)
  classify-complete_iff = elim (Result-cases (validate_bundle platform b)) [
    | inl (u, valid) ↦ ground (arith, classify_lem valid, complete_iff, recoverable_iff)
    | inr (e, bad) ↦ ground (arith, classify_invalid bad)
  ]

  -- It can be both rolled back and continued exactly when its records are valid, every path is
  -- settled with its backup, the other inputs hold, and it is not complete.
  pub classify-both_iff :
      ((classify platform b o).classification ≡ both_available)
      ↔ ((validate_bundle platform b ≡ ok tt) × IsRecoverable × (¬ IsCompleted))
  classify-both_iff = elim (Result-cases (validate_bundle platform b)) [
    | inl (u, valid) ↦ ground (arith, classify_lem valid, complete_iff, recoverable_iff)
    | inr (e, bad) ↦ ground (arith, classify_invalid bad)
  ]

  -- No evidence allows one of rollback and continuation without the other.
  pub classify-all_or_none :
      ((classify platform b o).classification ≢ rollback_available)
      × ((classify platform b o).classification ≢ continue_available)
  classify-all_or_none = elim (Result-cases (validate_bundle platform b)) [
    | inl (u, valid) ↦ ground (arith, classify_lem valid)
    | inr (e, bad) ↦ ground (arith, classify_invalid bad)
  ]

  -- Something can be done exactly when the records are valid and the evidence is good or complete.
  pub classify-ready_iff :
      (((classify platform b o).classification ≡ both_available)
        ⊎ ((classify platform b o).classification ≡ transaction_complete))
      ↔ ((validate_bundle platform b ≡ ok tt) × (IsRecoverable ⊎ IsCompleted))
  classify-ready_iff = elim (Result-cases (validate_bundle platform b)) [
    | inl (u, valid) ↦ ground (arith, classify_lem valid, complete_iff, recoverable_iff)
    | inr (e, bad) ↦ ground (arith, classify_invalid bad)
  ]

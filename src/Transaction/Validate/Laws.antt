-- ===== src/Transaction/Validate/Laws.antt =====
-- What a validated bundle promises about its actions.
use uawp.Base.{
  ℕ, suc, false, List, [], ◌∷◌, ◌≡◌, refl, arith, All, ok, Bytes, bytes_eq, contains, bytes_beq_iff,
  Result-cases, All-imp, inl, All-zip, inr,
}
use uawp.Plan.Change.{restore_change, Change}
use uawp.Transaction.Record.{Action, Bundle, Journal, Platform}
use uawp.Transaction.Validate.{validate_action, validate_actions, validate_journal, validate_bundle}

-- An action that has the path of another is that action.
abbrev pub IsAlone : List Action → Action → Type 0
IsAlone actions a = All (λ b. b.change.path ≡ a.change.path → b ≡ a) actions

abbrev IsUnseen : List Bytes → Action → Type 0
IsUnseen seen a = contains seen a.change.path ≡ false

module _ (platform : Platform) where
  -- The change of the action can be restored.
  abbrev pub IsRestorable : Action → Type 0
  IsRestorable a = (c : Change) × (restore_change platform.hash_bytes a.change ≡ ok c)

  validate_action-facts :
      (index : ℕ) (seen : List Bytes) (a : Action)
      → validate_action platform index seen a ≡ ok tt
      → IsUnseen seen a × IsRestorable a
  unfolding validate_action
  validate_action-facts index seen a h = (
    ground arith,
    elim (Result-cases (restore_change platform.hash_bytes a.change)) [
      | inl (c, good) ↦ (c, good)
      | inr (e, bad) ↦ absurd (ground arith)
    ],
  )

  validate_actions-cons :
      (index : ℕ) (seen : List Bytes) (a : Action) (actions : List Action)
      → validate_actions platform index seen (a ∷ actions) ≡ ok tt
      → (validate_action platform index seen a ≡ ok tt)
        × (validate_actions platform (suc index) (a.change.path ∷ seen) actions ≡ ok tt)
  unfolding validate_actions
  validate_actions-cons index seen a actions h = ground arith

  validate_actions-IsUnseen :
      (index : ℕ) (seen : List Bytes) (actions : List Action)
      → validate_actions platform index seen actions ≡ ok tt
      → All (IsUnseen seen) actions
  validate_actions-IsUnseen index seen [] h = tt
  validate_actions-IsUnseen index seen (a ∷ actions) h =
      let (own, rest) = validate_actions-cons index seen a actions h in
      (
        (validate_action-facts index seen a own).0,
        All-imp actions (λ b unseen. ground arith)
            (validate_actions-IsUnseen (suc index) (a.change.path ∷ seen) actions rest),
      )

  validate_actions-IsRestorable :
      (index : ℕ) (seen : List Bytes) (actions : List Action)
      → validate_actions platform index seen actions ≡ ok tt
      → All IsRestorable actions
  validate_actions-IsRestorable index seen [] h = tt
  validate_actions-IsRestorable index seen (a ∷ actions) h =
      let (own, rest) = validate_actions-cons index seen a actions h in
      (
        (validate_action-facts index seen a own).1,
        validate_actions-IsRestorable (suc index) (a.change.path ∷ seen) actions rest,
      )

  validate_actions-IsAlone :
      (index : ℕ) (seen : List Bytes) (actions : List Action)
      → validate_actions platform index seen actions ≡ ok tt
      → All (IsAlone actions) actions
  validate_actions-IsAlone index seen [] h = tt
  validate_actions-IsAlone index seen (a ∷ actions) h =
      let (own, rest) = validate_actions-cons index seen a actions h in
      let unseen = validate_actions-IsUnseen (suc index) (a.change.path ∷ seen) actions rest in
      let others = validate_actions-IsAlone (suc index) (a.change.path ∷ seen) actions rest in
      (
        (
          (λ e. refl),
          All-imp actions
              (λ b u e. absurd (ground (arith, bytes_beq_iff a.change.path b.change.path))) unseen,
        ),
        All-imp actions
            (λ b (u, alone).
              ((λ e. absurd (ground (arith, bytes_beq_iff a.change.path b.change.path))), alone))
            (All-zip (IsUnseen (a.change.path ∷ seen)) (IsAlone actions) actions unseen others),
      )

  journal-actions_valid :
      (j : Journal)
      → validate_journal platform j ≡ ok tt
      → validate_actions platform 0 [] j.actions ≡ ok tt
  unfolding validate_journal
  journal-actions_valid j h = ground arith

  bundle-actions_valid :
      (b : Bundle)
      → validate_bundle platform b ≡ ok tt
      → validate_actions platform 0 [] b.journal.actions ≡ ok tt
  unfolding validate_bundle
  bundle-actions_valid b h =
      let valid : validate_journal platform b.journal ≡ ok tt = ground arith in
      journal-actions_valid b.journal valid

  -- In a validated bundle every change can be restored, and no two actions share a path.
  pub validate_bundle-actions :
      (b : Bundle)
      → validate_bundle platform b ≡ ok tt
      → All IsRestorable b.journal.actions × All (IsAlone b.journal.actions) b.journal.actions
  validate_bundle-actions b h =
      let valid = bundle-actions_valid b h in
      (
        validate_actions-IsRestorable 0 [] b.journal.actions valid,
        validate_actions-IsAlone 0 [] b.journal.actions valid,
      )

-- ===== src/Transaction/Recovery/Continue.antt =====
-- Continuing finishes a transaction.
use uawp.Base.{
  All-append, subst, Bool, true, List, [], ◌∷◌, ◌++◌, ◌≡◌, refl, arith, All, bytes_eq,
  bytes_beq_iff, ok, Result-cases, ◌⊎◌, inl, >>=-eq-ok, ap, Bool-cases, inr, sym, Bytes, ◌↔◌,
  contains, false, ◌≢◌, ℕ, All-imp, suc,
}
use uawp.Base.Int.{int_ltb_asymm}
use uawp.Base.Sort.{IsSorted, sort-IsSorted, All-sort}
use uawp.Transaction.Recovery.Order.{Finds}
use uawp.Plan.Change.{
  Change, create_dir, create_file, update_file, delete_file, delete_dir, unsupported,
  restore_change, ChangeKind, persist_change, PersistedChange,
}
use uawp.Plan.Change.Laws.{restore_change_iff, IsConsistent}
use uawp.Transaction.Record.{Action, Platform, Bundle}
use uawp.Transaction.Validate.Laws.{IsRestorable, validate_bundle-actions}
use uawp.Transaction.Classify.{
  PathState, Observation, live_state, matches_after, matches_before, classify, both_available,
  transaction_complete,
}
use uawp.Transaction.Recovery.{
  redo_action, redo_actions, continue_changes, sort, by_sequence, sorted_redo,
}
use uawp.Transaction.Recovery.Effect.{
  effect, Serves, Collect, none_left, add, run, Collect-run-sort, run_untouched, Collect-paths,
}
use uawp.Transaction.Validate.{validate_bundle}
use uawp.Transaction.Classify.Laws.{
  paths_of, IsRecoverable, IsCompleted, classify-all_or_none, classify-ready_iff, AreSettled,
}

abbrev after : Action → PathState → Bool
after a = matches_after a.change

abbrev before : Action → PathState → Bool
before a = matches_before a.change

module _ (platform : Platform) (o : Observation) where
  -- A change that can be restored leaves its path as the action wants it.
  persist_change-after :
      (k : ChangeKind) (c : Change)
      → c.kind ≡ k
      → IsConsistent platform.hash_bytes k c
      → matches_after (persist_change c) (effect c) ≡ true
  unfolding persist_change matches_after
  persist_change-after create_dir c e h = ground arith
  persist_change-after create_file c e h =
      ground (arith, bytes_beq_iff c.after_sha256 c.after_sha256)
  persist_change-after update_file c e h =
      ground (arith, bytes_beq_iff c.after_sha256 c.after_sha256)
  persist_change-after delete_file c e h = ground arith
  persist_change-after delete_dir c e h = ground arith
  persist_change-after (unsupported k) c e h = absurd h

  restored-after :
      (a : Action) (c : Change)
      → restore_change platform.hash_bytes a.change ≡ ok c
      → (c.path ≡ a.change.path) × (after a (effect c) ≡ true)
  unfolding persist_change
  restored-after a c h =
      let (named, consistent, from) = (restore_change_iff platform.hash_bytes a.change c).0 h in
      (
        ap (λ (v : PersistedChange). v.path) (sym from),
        rw from (persist_change-after c.kind c refl consistent),
      )

  redo_action-Serves :
      (a : Action) (own : List Change)
      → redo_action platform o a ≡ ok own
      → Serves after (live_state o) a own
  unfolding redo_action
  redo_action-Serves a own h = elim (Result-cases (restore_change platform.hash_bytes a.change)) [
    | inl (c, good) ↦ elim (Bool-cases (after a (live_state o a.change.path))) [
      | inl there ↦ let e : own ≡ [] = ground arith in rw e (tt, ground arith)
      | inr away ↦
          let e : own ≡ c ∷ [] = ground arith in
          let (at, hits) = restored-after a c good in
          rw e (((at, hits), tt), ground (arith, bytes_beq_iff c.path a.change.path))
    ]
    | inr (x, bad) ↦
        let (e, there) : (own ≡ []) × (after a (live_state o a.change.path) ≡ true) =
          ground arith in
        rw e (tt, ground arith)
  ]

  redo_actions-Collect :
      (actions : List Action) (cs : List Change)
      → redo_actions platform o actions ≡ ok cs
      → Collect after (live_state o) actions cs
  unfolding redo_actions
  redo_actions-Collect [] cs h = let e : cs ≡ [] = ground arith in rw e none_left
  redo_actions-Collect (a ∷ actions) cs h =
      let (own, first, more) = >>=-eq-ok (redo_action platform o a) _ h in
      let (later, rest, joined) = >>=-eq-ok (redo_actions platform o actions) _ more in
      add own later (redo_action-Serves a own first) (redo_actions-Collect actions later rest)
        (inl (ground arith))

  -- A change is made again only where its path is in the state that it starts from.
  redo_action-Finds :
      (a : Action) (own : List Change) → redo_action platform o a ≡ ok own → All (Finds o) own
  unfolding redo_action persist_change
  redo_action-Finds a own h = elim (Result-cases (restore_change platform.hash_bytes a.change)) [
    | inl (c, good) ↦ elim (Bool-cases (after a (live_state o a.change.path))) [
      | inl there ↦ let e : own ≡ [] = ground arith in rw e tt
      | inr away ↦
          let e : own ≡ c ∷ [] = ground arith in
          let found : before a (live_state o a.change.path) ≡ true = ground arith in
          let (named, consistent, from) =
            (restore_change_iff platform.hash_bytes a.change c).0 good in
          let finds : Finds o c =
            subst (λ (v : PersistedChange). matches_before v (live_state o v.path) ≡ true) from
              found in
          rw e (finds, tt)
    ]
    | inr (x, bad) ↦ let e : own ≡ [] = ground arith in rw e tt
  ]

  redo_actions-Finds :
      (actions : List Action) (cs : List Change)
      → redo_actions platform o actions ≡ ok cs
      → All (Finds o) cs
  unfolding redo_actions
  redo_actions-Finds [] cs h = let e : cs ≡ [] = ground arith in rw e tt
  redo_actions-Finds (a ∷ actions) cs h =
      let (own, first, more) = >>=-eq-ok (redo_action platform o a) _ h in
      let (later, rest, joined) = >>=-eq-ok (redo_actions platform o actions) _ more in
      let e : cs ≡ own ++ later = ground arith in
      rw e (
        All-append (Finds o) own later (redo_action-Finds a own first)
          (redo_actions-Finds actions later rest))

  -- An action that is settled, with a change that can be restored, can be continued.
  redo_action-total :
      (a : Action)
      → ((before a (live_state o a.change.path) ≡ true)
          ⊎ (after a (live_state o a.change.path) ≡ true))
      → IsRestorable platform a
      → (own : List Change) × (redo_action platform o a ≡ ok own)
  unfolding redo_action
  redo_action-total a settled (c, good) = elim (Bool-cases (after a (live_state o a.change.path))) [
    | inl there ↦ ([], ground arith)
    | inr away ↦ (c ∷ [], ground arith)
  ]

  redo_actions-total :
      (actions : List Action)
      → All
          (λ a.
            (before a (live_state o a.change.path) ≡ true)
            ⊎ (after a (live_state o a.change.path) ≡ true))
          actions
      → All (IsRestorable platform) actions
      → (cs : List Change) × (redo_actions platform o actions ≡ ok cs)
  unfolding redo_actions
  redo_actions-total [] settled restorable = ([], refl)
  redo_actions-total (a ∷ actions) settled restorable =
      let (own, first) = redo_action-total a settled.0 restorable.0 in
      let (later, rest) = redo_actions-total actions settled.1 restorable.1 in
      (own ++ later, ground arith)

abbrev IsReachable : Observation → Action → Type 0
IsReachable o a =
    (before a (live_state o a.change.path) ≡ true) ⊎ (after a (live_state o a.change.path) ≡ true)

AreSettled-IsReachable :
    (o : Observation) (index : ℕ) (actions : List Action)
    → AreSettled o index actions
    → All (IsReachable o) actions
AreSettled-IsReachable o index [] h = tt
AreSettled-IsReachable o index (a ∷ actions) h =
    (h.0.0, AreSettled-IsReachable o (suc index) actions h.1)

module _ (platform : Platform) (b : Bundle) (o : Observation) where
  ready_of :
      (cs : List Change)
      → continue_changes platform b o ≡ ok cs
      → (((classify platform b o).classification ≡ both_available)
          ⊎ ((classify platform b o).classification ≡ transaction_complete))
        × (sorted_redo platform o b.journal.actions ≡ ok cs)
  unfolding continue_changes
  ready_of cs h = let never = classify-all_or_none platform b o in (ground arith, ground arith)

  -- The changes of a transaction that can be continued are collected and sorted.
  sorted_of :
      (cs : List Change)
      → continue_changes platform b o ≡ ok cs
      → (validate_bundle platform b ≡ ok tt)
        × (ds : List Change) × (redo_actions platform o b.journal.actions ≡ ok ds)
        × (cs ≡ sort by_sequence ds)
  unfolding sorted_redo
  sorted_of cs h =
      let (ready, sorted) = ready_of cs h in
      let (ds, collected, same) = >>=-eq-ok (redo_actions platform o b.journal.actions) _ sorted in
      (((classify-ready_iff platform b o).0 ready).0, ds, collected, ground arith)

  -- When `ContinueChanges` returns changes, they are in the order of their sequence numbers, and each
  -- was observed at its path to be in the state that it starts from. On the states of paths alone,
  -- without parents and without the refusals of an application, one after the other they bring every
  -- action's path to the state after the action and leave every other path as it was observed.
  pub continue_changes-finishes :
      (cs : List Change) (p : Bytes)
      → continue_changes platform b o ≡ ok cs
      → contains (paths_of b.journal.actions) p ≡ false
      → All
          (λ a. matches_after a.change (run cs (live_state o) a.change.path) ≡ true)
          b.journal.actions
        × (run cs (live_state o) p ≡ live_state o p)
        × IsSorted by_sequence cs
        × All (Finds o) cs
  continue_changes-finishes cs p h free =
      let (valid, ds, collected, sorted) = sorted_of cs h in
      let (restorable, alone) = validate_bundle-actions platform b valid in
      let c = redo_actions-Collect platform o b.journal.actions ds collected in
      rw sorted (
        Collect-run-sort after (live_state o) by_sequence c alone,
        run_untouched p (sort by_sequence ds) (live_state o) (
            All-sort by_sequence (λ (c : Change). c.path ≢ p) ds
              (Collect-paths after (live_state o) p c free)),
        sort-IsSorted by_sequence (λ x y. int_ltb_asymm x.sequence y.sequence) ds,
        All-sort by_sequence (Finds o) ds
            (redo_actions-Finds platform o b.journal.actions ds collected),
      )

  state-IsReachable :
      (IsRecoverable platform b o ⊎ IsCompleted platform b o)
      → All (IsReachable o) b.journal.actions
  state-IsReachable (inl recoverable) = AreSettled-IsReachable o 0 b.journal.actions recoverable.0
  state-IsReachable (inr completed) = All-imp b.journal.actions (λ a done. inr done) completed.1

  ready_continues :
      (cs : List Change)
      → ((classify platform b o).classification ≡ both_available)
        ⊎ ((classify platform b o).classification ≡ transaction_complete)
      → redo_actions platform o b.journal.actions ≡ ok cs
      → continue_changes platform b o ≡ ok (sort by_sequence cs)
  unfolding continue_changes
  ready_continues cs ready collected = ground arith

  -- `ContinueChanges` returns changes exactly when the records are valid and the transaction can be
  -- recovered or is complete.
  pub continue_changes_iff : ((cs : List Change) × (continue_changes platform b o ≡ ok cs)) ↔ (
      (validate_bundle platform b ≡ ok tt)
      × (IsRecoverable platform b o ⊎ IsCompleted platform b o))
  continue_changes_iff = (
    (λ (cs, h). (classify-ready_iff platform b o).0 (ready_of cs h).0),
    (λ (valid, state).
        let (restorable, alone) = validate_bundle-actions platform b valid in
        let (cs, collected) =
          redo_actions-total platform o b.journal.actions (state-IsReachable state) restorable in
        (
          sort by_sequence cs,
          ready_continues cs ((classify-ready_iff platform b o).1 (valid, state)) collected,
        )),
  )

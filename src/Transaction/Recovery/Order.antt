-- ===== src/Transaction/Recovery/Order.antt =====
-- The order in which a transaction is undone, and what each change of a recovery finds.
use mathlib.Core.List.{append-nil}
use uawp.Base.{
  Bytes, ◌∙◌, ◌+◌, ◌-◌, ◌*◌, ◌≤◌, ℕ, suc, true, false, List, [], ◌∷◌, ◌++◌, ◌≡◌, refl, arith, All,
  bytes_eq, ok, Result-cases, ◌⊎◌, inl, inr, >>=-eq-ok, Bool-cases, length, All-append, All-imp,
  sym, ap, subst,
}
use uawp.Base.Int.{ℤ, pos}
use uawp.Base.Sort.{sort, any, IsSorted, sort_of_IsSorted}
use uawp.Plan.Change.{
  Change, ChangeKind, create_dir, create_file, update_file, delete_file, delete_dir, unsupported,
  with_sequence, new_delete_file, new_delete_directory, new_update_file, new_file, new_directory,
  persist_change,
}
use uawp.Plan.Persist.{by_sequence, is_explicit, order_changes}
use uawp.Transaction.Record.{Action, Platform}
use uawp.Transaction.Classify.{
  Observation, live_state, matches_before, matches_after, BackupState, backup_state,
}
use uawp.Transaction.Classify.Laws.{AreSettled}
use uawp.Transaction.Recovery.{undo_action, undo_actions, undo_change}

-- The path of the change was observed in the state that the change starts from.
abbrev pub Finds : Observation → Change → Type 0
Finds o c = matches_before (persist_change c) (live_state o c.path) ≡ true

-- Changes of the paths of some of the actions, the last action's first.
pub data Backwards : List Action → List Change → Type 0 where
  nothing : Backwards [] []
  left_out :
      {a : Action} {actions : List Action} {cs : List Change}
      → Backwards actions cs
      → Backwards (a ∷ actions) cs
  undone :
      {a : Action} {actions : List Action} {cs : List Change} (c : Change)
      → c.path ≡ a.change.path
      → Backwards actions cs
      → Backwards (a ∷ actions) (cs ++ (c ∷ []))

-- The number of the change is set and at most the bound.
abbrev pub IsNumbered : ℕ → Change → Type 0
IsNumbered bound c = (n : ℕ) × (c.sequence ≡ pos (suc n)) × (suc n ≤ bound)

IsSorted-snoc :
    (x : Change) (xs : List Change)
    → IsSorted by_sequence xs
    → All (λ y. by_sequence x y ≡ false) xs
    → IsSorted by_sequence (xs ++ (x ∷ []))
IsSorted-snoc x [] h k = tt
IsSorted-snoc x (y ∷ []) h k = (k.0, tt)
IsSorted-snoc x (y ∷ z ∷ zs) h k = (h.0, IsSorted-snoc x (z ∷ zs) h.1 k.1)

pub IsNumbered-order :
    (cs : List Change) (bound : ℕ)
    → All (IsNumbered bound) cs
    → IsSorted by_sequence cs
    → order_changes cs ≡ cs
unfolding order_changes sort
IsNumbered-order [] bound h k = refl
IsNumbered-order (c ∷ cs) bound h k =
    let (n, set, below) = h.0 in
    let explicit : any is_explicit (c ∷ cs) ≡ true = ground arith in
    rw explicit (sort_of_IsSorted by_sequence (c ∷ cs) k)

module _ (platform : Platform) (o : Observation) where
  -- Undoing an action finds its path as the action left it.
  undo_change-Finds :
      (k : ChangeKind) (a : Action) (backup : BackupState) (c : Change)
      → a.change.kind ≡ k
      → matches_after a.change (live_state o a.change.path) ≡ true
      → undo_change platform a backup ≡ ok c
      → (c.path ≡ a.change.path)
        × (matches_before (persist_change c) (live_state o a.change.path) ≡ true)
  unfolding undo_change matches_before matches_after new_delete_file new_delete_directory
      new_update_file new_file new_directory persist_change
  undo_change-Finds create_dir a b c e h r = ground arith
  undo_change-Finds create_file a b c e h r = ground arith
  undo_change-Finds update_file a b c e h r = ground arith
  undo_change-Finds delete_file a b c e h r = ground arith
  undo_change-Finds delete_dir a b c e h r = ground arith
  undo_change-Finds (unsupported k) a b c e h r = absurd (ground arith)

  numbered-Finds :
      (c : Change) {p : Bytes}
      → c.path ≡ p
      → matches_before (persist_change c) (live_state o p) ≡ true
      → (n : ℤ) → Finds o (with_sequence c n)
  unfolding matches_before persist_change with_sequence
  numbered-Finds c at finds n =
      subst (λ q. matches_before (persist_change c) (live_state o q) ≡ true) (sym at) finds

  -- What one turn of the loop gives.
  data Turn (count index : ℕ) (a : Action) (own : List Change) : Type 0 where
    none_needed : own ≡ [] → Turn count index a own
    one :
        (c : Change)
        → own ≡ c ∷ []
        → c.path ≡ a.change.path
        → c.sequence ≡ pos ((count - index) * 10)
        → Finds o c
        → Turn count index a own

  undo_action-Turn :
      (count index : ℕ) (a : Action) (own : List Change)
      → (matches_before a.change (live_state o a.change.path) ≡ true)
        ⊎ (matches_after a.change (live_state o a.change.path) ≡ true)
      → undo_action platform o count index a ≡ ok own
      → Turn count index a own
  unfolding undo_action with_sequence
  undo_action-Turn count index a own reachable h =
      elim (Bool-cases (matches_before a.change (live_state o a.change.path))) [
        | inl there ↦ none_needed (ground arith)
        | inr away ↦ elim (Result-cases (undo_change platform a (backup_state o index))) [
          | inr (x, bad) ↦ absurd (ground arith)
          | inl (c, good) ↦
              let (at, finds) =
                undo_change-Finds a.change.kind a (backup_state o index) c refl (ground arith)
                  good in
              one (with_sequence c (pos ((count - index) * 10))) (ground arith) at refl
                (numbered-Finds c at finds _)
        ]
      ]

  -- The changes are in the order of the plan that is made of them, which is from the last action to
  -- the first, and each finds its path as it expects it.
  pub undo_actions-Backwards :
      (count index : ℕ) (actions : List Action) (cs : List Change)
      → index + length actions ≤ count
      → AreSettled o index actions
      → undo_actions platform o count index actions ≡ ok cs
      → Backwards actions cs
        × All (Finds o) cs
        × All (IsNumbered ((count - index) * 10)) cs
        × IsSorted by_sequence cs
  unfolding undo_actions
  undo_actions-Backwards count index [] cs fits settled h =
      let none_left : cs ≡ [] = ground arith in rw none_left (nothing, tt, tt, tt)
  undo_actions-Backwards count index (a ∷ actions) cs fits settled h =
      let (later, rest, more) = >>=-eq-ok (undo_actions platform o count (suc index) actions) _ h in
      let (own, first, joined) = >>=-eq-ok (undo_action platform o count index a) _ more in
      let same : cs ≡ later ++ own = ground arith in
      let (backwards, finds, numbered, sorted) =
        undo_actions-Backwards count (suc index) actions later (ground arith) settled.1 rest in
      let wider : All (IsNumbered ((count - index) * 10)) later =
        All-imp later (λ c (n, set, below). (n, set, ground arith)) numbered in
      elim (undo_action-Turn count index a own settled.0.0 first) [
        | none_needed e ↦ rw (same, e, append-nil later) (left_out backwards, finds, wider, sorted)
        | one c e at number here ↦
            let last : IsNumbered ((count - index) * 10) c =
              ((count - index) * 10 - 1, number ∙ ap pos (ground arith), ground arith) in
            rw (same, e)
              (
                undone c at backwards,
                All-append (Finds o) later (c ∷ []) finds (here, tt),
                All-append (IsNumbered ((count - index) * 10)) later (c ∷ []) wider (last, tt),
                IsSorted-snoc c later sorted
                    (All-imp later (λ y (n, set, below). rw (number, set) (ground arith)) numbered),
              )
      ]

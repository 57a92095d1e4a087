-- ===== src/Transaction/Recovery/Effect.antt =====
-- What a list of changes does to the observed paths, and when it brings every action's path to
-- where it should be.
use uawp.Base.{
  Bool, true, false, ◌||◌, List, [], ◌∷◌, ◌++◌, ◌≡◌, ◌≢◌, refl, arith, All, Bytes, bytes_eq,
  contains, bytes_beq_iff, ◌==◌, if◌then◌else◌, All-imp, All-zip, All-append, ◌∙◌, ◌⊎◌, sym, inl,
  inr, ap,
}
use uawp.Base.Sort.{any, any-append, sort, any-sort, All-sort}
use uawp.Plan.Change.{
  Change, create_dir, create_file, update_file, delete_file, delete_dir, unsupported,
}
use uawp.Transaction.Record.{Action}
use uawp.Transaction.Validate.Laws.{IsAlone}
use uawp.Transaction.Classify.{PathState, path_missing, path_file, path_directory, path_unsafe}
use uawp.Transaction.Classify.Laws.{paths_of}

-- The state of the path after the change.
abbrev pub effect : Change → PathState
effect c = elim c.kind [
  | create_dir ↦ record { kind = path_directory; sha256 = [] }
  | create_file ↦ record { kind = path_file; sha256 = c.after_sha256 }
  | update_file ↦ record { kind = path_file; sha256 = c.after_sha256 }
  | delete_file ↦ record { kind = path_missing; sha256 = [] }
  | delete_dir ↦ record { kind = path_missing; sha256 = [] }
  | unsupported k ↦ record { kind = path_unsafe; sha256 = [] }
]

-- The states of all paths after the changes, one after the other.
unfoldable pub run : List Change → (Bytes → PathState) → Bytes → PathState
run [] live p = live p
run (c ∷ cs) live p = run cs (λ q. if c.path == q then effect c else live q) p

run_good :
    (good : PathState → Bool) (p : Bytes) (cs : List Change) (live : Bytes → PathState)
    → All (λ c. c.path ≡ p → good (effect c) ≡ true) cs
    → (good (live p) || any (λ c. c.path == p) cs) ≡ true
    → good (run cs live p) ≡ true
unfolding run
run_good good p [] live h k = ground arith
run_good good p (c ∷ cs) live h k =
    run_good good p cs (λ q. if c.path == q then effect c else live q) h.1
      (ground (arith, bytes_beq_iff c.path p, h.0))

-- Paths that no change names keep their state.
pub run_untouched :
    (p : Bytes) (cs : List Change) (live : Bytes → PathState)
    → All (λ c. c.path ≢ p) cs
    → run cs live p ≡ live p
unfolding run
run_untouched p [] live h = refl
run_untouched p (c ∷ cs) live h =
    run_untouched p cs (λ q. if c.path == q then effect c else live q) h.1
    ∙ ground (arith, bytes_beq_iff c.path p, h.0)

module _ (target : Action → PathState → Bool) (live : Bytes → PathState) where
  -- What one action contributes: changes of its own path that reach the target, and none only if
  -- the path is there already.
  abbrev pub Serves : Action → List Change → Type 0
  Serves a own =
      All (λ c. (c.path ≡ a.change.path) × (target a (effect c) ≡ true)) own
      × ((target a (live a.change.path) || any (λ c. c.path == a.change.path) own) ≡ true)

  -- The contributions of the actions, each in front of or behind those of the actions after it.
  pub data Collect : List Action → List Change → Type 0 where
    none_left : Collect [] []
    add :
        {actions : List Action} {a : Action} {cs : List Change} (own later : List Change)
        → Serves a own
        → Collect actions later
        → (cs ≡ own ++ later) ⊎ (cs ≡ later ++ own)
        → Collect (a ∷ actions) cs

  abbrev Hits : Action → Change → Type 0
  Hits a c = c.path ≡ a.change.path → target a (effect c) ≡ true

  -- Every change of a path that only `a` has serves `a`.
  Collect-Hits :
      (a : Action) {actions : List Action} {cs : List Change}
      → Collect actions cs
      → IsAlone actions a
      → All (Hits a) cs
  Collect-Hits a none_left alone = tt
  Collect-Hits a (add {a = b} {cs = cs} own later serves rest order) alone =
      let here : All (Hits a) own =
        All-imp own
          (λ c (at, hits) same.
            let e = alone.0 (sym at ∙ same) in
            cc (ap (λ (x : Action). target x (effect c)) e, hits))
          serves.0 in
      let there = Collect-Hits a rest alone.1 in
      elim order [
        | inl e ↦ rw e (All-append (Hits a) own later here there)
        | inr e ↦ rw e (All-append (Hits a) later own there here)
      ]

  abbrev IsCovered : List Change → Action → Type 0
  IsCovered cs a = (target a (live a.change.path) || any (λ c. c.path == a.change.path) cs) ≡ true

  -- Each action's path is there already or is changed.
  Collect-IsCovered :
      {actions : List Action} {cs : List Change} → Collect actions cs → All (IsCovered cs) actions
  Collect-IsCovered none_left = tt
  Collect-IsCovered (add {actions} {a} {cs} own later serves rest order) =
      let more : (b : Action)
          → any (λ c. c.path == b.change.path) cs
            ≡ (any (λ c. c.path == b.change.path) own || any (λ c. c.path == b.change.path) later) =
        λ b. ground (
          arith,
          any-append (λ (c : Change). c.path == b.change.path) own later,
          any-append (λ (c : Change). c.path == b.change.path) later own,
        ) in
      (
        ground (arith, more a, serves.1),
        All-imp actions (λ b covered. ground (arith, more b)) (Collect-IsCovered rest),
      )

  -- Every change is of an action's path.
  pub Collect-paths :
      (p : Bytes) {actions : List Action} {cs : List Change}
      → Collect actions cs
      → contains (paths_of actions) p ≡ false
      → All (λ c. c.path ≢ p) cs
  Collect-paths p none_left free = tt
  Collect-paths p (add {a = a} {cs = cs} own later serves rest order) free =
      let here : All (λ c. c.path ≢ p) own =
        All-imp own (λ c (at, hits) same. ground (arith, bytes_beq_iff a.change.path p)) serves.0 in
      let there = Collect-paths p rest (ground arith) in
      elim order [
        | inl e ↦ rw e (All-append (λ (c : Change). c.path ≢ p) own later here there)
        | inr e ↦ rw e (All-append (λ (c : Change). c.path ≢ p) later own there here)
      ]

  -- When no two actions share a path, the collected changes bring the path of each action to its
  -- target.
  pub Collect-run :
      {actions : List Action} {cs : List Change}
      → Collect actions cs
      → All (IsAlone actions) actions
      → All (λ a. target a (run cs live a.change.path) ≡ true) actions
  Collect-run {actions} {cs} c alone =
      All-imp actions
        (λ a (own, covered).
          run_good (target a) a.change.path cs live (Collect-Hits a c own) covered)
        (All-zip (IsAlone actions) (IsCovered cs) actions alone (Collect-IsCovered c))

  -- So do they after sorting.
  pub Collect-run-sort :
      (less : Change → Change → Bool) {actions : List Action} {cs : List Change}
      → Collect actions cs
      → All (IsAlone actions) actions
      → All (λ a. target a (run (sort less cs) live a.change.path) ≡ true) actions
  Collect-run-sort less {actions} {cs} c alone =
      All-imp actions
        (λ a (own, covered).
          run_good (target a) a.change.path (sort less cs) live
            (All-sort less (Hits a) cs (Collect-Hits a c own))
            (ground (arith, covered, any-sort less (λ (c : Change). c.path == a.change.path) cs)))
        (All-zip (IsAlone actions) (IsCovered cs) actions alone (Collect-IsCovered c))

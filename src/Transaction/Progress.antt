-- ===== src/Transaction/Progress.antt =====
-- internal/transaction/types.go: the states that an action goes through.
use uawp.Base.{ℕ, suc, ◌+◌, ◌≤◌, ◌≡◌, Bool, true, false, arith, ap, refl}
use uawp.Transaction.Record.{
  ActionState, pending, in_progress, applied, verified, rolled_back, rollback_verified,
}

unfoldable pub can_transition : ActionState → ActionState → Bool
can_transition pending to = elim to [ in_progress ↦ true | _ ↦ false ]
can_transition in_progress to = elim to [ applied ↦ true | rolled_back ↦ true | _ ↦ false ]
can_transition applied to = elim to [ verified ↦ true | rolled_back ↦ true | _ ↦ false ]
can_transition verified to = elim to [ rolled_back ↦ true | _ ↦ false ]
can_transition rolled_back to = elim to [ rollback_verified ↦ true | _ ↦ false ]
can_transition rollback_verified to = false
can_transition (ActionState.unknown s) to = false

-- `n` allowed transitions, one after the other.
pub data Trail : ℕ → ActionState → ActionState → Type 0 where
  here : (s : ActionState) → Trail 0 s s
  step : {n : ℕ} {s t u : ActionState} → can_transition s t ≡ true → Trail n t u → Trail (suc n) s u

-- How far a state is along the longest way.
abbrev rank : ActionState → ℕ
rank pending = 0
rank in_progress = 1
rank applied = 2
rank verified = 3
rank rolled_back = 4
rank rollback_verified = 5
rank (ActionState.unknown s) = 0

can_transition-rank : (s t : ActionState) → can_transition s t ≡ true → rank s + 1 ≤ rank t
unfolding can_transition
can_transition-rank s t h = ground arith

Trail-rank : {n : ℕ} {s t : ActionState} → Trail n s t → rank s + n ≤ rank t
Trail-rank (here s) = omega arith
Trail-rank (step {s = s} {t = t} allowed rest) =
    omega (arith, can_transition-rank s t allowed, Trail-rank rest)

rank_bound : (s : ActionState) → rank s ≤ 5
rank_bound s = ground arith

-- A transition to a state that is not past `verified` climbs by one.
can_transition-climb :
    (s t : ActionState) → can_transition s t ≡ true → rank t ≤ 3 → rank t ≡ rank s + 1
unfolding can_transition
can_transition-climb s t h k = ground arith

Trail-verified : {n : ℕ} {s t : ActionState} → t ≡ verified → Trail n s t → n + rank s ≡ 3
Trail-verified e (here s) = omega (arith, ap rank e)
Trail-verified e (step {s = s} {t = t} allowed rest) =
    let done = Trail-verified e rest in omega (arith, can_transition-climb s t allowed)

-- A recorded action moves at most five times, never comes back to a state that it has left, and
-- is verified in exactly three moves from the start.
pub Trail-bound :
    {n loop way : ℕ} {s t u : ActionState}
    → Trail n s t
    → Trail loop u u
    → Trail way pending verified
    → (n ≤ 5) × (loop ≡ 0) × (way ≡ 3)
Trail-bound {s = s} {t = t} trail back through = (
  omega (arith, rank_bound t, Trail-rank trail),
  omega (arith, Trail-rank back),
  omega (arith, Trail-verified refl through),
)

-- ===== src/Migration/Registry/Resolve.antt =====
-- What a built registry resolves: the walk between two versions, where there is one.
use uawp.Base.{
  ◌≡◌, ◌≢◌, refl, ◌<◌, ◌↔◌, arith, ℕ, zero, suc, false, some, List, [], ◌∷◌, Bytes, ok, err,
  bytes_eq, bytes_beq_iff, All, All-imp, inl, inr, Option-cases, Result-cases, length, subst, sym,
}
use uawp.Migration.Version.{Version, parse_version, compare_version, compare_version_order}
use uawp.Migration.Registry.{
  Step, Registry, cycle, out_of_fuel, step_at, version_or, version_or_zero, is_positive,
  new_registry, resolve_loop, resolve,
}
use uawp.Migration.Registry.Walk.{
  IsEarlier, IsForward, IsWalk, unseen, unseen-length, unseen-decreases, contains-IsEarlier,
  IsWalk-IsEarlier, step_at-IsEarlier, IsEarlier-trans, IsEarlier-irrefl,
}
use uawp.Migration.Registry.Laws.{new_registry_iff}

-- A version that is no later than another passes the test of the code.
not_past :
    (a b : Bytes) (w : Version)
    → IsEarlier a b
    → parse_version b ≡ ok w
    → is_positive (compare_version (version_or_zero (parse_version a)) w) ≡ false
not_past a b w (u, v, p, q, before) e = ground (arith, (compare_version_order u v).0.1 before)

IsWalk-not_past :
    (steps : List Step) (from to : Bytes) (w : Version) (path : List Step)
    → All IsForward steps
    → parse_version to ≡ ok w
    → IsWalk steps from to path
    → is_positive (compare_version (version_or_zero (parse_version from)) w) ≡ false
IsWalk-not_past steps from to w [] hs e h = ground (arith, (compare_version_order w w).1.1 refl)
IsWalk-not_past steps from to w (s ∷ path) hs e h =
    not_past from to w (IsWalk-IsEarlier steps from to s path hs h) e

module _ (steps : List Step) (hs : All IsForward steps) (to : Bytes) (w : Version)
    (parsed : parse_version to ≡ ok w) where
  seen_after_step :
      (seen : List Bytes) (current : Bytes) (s : Step)
      → All (λ a. IsEarlier a current) seen
      → step_at steps current ≡ some s
      → All (λ a. IsEarlier a s.to) (current ∷ seen)
  seen_after_step seen current s earlier e = (
    step_at-IsEarlier steps current s hs e,
    All-imp seen (λ a h. IsEarlier-trans a current s.to h (step_at-IsEarlier steps current s hs e))
        earlier,
  )

  resolve_loop_of :
      (fuel : ℕ) (seen : List Bytes) (current : Bytes) (path : List Step)
      → All (λ a. IsEarlier a current) seen
      → unseen seen steps < fuel
      → IsWalk steps current to path
      → resolve_loop fuel steps to w seen current ≡ ok path
  unfolding resolve_loop
  resolve_loop_of zero seen current path earlier enough h = ground arith
  resolve_loop_of (suc fuel) seen current [] earlier enough h =
      ground (arith, bytes_beq_iff current to)
  resolve_loop_of (suc fuel) seen current (s ∷ path) earlier enough h =
      let new = contains-IsEarlier seen current earlier in
      ground (
        arith,
        bytes_beq_iff current to,
        λ (e : current ≡ to).
            IsEarlier-irrefl to
              (subst (λ a. IsEarlier a to) e (IsWalk-IsEarlier steps current to s path hs h)),
        new,
        h.0,
        unseen-decreases current seen steps s new h.0,
        IsWalk-not_past steps s.to to w path hs parsed h.1,
        resolve_loop_of fuel (current ∷ seen) s.to path
            (seen_after_step seen current s earlier h.0),
        h.1,
      )

  resolve_loop_total :
      (fuel : ℕ) (seen : List Bytes) (current : Bytes)
      → All (λ a. IsEarlier a current) seen
      → unseen seen steps < fuel
      → (resolve_loop fuel steps to w seen current ≢ err cycle)
        × (resolve_loop fuel steps to w seen current ≢ err out_of_fuel)
  unfolding resolve_loop
  resolve_loop_total zero seen current earlier enough = ground arith
  resolve_loop_total (suc fuel) seen current earlier enough =
      let new = contains-IsEarlier seen current earlier in
      elim (Option-cases (step_at steps current)) [
        | inl e ↦ ground (arith, new)
        | inr (s, e) ↦ ground (
          arith,
          new,
          unseen-decreases current seen steps s new e,
          resolve_loop_total fuel (current ∷ seen) s.to (seen_after_step seen current s earlier e),
        )
      ]

resolve_loop_cons :
    (fuel : ℕ) (steps : List Step) (to : Bytes) (w : Version) (seen : List Bytes) (current : Bytes)
    (s : Step) (path : List Step)
    → resolve_loop (suc fuel) steps to w seen current ≡ ok (s ∷ path)
    → (step_at steps current ≡ some s)
      × (resolve_loop fuel steps to w (current ∷ seen) s.to ≡ ok path)
unfolding resolve_loop
resolve_loop_cons fuel steps to w seen current s path h =
    elim (Option-cases (step_at steps current)) [
      | inl e ↦ ground arith
      | inr (t, e) ↦
          ground (arith, Result-cases (resolve_loop fuel steps to w (current ∷ seen) t.to))
    ]

resolve_loop_nil :
    (fuel : ℕ) (steps : List Step) (to : Bytes) (w : Version) (seen : List Bytes) (current : Bytes)
    → resolve_loop (suc fuel) steps to w seen current ≡ ok []
    → current ≡ to
unfolding resolve_loop
resolve_loop_nil fuel steps to w seen current h = elim (Option-cases (step_at steps current)) [
  | inl e ↦ ground (arith, bytes_beq_iff current to)
  | inr (t, e) ↦ ground (
    arith,
    bytes_beq_iff current to,
    Result-cases (resolve_loop fuel steps to w (current ∷ seen) t.to),
  )
]

resolve_loop_sound :
    (fuel : ℕ) (steps : List Step) (to : Bytes) (w : Version) (seen : List Bytes) (current : Bytes)
    (path : List Step)
    → resolve_loop fuel steps to w seen current ≡ ok path
    → IsWalk steps current to path
unfolding resolve_loop
resolve_loop_sound zero steps to w seen current path h = ground arith
resolve_loop_sound (suc fuel) steps to w seen current [] h =
    resolve_loop_nil fuel steps to w seen current h
resolve_loop_sound (suc fuel) steps to w seen current (s ∷ path) h =
    let (found, rest) = resolve_loop_cons fuel steps to w seen current s path h in
    (found, resolve_loop_sound fuel steps to w (current ∷ seen) s.to path rest)

-- The text is a version.
abbrev pub IsVersion : Bytes → Type 0
IsVersion value = (v : Version) × (parse_version value ≡ ok v)

IsForward-of :
    (steps : List Step) (r : Registry) → new_registry steps ≡ ok r → All IsForward r.by_source
IsForward-of steps r built =
    let (same, hs, distinct) = (new_registry_iff steps r).0 built in
    subst (All IsForward) (sym same) hs

resolve_sound :
    (r : Registry) (from to : Bytes) (path : List Step)
    → resolve r from to ≡ ok path
    → IsVersion from × IsVersion to × IsWalk r.by_source from to path
unfolding resolve version_or
resolve_sound r from to path h = elim (Result-cases (parse_version from)) [
  | inl (v, p) ↦ elim (Result-cases (parse_version to)) [
    | inl (w, q) ↦ (
      (v, p),
      (w, q),
      resolve_loop_sound (suc (length r.by_source)) r.by_source to w [] from path (ground arith),
    )
    | inr (e, q) ↦ ground arith
  ]
  | inr (e, p) ↦ ground arith
]

-- In a registry that was built, resolving two texts gives a path exactly when both are versions and
-- the path is the walk along registered steps from the first to the second.
pub resolve_iff :
    (steps : List Step) (r : Registry) (from to : Bytes) (path : List Step)
    → new_registry steps ≡ ok r
    → (resolve r from to ≡ ok path)
      ↔ IsVersion from × IsVersion to × IsWalk r.by_source from to path
unfolding resolve version_or
resolve_iff steps r from to path built = (
  resolve_sound r from to path,
  λ h.
      let ((v, p), (w, q), walk) = h in
      let hs = IsForward-of steps r built in
      ground (
        arith,
        IsWalk-not_past r.by_source from to w path hs q walk,
        resolve_loop_of r.by_source hs to w q (suc (length r.by_source)) [] from path tt
            (ground (arith, unseen-length [] r.by_source)) walk,
      ),
)

-- In a registry that was built, resolving never reports a cycle, and its loop takes at most one
-- turn more than there are steps.
pub resolve_total :
    (steps : List Step) (r : Registry) (from to : Bytes)
    → new_registry steps ≡ ok r
    → (resolve r from to ≢ err cycle) × (resolve r from to ≢ err out_of_fuel)
unfolding resolve version_or
resolve_total steps r from to built = elim (Result-cases (parse_version from)) [
  | inl (v, p) ↦ elim (Result-cases (parse_version to)) [
    | inl (w, q) ↦ ground (
      arith,
      resolve_loop_total r.by_source (IsForward-of steps r built) to w q (suc (length r.by_source))
          [] from tt (ground (arith, unseen-length [] r.by_source)),
    )
    | inr (e, q) ↦ ground arith
  ]
  | inr (e, p) ↦ ground arith
]

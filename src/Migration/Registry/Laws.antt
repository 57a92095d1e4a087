-- ===== src/Migration/Registry/Laws.antt =====
-- What a built registry holds, and what it resolves.
use uawp.Base.{
  AreDistinct, ◌>>◌, length, >>=-eq-ok, ◌≡◌, refl, ◌<◌, ◌↔◌, arith, ℕ, zero, suc, none, List, [],
  ◌∷◌, ◌++◌, Bytes, ok, bytes_eq, bytes_beq_iff, All, All-imp, inl, inr, Option-cases, Result-cases,
  ◌≢◌, All-zip,
}
use mathlib.Core.List.{append-nil, append_assoc}
use uawp.Base.Sort.{sort}
use uawp.Base.Int.{negsuc}
use uawp.Migration.Version.{
  Version, parse_version, compare_version, compare_version_order, compare_version_cases,
}
use uawp.Migration.Registry.{
  Step, step_at, version_or, register, follow, follow_all, new_registry, Registry, by_versions,
}
use uawp.Migration.Registry.Walk.{
  IsEarlier, IsForward, unseen, unseen-length, unseen-decreases, contains-IsEarlier,
  step_at-IsEarlier, IsEarlier-trans,
}

-- Following forward steps with enough fuel meets neither a cycle nor the end of the fuel.
follow_of :
    (fuel : ℕ) (steps : List Step) (seen : List Bytes) (current : Bytes)
    → All IsForward steps
    → All (λ a. IsEarlier a current) seen
    → unseen seen steps < fuel
    → follow fuel steps seen current ≡ ok tt
unfolding follow
follow_of zero steps seen current hs earlier enough = ground arith
follow_of (suc fuel) steps seen current hs earlier enough =
    elim (Option-cases (step_at steps current)) [
      | inl e ↦ ground (arith, contains-IsEarlier seen current earlier)
      | inr (s, e) ↦ ground (
        arith,
        contains-IsEarlier seen current earlier,
        unseen-decreases current seen steps s (contains-IsEarlier seen current earlier) e,
        follow_of fuel steps (current ∷ seen) s.to hs (
          step_at-IsEarlier steps current s hs e,
          All-imp seen
              (λ a h. IsEarlier-trans a current s.to h (step_at-IsEarlier steps current s hs e))
              earlier,
        ),
      )
    ]

follow_all_of : (steps rest : List Step) → All IsForward steps → follow_all steps rest ≡ ok tt
unfolding follow_all
follow_all_of steps [] hs = refl
follow_all_of steps (s ∷ rest) hs = ground (
  arith,
  follow_of (suc (length steps)) steps [] s.from hs tt (ground (arith, unseen-length [] steps)),
  follow_all_of steps rest hs,
)

-- No two steps have the same source.
abbrev pub HaveOwnSources : List Step → Type 0
HaveOwnSources steps = AreDistinct (λ (s : Step). s.from) steps

step_at-append :
    (done : List Step) (s : Step) (c : Bytes)
    → (step_at (done ++ (s ∷ [])) c ≡ none) ↔ (step_at done c ≡ none) × (s.from ≢ c)
unfolding step_at
step_at-append [] s c = ground (arith, bytes_beq_iff s.from c)
step_at-append (x ∷ done) s c = ground (arith, step_at-append done s c)

IsForward-iff :
    (s : Step) (v w : Version)
    → parse_version s.from ≡ ok v
    → parse_version s.to ≡ ok w
    → IsForward s ↔ (compare_version v w ≡ negsuc 0)
IsForward-iff s v w p q = (
  λ (x, y, px, py, b). (compare_version_order v w).0.1 (ground arith),
  λ h. (v, w, p, q, (compare_version_order v w).0.0 h),
)

-- Forward steps, told by their versions as the code compares them.
IsForward-compare_version :
    (s : Step)
    → IsForward s
    → (v : Version) × (w : Version) × (parse_version s.from ≡ ok v)
      × (parse_version s.to ≡ ok w)
      × (compare_version v w ≡ negsuc 0)
IsForward-compare_version s (v, w, p, q, b) = (v, w, p, q, (compare_version_order v w).0.1 b)

-- One turn of the registering loop.
register_cons_of :
    (done steps out : List Step) (s : Step)
    → register done (s ∷ steps) ≡ ok out
    → IsForward s × (step_at done s.from ≡ none) × (register (done ++ (s ∷ [])) steps ≡ ok out)
unfolding register version_or
register_cons_of done steps out s h = elim (Result-cases (parse_version s.from)) [
  | inl (v, p) ↦ elim (Result-cases (parse_version s.to)) [
    | inl (w, q) ↦ (
      (IsForward-iff s v w p q).1 (ground (arith, compare_version_cases v w)),
      ground arith,
      ground arith,
    )
    | inr (e, q) ↦ ground arith
  ]
  | inr (e, p) ↦ ground arith
]

register_cons :
    (done steps : List Step) (s : Step)
    → IsForward s
    → step_at done s.from ≡ none
    → register done (s ∷ steps) ≡ register (done ++ (s ∷ [])) steps
unfolding register version_or
register_cons done steps s forward free = ground (arith, IsForward-compare_version s forward)

-- The steps can be registered after those done.
abbrev Joins : List Step → List Step → Type 0
Joins done steps =
    All (λ s. IsForward s × (step_at done s.from ≡ none)) steps × HaveOwnSources steps

Joins-cons_iff :
    (done steps : List Step) (s : Step)
    → Joins done (s ∷ steps)
      ↔ IsForward s × (step_at done s.from ≡ none) × Joins (done ++ (s ∷ [])) steps
Joins-cons_iff done steps s = (
  λ h. (
    h.0.0.0,
    h.0.0.1,
    (
      All-imp steps (λ t k. (k.0.0, (step_at-append done s t.from).1 (k.0.1, k.1)))
          (All-zip (λ t. IsForward t × (step_at done t.from ≡ none)) (λ (t : Step). s.from ≢ t.from)
            steps h.0.1 h.1.0),
      h.1.1,
    ),
  ),
  λ h. (
    ((h.0, h.1), All-imp steps (λ t k. (k.0, ((step_at-append done s t.from).0 k.1).0)) h.2.0),
    (All-imp steps (λ t k. ((step_at-append done s t.from).0 k.1).1) h.2.0, h.2.1),
  ),
)

register_iff :
    (done steps out : List Step)
    → (register done steps ≡ ok out) ↔ (out ≡ done ++ steps) × Joins done steps
unfolding register
register_iff done [] out = ground (arith, append-nil done)
register_iff done (s ∷ steps) out = ground (
  arith,
  register_cons_of done steps out s,
  register_cons done steps s,
  Joins-cons_iff done steps s,
  register_iff (done ++ (s ∷ [])) steps out,
  append_assoc done (s ∷ []) steps,
)

registered_of :
    (steps out : List Step)
    → register [] steps ≡ ok out
    → (out ≡ steps) × All IsForward steps × HaveOwnSources steps
registered_of steps out h = (
  ((register_iff [] steps out).0 h).0,
  All-imp steps (λ t k. k.0) ((register_iff [] steps out).0 h).1.0,
  ((register_iff [] steps out).0 h).1.1,
)

registered :
    (steps : List Step) → All IsForward steps → HaveOwnSources steps → register [] steps ≡ ok steps
unfolding step_at
registered steps hs distinct =
    (register_iff [] steps steps).1 (refl, (All-imp steps (λ t k. (k, refl)) hs, distinct))

-- A registry is built exactly from forward steps with distinct sources, and holds them sorted: the
-- search for cycles never finds one.
pub new_registry_iff :
    (steps : List Step) (r : Registry)
    → (new_registry steps ≡ ok r)
      ↔ (r.by_source ≡ sort by_versions steps)
        × All IsForward (sort by_versions steps)
        × HaveOwnSources (sort by_versions steps)
unfolding new_registry
new_registry_iff steps r = (
  λ h.
      let sorted = sort by_versions steps in
      let (out, e, k) =
        >>=-eq-ok (register [] sorted)
          (λ done. (follow_all done done >> ok (record { by_source = done }))) h in
      let (same, hs, distinct) = registered_of sorted out e in
      (ground (arith, k, same, follow_all_of sorted sorted hs), hs, distinct),
  λ h.
      let sorted = sort by_versions steps in
      rw (registered sorted h.1 h.2, follow_all_of sorted sorted h.1) (ground (arith)),
)

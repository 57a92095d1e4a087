-- ===== src/Core/Ownership/Transition/Laws.antt =====
-- Exactly when a claim is acquired or released, and what the new claim is.
use uawp.Base.{
  ◌+◌, ◌≤◌, ◌<◌, ◌≡◌, refl, ◌↔◌, ◌≢◌, none, some, arith, inl, inr, [], nat_eq, bytes_eq, ok,
  bytes_beq_iff, is_empty, Bytes, trim_space, subst, false, ◌∷◌, sym,
}
use uawp.Core.Ownership.{
  Ownership, active, released, Time, Actor, validate_ownership, validate_active_actor,
}
use uawp.Core.Ownership.Validity.{IsValid, validate_ownership_iff, HasLifetime}
use uawp.Core.Ownership.Transition.{
  AcquireRequest, ReleaseRequest, max_uint64, claim, acquire, released_claim, release,
}

-- The claim is what the request asks for, one generation on.
pub record IsGranted (current : Ownership) (request : AcquireRequest) (next : Ownership)
    : Type 0 where
  pub status : next.status ≡ active
  pub worker_id : next.worker_id ≡ trim_space request.worker_id
  pub session_id : next.session_id ≡ trim_space request.session_id
  pub generation : next.generation ≡ current.generation + 1
  pub agent : next.agent ≡ trim_space request.agent
  pub acquired_at : next.acquired_at ≡ request.at
  pub released_at : next.released_at ≡ none
  pub purpose : next.purpose ≡ trim_space request.purpose

claim-IsGranted :
    (c : Ownership) (r : AcquireRequest) → c.generation < max_uint64 → IsGranted c r (claim c r)
unfolding claim
claim-IsGranted c r h = ground arith

IsGranted-claim :
    (c n : Ownership) (r : AcquireRequest)
    → c.generation < max_uint64
    → IsGranted c r n
    → n ≡ claim c r
unfolding claim
IsGranted-claim c n r h g = ground arith

acquire-steps :
    (current next : Ownership) (request : AcquireRequest)
    → current.generation ≤ max_uint64
    → (acquire current request ≡ ok next) ↔ (
        (validate_ownership current ≡ ok tt)
        × (current.status ≡ released)
        × (current.generation < max_uint64)
        × (validate_ownership next ≡ ok tt)
        × (next ≡ claim current request))
unfolding acquire
acquire-steps current next request fits = ground arith

-- `Acquire` grants a claim exactly when the current one is valid, RELEASED and below the last
-- generation, and the granted claim (the trimmed request, one generation on) is itself valid.
pub acquire_iff :
    (current next : Ownership) (request : AcquireRequest)
    → current.generation ≤ max_uint64
    → (acquire current request ≡ ok next) ↔ (
        IsValid current
        × (current.status ≡ released)
        × (current.generation < max_uint64)
        × IsValid next
        × IsGranted current request next)
acquire_iff current next request fits =
    let e = acquire-steps current next request fits in
    (
      (λ h.
          let (v, s, l, v', p) = e.0 h in
          (
            (validate_ownership_iff current).0 v,
            s,
            l,
            (validate_ownership_iff next).0 v',
            subst (IsGranted current request) (sym p) (claim-IsGranted current request l),
          )),
      (λ (v, s, l, v', g). e.1 (
        (validate_ownership_iff current).1 v,
        s,
        l,
        (validate_ownership_iff next).1 v',
        IsGranted-claim current next request l g,
      )),
    )

-- The actor's trimmed identifiers are those of the claim.
pub record Holds (a : Actor) (o : Ownership) : Type 0 where
  pub worker : o.worker_id ≡ trim_space a.worker_id
  pub session : o.session_id ≡ trim_space a.session_id
  pub generation : o.generation ≡ a.generation

validate_active_actor-steps :
    (o : Ownership) (a : Actor)
    → (validate_active_actor o a ≡ ok tt) ↔ (
        (validate_ownership o ≡ ok tt)
        × (o.status ≡ active)
        × (is_empty o.worker_id ≡ false)
        × (is_empty o.session_id ≡ false)
        × (o.generation ≢ 0)
        × Holds a o)
unfolding validate_active_actor
validate_active_actor-steps o a = ground (
  arith,
  bytes_beq_iff o.worker_id (trim_space a.worker_id),
  bytes_beq_iff o.session_id (trim_space a.session_id),
)

-- A blank text is empty after trimming.
nonempty_of_trim : (s : Bytes) → trim_space s ≢ [] → is_empty s ≡ false
unfolding trim_space
nonempty_of_trim [] h = absurd (h refl)
nonempty_of_trim (x ∷ xs) h = refl

session_of_active :
    (o : Ownership)
    → o.status ≡ active
    → HasLifetime o
    → (trim_space o.session_id ≢ []) × (o.generation ≢ 0)
session_of_active o a (inl h) = (h.1, h.2)
session_of_active o a (inr h) = ground arith

-- An actor may write exactly when the claim is valid, ACTIVE and the actor's own.
pub validate_active_actor_iff :
    (o : Ownership) (a : Actor)
    → (validate_active_actor o a ≡ ok tt) ↔ (IsValid o × (o.status ≡ active) × Holds a o)
validate_active_actor_iff o a =
    let e = validate_active_actor-steps o a in
    (
      (λ h. let (v, s, w, i, g, k) = e.0 h in ((validate_ownership_iff o).0 v, s, k)),
      (λ (v, s, k).
          let (i, g) = session_of_active o s v.lifetime in
          e.1 (
            (validate_ownership_iff o).1 v,
            s,
            nonempty_of_trim o.worker_id v.worker,
            nonempty_of_trim o.session_id i,
            g,
            k,
          )),
    )

-- The release of a valid ACTIVE claim is valid unless it precedes the acquisition.
pub released_claim-IsValid :
    (o : Ownership) (t : Time)
    → IsValid o
    → o.status ≡ active
    → (IsValid (released_claim o t)) ↔ (o.acquired_at.instant ≤ t.instant)
unfolding released_claim
released_claim-IsValid o t v s = ground arith

-- `Release` succeeds exactly for the actor who holds the valid ACTIVE claim, at a time that is
-- not before its acquisition; it changes the status and the release time and nothing else.
pub release_iff :
    (current next : Ownership) (request : ReleaseRequest)
    → (release current request ≡ ok next) ↔ (
        IsValid current
        × (current.status ≡ active)
        × Holds request.actor current
        × (current.acquired_at.instant ≤ request.at.instant)
        × (next ≡ record current { status = released; released_at = some request.at }))
unfolding release
release_iff current next request = ground (
  arith,
  validate_ownership_iff current,
  validate_ownership_iff (released_claim current request.at),
  validate_active_actor_iff current request.actor,
  released_claim-IsValid current request.at,
)

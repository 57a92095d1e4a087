-- ===== src/Core/Ownership/Fencing.antt =====
-- A claim is a fence: what one Session was granted is refused once the claim has moved on.
use uawp.Base.{ℕ, ◌≤◌, ◌<◌, ◌≡◌, arith, ◌⊎◌, nat_eq, bytes_eq, ok, bytes_beq_iff, trim_space}
use uawp.Core.Ownership.{Ownership, active, released, Actor, validate_active_actor}
use uawp.Core.Ownership.Transition.{AcquireRequest, ReleaseRequest, max_uint64, acquire, release}
use uawp.Core.Ownership.Recovery.{RecoveryRequest, RecoveryAudit, recover_stale_ownership}

-- One successful operation on the claim.
pub data Step (o p : Ownership) : Type 0 where
  acquired : (request : AcquireRequest) → acquire o request ≡ ok p → Step o p
  freed : (request : ReleaseRequest) → release o request ≡ ok p → Step o p
  recovered :
      (request : RecoveryRequest) (audit : RecoveryAudit)
      → recover_stale_ownership o request ≡ ok (p, audit)
      → Step o p

pub data Reach (o : Ownership) : Ownership → Type 0 where
  here : Reach o o
  next : {p q : Ownership} → Reach o p → Step p q → Reach o q

-- `Generation` is a uint64.
abbrev pub InRange : Ownership → Type 0
InRange o = o.generation ≤ max_uint64

-- What the claim may be after the claim of generation `g` has been left.
abbrev IsPast : ℕ → Ownership → Type 0
IsPast g o = (g ≤ o.generation) × ((o.status ≡ released) ⊎ (g < o.generation))

Step-InRange : {o p : Ownership} → Step o p → InRange o → InRange p
unfolding acquire release recover_stale_ownership
Step-InRange (acquired r e) h = ground arith
Step-InRange (freed r e) h = ground arith
Step-InRange (recovered r a e) h = ground arith

Step-IsPast : {o p : Ownership} (g : ℕ) → Step o p → InRange o → IsPast g o → IsPast g p
unfolding acquire release recover_stale_ownership
Step-IsPast g (acquired r e) h k = ground arith
Step-IsPast g (freed r e) h k = ground arith
Step-IsPast g (recovered r a e) h k = ground arith

leave-IsPast : {o p : Ownership} → o.status ≡ active → InRange o → Step o p → IsPast o.generation p
unfolding acquire release recover_stale_ownership
leave-IsPast s h (acquired r e) = ground arith
leave-IsPast s h (freed r e) = ground arith
leave-IsPast s h (recovered r a e) = ground arith

Reach-IsPast :
    {o p : Ownership} (g : ℕ) → Reach o p → InRange o → IsPast g o → InRange p × IsPast g p
Reach-IsPast g here h k = (h, k)
Reach-IsPast g (next r s) h k =
    let (range, past) = Reach-IsPast g r h k in (Step-InRange s range, Step-IsPast g s range past)

-- Whoever is accepted holds the claim: ACTIVE, and of the actor's own identifiers.
accepted_holds :
    (o : Ownership) (a : Actor)
    → validate_active_actor o a ≡ ok tt
    → (o.status ≡ active)
      × (o.worker_id ≡ trim_space a.worker_id)
      × (o.session_id ≡ trim_space a.session_id)
      × (o.generation ≡ a.generation)
unfolding validate_active_actor
accepted_holds o a h = ground (
  arith,
  bytes_beq_iff o.worker_id (trim_space a.worker_id),
  bytes_beq_iff o.session_id (trim_space a.session_id),
)

-- In any history, an actor accepted after the claim has been left by at least one operation has a
-- greater generation than one accepted before: the old Session is refused from then on.
pub later_accepted_greater :
    {o p q : Ownership} (a b : Actor)
    → InRange o
    → validate_active_actor o a ≡ ok tt
    → Step o p
    → Reach p q
    → validate_active_actor q b ≡ ok tt
    → a.generation < b.generation
later_accepted_greater {o} {p} {q} a b range was s r is =
    let (o_active, _, _, o_gen) = accepted_holds o a was in
    let (q_active, _, _, q_gen) = accepted_holds q b is in
    let (_, past) =
      Reach-IsPast o.generation r (Step-InRange s range) (leave-IsPast o_active range s) in
    ground arith

-- At any moment all actors that the claim accepts are one: after trimming they have the same
-- worker, Session and generation.
single_active_worker :
    (o : Ownership) (a b : Actor)
    → validate_active_actor o a ≡ ok tt
    → validate_active_actor o b ≡ ok tt
    → (trim_space a.worker_id ≡ trim_space b.worker_id)
      × (trim_space a.session_id ≡ trim_space b.session_id)
      × (a.generation ≡ b.generation)
single_active_worker o a b h k =
    let (_, w, s, g) = accepted_holds o a h in
    let (_, w', s', g') = accepted_holds o b k in (cc, cc, cc)

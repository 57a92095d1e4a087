-- ===== src/Core/Ownership/Tests.antt =====
-- Runs of the ownership code, and the theorems at concrete claims.
use uawp.Base.{
  ◌≡◌, refl, codes, trim_space, equal_fold, ◌∷◌, [], none, some, ok, bytes_beq, ℕ, ◌+◌, ◌↔◌, ◌<◌,
  err, contains_any, Result, ◌≢◌, arith, ◌≤◌,
}
use uawp.Core.Ownership.{
  Ownership, Time, Actor, active, released, validate_ownership, zero_instant, is_zero, before,
  is_long_or_multiline, check_release_time, validate_active_actor, session_reserved, not_owner,
  already_active, OwnershipError,
}
use uawp.Core.Ownership.Transition.{AcquireRequest, acquire, release, max_uint64}
use uawp.Core.Ownership.Recovery.{recover_stale_ownership, RecoveryRequest, RecoveryAudit}
use uawp.Core.Ownership.Fencing.{later_accepted_greater, freed, next, here, acquired}
use uawp.Core.Ownership.Validity.{IsValid, validate_ownership_iff}
use uawp.Core.Ownership.Transition.Laws.{Holds, IsGranted, release_iff, acquire_iff}
use uawp.Core.Ownership.Recovery.Laws.{Records, recover_stale_ownership_iff}

trim_both_ends : trim_space (codes " \t a b\n") ≡ codes "a b"
unfolding trim_space
trim_both_ends = refl

trim_no_break_space : trim_space (0xc2 ∷ 0xa0 ∷ 97 ∷ 0xe2 ∷ 0x80 ∷ 0xa8 ∷ []) ≡ codes "a"
unfolding trim_space
trim_no_break_space = refl

trim_keeps_other_runes : trim_space (0xc2 ∷ 0xa1 ∷ []) ≡ 0xc2 ∷ 0xa1 ∷ []
unfolding trim_space
trim_keeps_other_runes = refl

abbrev at : ℕ → Time
at n = record { instant = zero_instant + n; location = 0 }

-- A fresh workspace: released, with neither Session nor generation.
abbrev fresh : Ownership
fresh = record {
  status = released;
  worker_id = codes "init";
  session_id = [];
  generation = 0;
  agent = codes "uawp";
  acquired_at = at 1;
  released_at = some (at 1);
  purpose = codes "init";
}

abbrev request : AcquireRequest
request = record {
  worker_id = codes " w1 ";
  session_id = codes "s1";
  agent = codes "codex";
  purpose = codes "work";
  at = at 5;
}

abbrev held : Ownership
held = record {
  status = active;
  worker_id = codes "w1";
  session_id = codes "s1";
  generation = 1;
  agent = codes "codex";
  acquired_at = at 5;
  released_at = none;
  purpose = codes "work";
}

abbrev freed_claim : Ownership
freed_claim = record held { status = released; released_at = some (at 9) }

abbrev worker : Actor
worker = record { worker_id = codes "w1 "; session_id = codes "s1"; generation = 1 }

-- Unfolding this opens all that a run calls.
valid : Ownership → Result OwnershipError (Unit {0})
unfolding validate_ownership check_release_time is_zero before is_long_or_multiline contains_any
    trim_space equal_fold bytes_beq
valid = validate_ownership

acquire-fresh : acquire fresh request ≡ ok held
unfolding acquire valid
acquire-fresh = refl

acquire_twice : acquire held request ≡ err already_active
unfolding acquire valid
acquire_twice = refl

reserved_session :
    validate_ownership (record held { session_id = codes "None" }) ≡ err session_reserved
unfolding valid
reserved_session = refl

release_held : release held (record { actor = worker; at = at 9 }) ≡ ok freed_claim
unfolding release validate_active_actor valid
release_held = refl

acquire_again :
    acquire freed_claim (record request { at = at 12 })
    ≡ ok (record held { generation = 2; acquired_at = at 12 })
unfolding acquire valid
acquire_again = refl

worker_holds : validate_active_actor held worker ≡ ok tt
unfolding validate_active_actor valid
worker_holds = refl

padded_holds : validate_active_actor held (record worker { worker_id = codes " w1" }) ≡ ok tt
unfolding validate_active_actor valid
padded_holds = refl

abbrev later_worker : Actor
later_worker = record worker { generation = 2 }

abbrev held_again : Ownership
held_again = record held { generation = 2; acquired_at = at 12 }

later_worker_holds : validate_active_actor held_again later_worker ≡ ok tt
unfolding validate_active_actor valid
later_worker_holds = refl

old_worker_refused : validate_active_actor held_again worker ≡ err not_owner
unfolding validate_active_actor valid
old_worker_refused = refl

abbrev takeover : RecoveryRequest
takeover = record { controller_id = codes "boss"; reason = codes " stale"; at = at 9 }

abbrev audit : RecoveryAudit
audit = record {
  controller_id = codes "boss";
  reason = codes "stale";
  old_worker_id = codes "w1";
  old_session_id = codes "s1";
  old_agent = codes "codex";
  old_generation = 1;
  old_acquired_at = at 5;
  recovered_at = at 9;
}

recover_held : recover_stale_ownership held takeover ≡ ok (freed_claim, audit)
unfolding recover_stale_ownership valid
recover_held = refl

validate_ownership_iff_example : (validate_ownership held ≡ ok tt) ↔ IsValid held
validate_ownership_iff_example = validate_ownership_iff held

acquire_iff_example : (acquire fresh request ≡ ok held) ↔ (
    IsValid fresh
    × (fresh.status ≡ released)
    × (fresh.generation < max_uint64)
    × IsValid held
    × IsGranted fresh request held)
acquire_iff_example = acquire_iff fresh held request (omega arith)

release_iff_example : (release held (record { actor = worker; at = at 9 }) ≡ ok freed_claim) ↔ (
    IsValid held
    × (held.status ≡ active)
    × Holds worker held
    × (held.acquired_at.instant ≤ (at 9).instant)
    × (freed_claim ≡ record held { status = released; released_at = some (at 9) }))
release_iff_example = release_iff held freed_claim (record { actor = worker; at = at 9 })

recover_stale_ownership_iff_example :
    (recover_stale_ownership held takeover ≡ ok (freed_claim, audit)) ↔ (
      IsValid held
      × (held.status ≡ active)
      × (trim_space takeover.controller_id ≢ [])
      × (trim_space takeover.reason ≢ [])
      × (takeover.at.instant ≢ zero_instant)
      × (held.acquired_at.instant ≤ takeover.at.instant)
      × (freed_claim ≡ record held { status = released; released_at = some takeover.at })
      × Records held takeover audit)
recover_stale_ownership_iff_example = recover_stale_ownership_iff held freed_claim takeover audit

later_accepted_greater_example : 1 < later_worker.generation
later_accepted_greater_example =
    later_accepted_greater worker later_worker (omega arith) worker_holds
      (freed (record { actor = worker; at = at 9 }) release_held)
      (next here (acquired (record request { at = at 12 }) acquire_again)) later_worker_holds

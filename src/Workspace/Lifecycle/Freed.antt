-- ===== src/Workspace/Lifecycle/Freed.antt =====
-- The plan that frees a stale claim: when there is one, and what it says.
use uawp.Core.Ownership.Recovery.Laws.{recover_stale_ownership_iff}
use uawp.Workspace.Lifecycle.{
  plan_for, input, actor_metadata, Setting, Disk, claim_path, decisions_path, as_codec,
  as_ownership, is_active_owner, diagnose, update, clock, read_file, blocked, Ownership, read_node,
  decode_ownership, lookup, encode_ownership, pos, decimal,
}
use uawp.Base.{
  ◌≡◌, true, some, ok, [], ◌∷◌, ◌++◌, Bytes, not, refuse_if, arith, ap, sym, ◌↔◌, >>=-eq-ok, ◌∙◌,
  trim_space, codes, subst, ◌≢◌, ◌≤◌, refl,
}
use uawp.Base.Sort.{sort}
use uawp.Plan.Persist.{new_plan, order_changes, Plan}
use uawp.Plan.Change.{new_update_file, with_sequence}
use uawp.Core.Ownership.Recovery.{RecoveryRequest, RecoveryAudit, recover_stale_ownership}
use uawp.Workspace.StaleClaim.{plan_stale_recovery, recovery_plan, audit_entry}
use uawp.Workspace.Lifecycle.Laws.{
  ok_injective, read_file-some, as_codec-ok, as_ownership-ok, read_file-ok,
}
use uawp.Core.Ownership.Validity.{IsValid}
use uawp.Core.Ownership.Transition.{released_claim}
use uawp.Core.Ownership.{active, zero_instant}

module _ (s : Setting) (d : Disk) where
  -- The entry for the claim and the request, as the audit has to read.
  abbrev recorded_entry : Ownership → RecoveryRequest → Bytes
  recorded_entry owner request =
      codes "\n## Human Controller stale-claim recovery "
      ++ (0xe2 ∷ 0x80 ∷ 0x94 ∷ 32 ∷ [])
      ++ s.readers.clock.format request.at
      ++ codes "\n\n- Controller ID: "
      ++ trim_space request.controller_id
      ++ codes "\n- Reason: "
      ++ trim_space request.reason
      ++ codes "\n- Old Worker ID: "
      ++ owner.worker_id
      ++ codes "\n- Old Session ID: "
      ++ owner.session_id
      ++ codes "\n- Old Generation: "
      ++ decimal owner.generation
      ++ codes "\n- Old Agent: "
      ++ owner.agent
      ++ codes "\n- Old Acquired At: "
      ++ s.readers.clock.format owner.acquired_at
      ++ codes "\n- Recovered At: "
      ++ s.readers.clock.format request.at
      ++ codes "\n"

  abbrev audit_of : Ownership → RecoveryRequest → RecoveryAudit
  audit_of owner request = record {
    controller_id = trim_space request.controller_id;
    reason = trim_space request.reason;
    old_worker_id = owner.worker_id;
    old_session_id = owner.session_id;
    old_agent = owner.agent;
    old_generation = owner.generation;
    old_acquired_at = owner.acquired_at;
    recovered_at = request.at;
  }

  -- The claim is ACTIVE and can be taken away, the decisions are read, and the plan appends the entry
  -- to them and then replaces the claim by the released one.
  pub record IsFreeing (request : RecoveryRequest) (p : Plan) : Type 0 where
    pub diagnosed : is_active_owner (diagnose s.readers d) ≡ true
    pub claim : Bytes
    pub owner : Ownership
    pub after : Bytes
    pub decisions : Bytes
    pub claim_read : read_node (lookup d claim_path) ≡ some claim
    pub decoded : decode_ownership (clock s d) claim ≡ ok owner
    pub valid : IsValid owner
    pub status : owner.status ≡ active
    pub controller : trim_space request.controller_id ≢ []
    pub reason : trim_space request.reason ≢ []
    pub moment : request.at.instant ≢ zero_instant
    pub later : owner.acquired_at.instant ≤ request.at.instant
    pub encoded : encode_ownership (clock s d) (released_claim owner request.at) ≡ ok after
    pub decisions_read : read_node (lookup d decisions_path) ≡ some decisions
    pub changes :
        p.changes
        ≡ with_sequence
            (update s d decisions_path decisions (decisions ++ recorded_entry owner request))
            (pos 10)
          ∷ with_sequence (update s d claim_path claim after) (pos 20)
          ∷ []
    pub planned :
        p
        ≡ plan_for s d
            (codes "stale-recovery")
            (with_sequence
                (update s d decisions_path decisions (decisions ++ recorded_entry owner request))
                (pos 10)
              ∷ with_sequence (update s d claim_path claim after) (pos 20)
              ∷ [])
            (input s d decisions_path decisions ∷ input s d claim_path claim ∷ [])
            (actor_metadata [] [] 0 (trim_space request.reason) (trim_space request.controller_id))

  -- What the recovery gives is the released claim and the audit of it.
  recovered_as :
      (owner : Ownership) (request : RecoveryRequest)
      → IsValid owner
      → owner.status ≡ active
      → trim_space request.controller_id ≢ []
      → trim_space request.reason ≢ []
      → request.at.instant ≢ zero_instant
      → owner.acquired_at.instant ≤ request.at.instant
      → recover_stale_ownership owner request
        ≡ ok (released_claim owner request.at, audit_of owner request)
  unfolding released_claim
  recovered_as owner request v status controller reason moment later =
      (recover_stale_ownership_iff owner (released_claim owner request.at) request
          (audit_of owner request)).1
        (
          v,
          status,
          controller,
          reason,
          moment,
          later,
          refl,
          record {
            controller_id = refl;
            reason = refl;
            old_worker_id = refl;
            old_session_id = refl;
            old_agent = refl;
            old_generation = refl;
            old_acquired_at = refl;
            recovered_at = refl;
          },
        )

  IsFreeing-parts :
      (request : RecoveryRequest) (p : Plan)
      → plan_stale_recovery s d request ≡ ok p
      → IsFreeing request p
  unfolding plan_stale_recovery recovery_plan audit_entry new_plan order_changes sort
      new_update_file with_sequence
  IsFreeing-parts request p h =
      let (_, owned, h1) =
        >>=-eq-ok (refuse_if (not (is_active_owner (diagnose s.readers d))) blocked) _ h in
      let (claim, read, h2) = >>=-eq-ok (read_file d claim_path) _ h1 in
      let (owner, decoded, h3) = >>=-eq-ok (as_codec (decode_ownership (clock s d) claim)) _ h2 in
      let (freed, recovered, h4) =
        >>=-eq-ok (as_ownership (recover_stale_ownership owner request)) _ h3 in
      let (after, encoded, h5) = >>=-eq-ok (as_codec (encode_ownership (clock s d) freed.0)) _ h4 in
      let (decisions, read_decisions, h6) = >>=-eq-ok (read_file d decisions_path) _ h5 in
      let granted = as_ownership-ok s d _ recovered in
      let (v, status, controller, reason, moment, later, _, _) =
        (recover_stale_ownership_iff owner freed.0 request freed.1).0 granted in
      let same =
        ok_injective
          (sym granted ∙ recovered_as owner request v status controller reason moment later) in
      let planned =
        subst (λ (f : Ownership × RecoveryAudit). p ≡ recovery_plan s d f.1 claim after decisions)
          same (sym (ok_injective h6)) in
      record {
        diagnosed = ground arith;
        claim = claim;
        owner = owner;
        after = after;
        decisions = decisions;
        claim_read = read_file-some s d claim_path read;
        decoded = as_codec-ok s d _ decoded;
        valid = v;
        status = status;
        controller = controller;
        reason = reason;
        moment = moment;
        later = later;
        encoded =
            subst (λ (f : Ownership × RecoveryAudit). encode_ownership (clock s d) f.0 ≡ ok after)
              same (as_codec-ok s d _ encoded);
        decisions_read = read_file-some s d decisions_path read_decisions;
        changes = ap (λ (q : Plan). q.changes) planned;
        planned = planned;
      }

  -- A plan that frees a stale claim is made exactly where the diagnosis finds an owner, the claim file
  -- is read as a valid ACTIVE claim, the request has a controller, a reason and a moment that is not
  -- before the acquisition, the released claim is encoded, and the decisions are read. The plan then
  -- appends to the decisions the entry with the controller, the reason, the claim that is taken away
  -- and the moment, and after that replaces the claim by the released one.
  pub plan_stale_recovery_iff :
      (request : RecoveryRequest) (p : Plan)
      → (plan_stale_recovery s d request ≡ ok p) ↔ IsFreeing request p
  unfolding plan_stale_recovery recovery_plan audit_entry as_codec as_ownership
  plan_stale_recovery_iff request p = (
    IsFreeing-parts request p,
    λ k.
        let recovered =
          recovered_as k.owner request k.valid k.status k.controller k.reason k.moment k.later in
        rw
          (
            k.diagnosed,
            read_file-ok s d claim_path k.claim_read,
            k.decoded,
            recovered,
            k.encoded,
            read_file-ok s d decisions_path k.decisions_read,
          )
          (ap ok (sym k.planned)),
  )

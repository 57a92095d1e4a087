-- ===== src/Workspace/Lifecycle/Handoff.antt =====
-- The plan of a handoff: when there is one, and what it says.
use uawp.Base.{
  ◌||◌, Bool, ◌∷◌, true, false, some, ok, not, ◌≡◌, is_empty, ◌↔◌, trim_space, Bytes, ◌≤◌, [],
  codes, refuse_if, ltb, >>=-eq-ok, refl, length, arith, subst, ap, sym,
}
use uawp.Plan.Persist.{new_plan, order_changes, Plan}
use uawp.Plan.Change.{new_update_file, with_sequence}
use uawp.Core.Ownership.Transition.{released_claim, release, ReleaseRequest}
use uawp.Workspace.Lifecycle.{
  plan_handoff, HandoffRequest, max_context_bytes, claim_path, context_path, as_codec,
  is_active_owner, actor_metadata, plan_for, update, input, clock, read_file, as_ownership, Setting,
  Disk, new_plan, Plan, diagnose, Ownership, new_update_file, with_sequence, read_node, lookup,
  decode_ownership, encode_ownership, pos, blocked, invalid_request,
}
use uawp.Base.Sort.{sort}
use uawp.Core.Ownership.Transition.Laws.{release_iff, Holds}
use uawp.Core.Ownership.Validity.{IsValid}
use uawp.Core.Ownership.{active}
use uawp.Workspace.Lifecycle.Laws.{
  not_refused, as_ownership-ok, read_file-some, as_codec-ok, ok_injective,
}

module _ (s : Setting) (d : Disk) where
  abbrev bad_handoff : HandoffRequest → Bool
  bad_handoff request =
      is_empty (trim_space request.actor.worker_id)
      || is_empty (trim_space request.purpose)
      || is_empty request.final_context
      || ltb max_context_bytes (length request.final_context)

  -- The claim is the actor's and can be released at the moment of the request, the request is filled
  -- in, and the plan replaces first the context and then the claim, and rests on both as read.
  pub record IsHandoff (request : HandoffRequest) (p : Plan) : Type 0 where
    pub diagnosed : is_active_owner (diagnose s.readers d) ≡ true
    pub filled : bad_handoff request ≡ false
    pub owner : Ownership
    pub before : Bytes
    pub after : Bytes
    pub context : Bytes
    pub claim_read : read_node (lookup d claim_path) ≡ some before
    pub decoded : decode_ownership (clock s d) before ≡ ok owner
    pub valid : IsValid owner
    pub status : owner.status ≡ active
    pub holds : Holds request.actor owner
    pub later : owner.acquired_at.instant ≤ request.at.instant
    pub encoded : encode_ownership (clock s d) (released_claim owner request.at) ≡ ok after
    pub context_read : read_node (lookup d context_path) ≡ some context
    pub changes :
        p.changes
        ≡ with_sequence (update s d context_path context request.final_context) (pos 10)
          ∷ with_sequence (update s d claim_path before after) (pos 20)
          ∷ []
    pub planned :
        p
        ≡ plan_for s d
            (codes "handoff")
            (with_sequence (update s d context_path context request.final_context) (pos 10)
              ∷ with_sequence (update s d claim_path before after) (pos 20)
              ∷ [])
            (input s d context_path context ∷ input s d claim_path before ∷ [])
            (actor_metadata
              (trim_space request.actor.worker_id)
              (trim_space request.actor.session_id)
              request.actor.generation
              (trim_space request.purpose)
              [])

  IsHandoff-parts :
      (request : HandoffRequest) (p : Plan) → plan_handoff s d request ≡ ok p → IsHandoff request p
  unfolding plan_handoff new_plan order_changes sort new_update_file with_sequence released_claim
  IsHandoff-parts request p h =
      let (_, owned, h1) =
        >>=-eq-ok (refuse_if (not (is_active_owner (diagnose s.readers d))) blocked) _ h in
      let (_, filled, h2) = >>=-eq-ok (refuse_if (bad_handoff request) invalid_request) _ h1 in
      let (before, read, h3) = >>=-eq-ok (read_file d claim_path) _ h2 in
      let (owner, decoded, h4) = >>=-eq-ok (as_codec (decode_ownership (clock s d) before)) _ h3 in
      let asked : ReleaseRequest = record { actor = request.actor; at = request.at } in
      let (next, freed, h5) = >>=-eq-ok (as_ownership (release owner asked)) _ h4 in
      let (after, encoded, h6) = >>=-eq-ok (as_codec (encode_ownership (clock s d) next)) _ h5 in
      let (context, read_context, h7) = >>=-eq-ok (read_file d context_path) _ h6 in
      let (v, status, holds, later, same) =
        (release_iff owner next asked).0 (as_ownership-ok s d _ freed) in
      record {
        diagnosed = ground arith;
        filled = not_refused (bad_handoff request) invalid_request filled;
        owner = owner;
        before = before;
        after = after;
        context = context;
        claim_read = read_file-some s d claim_path read;
        decoded = as_codec-ok s d _ decoded;
        valid = v;
        status = status;
        holds = holds;
        later = later;
        encoded =
            subst (λ o. encode_ownership (clock s d) o ≡ ok after) same (as_codec-ok s d _ encoded);
        context_read = read_file-some s d context_path read_context;
        changes = ap (λ (q : Plan). q.changes) (sym (ok_injective h7));
        planned = sym (ok_injective h7);
      }

  -- A handoff is planned exactly where the diagnosis finds an owner, the request is filled in within
  -- its bounds, the claim file is read as a valid ACTIVE claim that the actor holds, not acquired after
  -- the moment of the request, the released claim is encoded and the context is read. The plan then
  -- replaces first the context by the final one and then the claim by the released one, and rests on
  -- both as they were read.
  pub plan_handoff_iff :
      (request : HandoffRequest) (p : Plan)
      → (plan_handoff s d request ≡ ok p) ↔ IsHandoff request p
  unfolding plan_handoff released_claim as_codec as_ownership read_file
  plan_handoff_iff request p = (
    IsHandoff-parts request p,
    λ k.
        let asked : ReleaseRequest = record { actor = request.actor; at = request.at } in
        let freed =
          (release_iff k.owner (released_claim k.owner request.at) asked).1
            (k.valid, k.status, k.holds, k.later, refl) in
        rw
          (
            refuse_if, k.diagnosed, k.filled, read_file, k.claim_read, k.decoded, freed, k.encoded,
            k.context_read,
          )
          (ap ok (sym k.planned)),
  )

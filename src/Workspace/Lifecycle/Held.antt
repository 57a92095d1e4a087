-- ===== src/Workspace/Lifecycle/Held.antt =====
-- The plan of a checkpoint: when there is one, and what it says.
use uawp.Core.Ownership.Validity.{IsValid}
use uawp.Base.{
  ◌↔◌, true, false, ◌||◌, none, some, ok, err, bytes_eq, nat_eq, [], ◌∷◌, ◌++◌, ◌≡◌, Option, Result,
  Bytes, arith, >>=-eq-ok, subst, refl, codes, refuse_if, not, ap, sym, Bool, is_empty, trim_space,
  ltb, length,
}
use uawp.Workspace.Lifecycle.{
  claim_path, context_path, as_codec, as_target, Setting, Disk, stands, ApplyError, Ownership,
  Actor, validate_active_actor, read_file, CheckpointRequest, clock, as_ownership, resolve_uawp,
  is_active_owner, diagnose, blocked, invalid_request, checkpoint_exists, is_slug,
}
use uawp.Plan.Persist.{new_plan, order_changes, Plan}
use uawp.Plan.Change.{new_file, missing_sha256}
use uawp.Base.Sort.{sort}
use uawp.Core.Ownership.Codec.{decode_ownership}
use uawp.Workspace.Disk.{Node, read_node, lookup}
use uawp.Workspace.Checkpoint.{
  plan_checkpoint, held_claim, checkpoint_plan, checkpoint_name, checkpoint_body,
}
use uawp.Workspace.Lifecycle.Laws.{
  not_refused, read_file-some, as_codec-ok, ok_injective, as_ownership-ok, read_file-ok,
}
use uawp.Core.Ownership.{active}
use uawp.Core.Ownership.Transition.Laws.{Holds, validate_active_actor_iff}

stands-none : (n : Option Node) → stands n ≡ false → n ≡ none
stands-none n h = ground arith

none-stands : (n : Option Node) → n ≡ none → stands n ≡ false
none-stands n h = ground arith

as_target-ok : {A : Type 0} (r : Result ApplyError A) {a : A} → as_target r ≡ ok a → r ≡ ok a
unfolding as_target
as_target-ok (ok a) h = ground arith
as_target-ok (err e) h = ground arith

module _ (s : Setting) (d : Disk) where
  held_claim-parts :
      (actor : Actor) {held : Bytes × Ownership}
      → held_claim s d actor ≡ ok held
      → (read_node (lookup d claim_path) ≡ some held.0)
        × (decode_ownership (clock s d) held.0 ≡ ok held.1)
        × (validate_active_actor held.1 actor ≡ ok tt)
  unfolding held_claim
  held_claim-parts actor h =
      let (content, read, h1) = >>=-eq-ok (read_file d claim_path) _ h in
      let (owner, decoded, h2) = >>=-eq-ok (as_codec (decode_ownership (clock s d) content)) _ h1 in
      let (_, holds, h3) = >>=-eq-ok (as_ownership (validate_active_actor owner actor)) _ h2 in
      subst
        (λ (x : Bytes × Ownership).
          (read_node (lookup d claim_path) ≡ some x.0)
          × (decode_ownership (clock s d) x.0 ≡ ok x.1)
          × (validate_active_actor x.1 actor ≡ ok tt))
        (ok_injective h3)
        (read_file-some s d claim_path read, as_codec-ok s d _ decoded, as_ownership-ok s d _ holds)

  held_claim-ok :
      (actor : Actor) {content : Bytes} {owner : Ownership}
      → read_node (lookup d claim_path) ≡ some content
      → decode_ownership (clock s d) content ≡ ok owner
      → validate_active_actor owner actor ≡ ok tt
      → held_claim s d actor ≡ ok (content, owner)
  unfolding held_claim as_codec as_ownership
  held_claim-ok actor read decoded holds =
      rw (read_file-ok s d claim_path read, decoded, holds) refl

  abbrev bad_request : CheckpointRequest → Bool
  bad_request request =
      is_empty (trim_space request.actor.worker_id)
      || is_empty (trim_space request.label)
      || ltb 64 (length (trim_space request.milestone_id))
      || not (is_slug (trim_space request.milestone_id))

  -- The claim is the actor's, the request is filled in, nothing stands at the path of the checkpoint,
  -- and the plan creates that file and rests on the claim and the context as read.
  pub record IsCheckpoint (request : CheckpointRequest) (p : Plan) : Type 0 where
    pub diagnosed : is_active_owner (diagnose s.readers d) ≡ true
    pub filled : bad_request request ≡ false
    pub claim : Bytes
    pub owner : Ownership
    pub context : Bytes
    pub target : Bytes
    pub claim_read : read_node (lookup d claim_path) ≡ some claim
    pub decoded : decode_ownership (clock s d) claim ≡ ok owner
    pub valid : IsValid owner
    pub status : owner.status ≡ active
    pub holds : Holds request.actor owner
    pub context_read : read_node (lookup d context_path) ≡ some context
    pub resolved : resolve_uawp d (checkpoint_name s d request) ≡ ok target
    pub free : lookup d target ≡ none
    pub changes :
        p.changes
        ≡ new_file s.hash_bytes
            (codes ".uawp/" ++ checkpoint_name s d request)
            0o600
            missing_sha256
            (checkpoint_body s d request owner context)
          ∷ []
    pub planned : p ≡ checkpoint_plan s d request claim owner context

  IsCheckpoint-parts :
      (request : CheckpointRequest) (p : Plan)
      → plan_checkpoint s d request ≡ ok p
      → IsCheckpoint request p
  unfolding plan_checkpoint held_claim checkpoint_plan new_plan order_changes sort new_file
  IsCheckpoint-parts request p h =
      let (_, owned, h1) =
        >>=-eq-ok (refuse_if (not (is_active_owner (diagnose s.readers d))) blocked) _ h in
      let (_, filled, h2) = >>=-eq-ok (refuse_if (bad_request request) invalid_request) _ h1 in
      let (held, got, h3) = >>=-eq-ok (held_claim s d request.actor) _ h2 in
      let (context, read, h4) = >>=-eq-ok (read_file d context_path) _ h3 in
      let (target, resolved, h5) =
        >>=-eq-ok (as_target (resolve_uawp d (checkpoint_name s d request))) _ h4 in
      let (_, free, h6) = >>=-eq-ok (refuse_if (stands (lookup d target)) checkpoint_exists) _ h5 in
      let (claimed, decoded, valid) = held_claim-parts request.actor got in
      let (v, status, holds) = (validate_active_actor_iff held.1 request.actor).0 valid in
      let planned = sym (ok_injective h6) in
      record {
        diagnosed = ground arith;
        filled = not_refused (bad_request request) invalid_request filled;
        claim = held.0;
        owner = held.1;
        context = context;
        target = target;
        claim_read = claimed;
        decoded = decoded;
        valid = v;
        status = status;
        holds = holds;
        context_read = read_file-some s d context_path read;
        resolved = as_target-ok (resolve_uawp d (checkpoint_name s d request)) resolved;
        free =
            stands-none (lookup d target)
              (not_refused (stands (lookup d target)) checkpoint_exists free);
        changes = ap (λ (q : Plan). q.changes) planned;
        planned = planned;
      }

  pub plan_checkpoint_iff :
      (request : CheckpointRequest) (p : Plan)
      → (plan_checkpoint s d request ≡ ok p) ↔ IsCheckpoint request p
  unfolding plan_checkpoint as_target
  plan_checkpoint_iff request p = (
    IsCheckpoint-parts request p,
    λ k.
        let holder =
          (validate_active_actor_iff k.owner request.actor).1 (k.valid, k.status, k.holds) in
        rw
          (
            k.diagnosed,
            k.filled,
            held_claim-ok request.actor k.claim_read k.decoded holder,
            read_file-ok s d context_path k.context_read,
            k.resolved,
            none-stands (lookup d k.target) k.free,
          )
          (ap ok (sym k.planned)),
  )

-- ===== src/Workspace/Checkpoint.antt =====
-- internal/workspace/context.go and checkpoint.go: the plans that the holder of the claim makes for
-- the context and the checkpoints.
use uawp.Base.{
  not, ◌||◌, List, [], ◌∷◌, ◌++◌, ◌==◌, bytes_eq, nat_eq, if◌then◌else◌, Result, ok, ◌>>=◌, ◌>>◌,
  refuse_if, Bytes, codes, is_empty, length, ltb, trim_space,
}
use uawp.Base.FilePath.{join}
use uawp.Base.Number.{decimal}
use uawp.Base.Pattern.{is_slug}
use uawp.Core.Ownership.{Ownership, Actor, validate_active_actor}
use uawp.Core.Ownership.Codec.{decode_ownership}
use uawp.Plan.Change.{new_file, missing_sha256}
use uawp.Plan.Persist.{Plan, new_plan}
use uawp.Workspace.Boundary.{resolve_uawp}
use uawp.Workspace.Disk.{Disk, lookup}
use uawp.Workspace.Discover.{stands}
use uawp.Workspace.Status.{diagnose}
use uawp.Workspace.Lifecycle.{
  Setting, LifecycleError, blocked, invalid_request, checkpoint_exists, claim_path, context_path,
  as_codec, as_ownership, as_target, read_file, actor_metadata, is_active_owner, max_context_bytes,
  CheckpointRequest, clock, update, input, plan_for,
}

abbrev none_if_no : List Bytes → Bytes
none_if_no [] = codes "none"
none_if_no (reference ∷ references) = join (codes ", ") (reference ∷ references)

module _ (s : Setting) (d : Disk) where
  -- The plan of a synchronisation that has been admitted.
  unfoldable pub context_plan : Actor → Bytes → Bytes → Bytes → Plan
  unfolding new_plan
  context_plan actor claim before content =
      plan_for s d (codes "context-sync")
        (if before == content then [] else update s d context_path before content ∷ [])
        (input s d claim_path claim ∷ [])
        (actor_metadata (trim_space actor.worker_id) (trim_space actor.session_id) actor.generation
          [] [])

  -- The claim file and the claim, where the actor holds it.
  unfoldable pub held_claim : Actor → Result LifecycleError (Bytes × Ownership)
  unfolding read_file decode_ownership validate_active_actor
  held_claim actor = do
    claim ← read_file d claim_path
    owner ← as_codec (decode_ownership (clock s d) claim)
    as_ownership (validate_active_actor owner actor)
    ok (claim, owner)

  unfoldable pub plan_context_sync : Actor → Bytes → Result LifecycleError Plan
  unfolding diagnose held_claim read_file context_plan
  plan_context_sync actor content = do
    refuse_if (not (is_active_owner (diagnose s.readers d))) blocked
    refuse_if (is_empty content || ltb max_context_bytes (length content)) invalid_request
    held ← held_claim actor
    before ← read_file d context_path
    ok (context_plan actor held.0 before content)

  -- The text of a checkpoint.
  unfoldable pub checkpoint_body : CheckpointRequest → Ownership → Bytes → Bytes
  unfolding decimal join
  checkpoint_body request owner context =
      codes "# UAWP Checkpoint\n\n- Milestone: "
      ++ trim_space request.label
      ++ codes "\n- Created At: "
      ++ s.readers.clock.format request.at
      ++ codes "\n- Worker ID: "
      ++ trim_space request.actor.worker_id
      ++ codes "\n- Session ID: "
      ++ request.actor.session_id
      ++ codes "\n- Generation: "
      ++ decimal request.actor.generation
      ++ codes "\n- Agent: "
      ++ owner.agent
      ++ codes "\n- Context SHA256: "
      ++ s.hash_bytes context
      ++ codes "\n- Decision References: "
      ++ none_if_no request.decision_references
      ++ codes "\n\n## Context\n\n"
      ++ context

  abbrev pub checkpoint_name : CheckpointRequest → Bytes
  checkpoint_name request =
      codes "checkpoints/"
      ++ (s.readers.clock.stamp request.at
          ++ (codes "-" ++ (trim_space request.milestone_id ++ codes ".md")))

  unfoldable pub checkpoint_plan : CheckpointRequest → Bytes → Ownership → Bytes → Plan
  unfolding new_plan checkpoint_body
  checkpoint_plan request claim owner context =
      plan_for s d (codes "checkpoint")
        (new_file s.hash_bytes (codes ".uawp/" ++ checkpoint_name request) 0o600 missing_sha256
            (checkpoint_body request owner context)
          ∷ [])
        (input s d claim_path claim ∷ input s d context_path context ∷ [])
        (actor_metadata (trim_space request.actor.worker_id) (trim_space request.actor.session_id)
          request.actor.generation [] [])

  unfoldable pub plan_checkpoint : CheckpointRequest → Result LifecycleError Plan
  unfolding diagnose held_claim read_file resolve_uawp checkpoint_plan is_slug
  plan_checkpoint request = do
    refuse_if (not (is_active_owner (diagnose s.readers d))) blocked
    let id = trim_space request.milestone_id
    refuse_if
        (is_empty (trim_space request.actor.worker_id)
          || is_empty (trim_space request.label)
          || ltb 64 (length id)
          || not (is_slug id))
        invalid_request
    held ← held_claim request.actor
    context ← read_file d context_path
    target ← as_target (resolve_uawp d (checkpoint_name request))
    refuse_if (stands (lookup d target)) checkpoint_exists
    ok (checkpoint_plan request held.0 held.1 context)

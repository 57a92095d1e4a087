-- ===== src/Workspace/StaleClaim.antt =====
-- internal/workspace/recover.go: the plan by which a human controller frees a stale claim.
use uawp.Base.{
  not, [], ◌∷◌, ◌++◌, bytes_eq, nat_eq, Result, ok, ◌>>=◌, ◌>>◌, refuse_if, Bytes, codes,
}
use uawp.Base.Int.{pos}
use uawp.Base.Number.{decimal}
use uawp.Core.Ownership.Codec.{decode_ownership, encode_ownership}
use uawp.Core.Ownership.Recovery.{RecoveryRequest, RecoveryAudit, recover_stale_ownership}
use uawp.Plan.Change.{with_sequence}
use uawp.Plan.Persist.{Plan, new_plan}
use uawp.Workspace.Disk.{Disk}
use uawp.Workspace.Status.{diagnose}
use uawp.Workspace.Lifecycle.{
  Setting, LifecycleError, blocked, claim_path, decisions_path, as_codec, as_ownership, read_file,
  actor_metadata, is_active_owner, clock, update, input, plan_for,
}

module _ (s : Setting) (d : Disk) where
  -- The entry in DECISIONS.md.
  unfoldable pub audit_entry : RecoveryAudit → Bytes
  unfolding decimal
  audit_entry audit =
      codes "\n## Human Controller stale-claim recovery "
      ++ (0xe2 ∷ 0x80 ∷ 0x94 ∷ 32 ∷ [])
      ++ s.readers.clock.format audit.recovered_at
      ++ codes "\n\n- Controller ID: "
      ++ audit.controller_id
      ++ codes "\n- Reason: "
      ++ audit.reason
      ++ codes "\n- Old Worker ID: "
      ++ audit.old_worker_id
      ++ codes "\n- Old Session ID: "
      ++ audit.old_session_id
      ++ codes "\n- Old Generation: "
      ++ decimal audit.old_generation
      ++ codes "\n- Old Agent: "
      ++ audit.old_agent
      ++ codes "\n- Old Acquired At: "
      ++ s.readers.clock.format audit.old_acquired_at
      ++ codes "\n- Recovered At: "
      ++ s.readers.clock.format audit.recovered_at
      ++ codes "\n"

  unfoldable pub recovery_plan : RecoveryAudit → Bytes → Bytes → Bytes → Plan
  unfolding new_plan audit_entry
  recovery_plan audit claim after decisions =
      plan_for s d (codes "stale-recovery")
        (with_sequence (update s d decisions_path decisions (decisions ++ audit_entry audit))
            (pos 10)
          ∷ with_sequence (update s d claim_path claim after) (pos 20)
          ∷ [])
        (input s d decisions_path decisions ∷ input s d claim_path claim ∷ [])
        (actor_metadata [] [] 0 audit.reason audit.controller_id)

  unfoldable pub plan_stale_recovery : RecoveryRequest → Result LifecycleError Plan
  unfolding diagnose read_file decode_ownership encode_ownership recovery_plan
  plan_stale_recovery request = do
    refuse_if (not (is_active_owner (diagnose s.readers d))) blocked
    claim ← read_file d claim_path
    owner ← as_codec (decode_ownership (clock s d) claim)
    freed ← as_ownership (recover_stale_ownership owner request)
    after ← as_codec (encode_ownership (clock s d) freed.0)
    decisions ← read_file d decisions_path
    ok (recovery_plan freed.1 claim after decisions)

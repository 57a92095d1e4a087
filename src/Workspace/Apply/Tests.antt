-- ===== src/Workspace/Apply/Tests.antt =====
-- Runs of an application on a small workspace, and the theorems at them.
use uawp.Workspace.Op.{before_action, stopped}
use uawp.Workspace.Disk.{lookup, set, file}
use uawp.Workspace.Apply.Run.{apply, report_for, pointer_path, lock_path}
use uawp.Workspace.Verify.Laws.{IsUnchanged, IsUntouched}
use uawp.Workspace.Apply.Outcome.Laws.{
  apply-frame, apply_complete, apply-recoverable, apply-checked,
}
use uawp.Workspace.Apply.Run.Complete.{AllAfter, ArePublic}
use uawp.Workspace.Apply.Prepare.Laws.{HasPointer, HasNamespace}
use uawp.Workspace.Apply.Frame.{is_internal, IsMade}
use uawp.Base.{length, [], codes, ◌⊎◌, ◌≡◌, refl, some, ok, none, err, All}
use uawp.Workspace.Apply.Sample.{env, value, options, nowhere, at_second, disk, run}

has_namespace : HasNamespace disk
unfolding run
has_namespace = refl

public : ArePublic value.metadata.migration_receipt_path value.changes
unfolding run is_internal
public = (refl, (refl, tt))

done :
    (apply env (options nowhere) value disk).0
    ≡ ok (report_for env (options nowhere) value value.changes)
unfolding run
done = refl

agents_made : lookup (run nowhere disk).1 (codes "AGENTS.md") ≡ some (file (codes "read this") 420)
unfolding run
agents_made = refl

stopped_in_time : lookup (run at_second disk).1 (codes "AGENTS.md") ≡ none
unfolding run
stopped_in_time = refl

halted : (apply env (options at_second) value disk).0 ≡ err (stopped before_action)
unfolding run
halted = refl

apply-frame_example :
    (lookup (apply env (options at_second) value disk).1 (codes "AGENTS.md")
      ≡ lookup disk (codes "AGENTS.md"))
    ⊎ IsMade value.changes
        (codes "AGENTS.md")
        (lookup (apply env (options at_second) value disk).1 (codes "AGENTS.md"))
unfolding is_internal run
apply-frame_example =
    apply-frame env (options at_second) value disk has_namespace public (codes "AGENTS.md") refl

apply_complete_example :
    AllAfter env.platform.hash_bytes value.changes (apply env (options nowhere) value disk).1
    × ((lookup (apply env (options nowhere) value disk).1 pointer_path ≡ none)
        ⊎ (length value.changes ≡ 0))
    × (report_for env (options nowhere) value value.changes
        ≡ report_for env (options nowhere) value value.changes)
apply_complete_example =
    apply_complete env (options nowhere) value disk has_namespace public
      (report_for env (options nowhere) value value.changes) done

apply-recoverable_example :
    HasPointer (apply env (options at_second) value disk).1
    ⊎ ((lookup (apply env (options at_second) value disk).1 (codes ".uawp/CONTEXT.md")
          ≡ lookup disk (codes ".uawp/CONTEXT.md"))
        ⊎ AllAfter env.platform.hash_bytes value.changes
            (apply env (options at_second) value disk).1)
unfolding is_internal run
apply-recoverable_example =
    apply-recoverable env (options at_second) value disk has_namespace public
      (stopped before_action) (codes ".uawp/CONTEXT.md") halted refl

apply-checked_example :
    ((options nowhere).approved_plan_id ≡ value.id)
    × (value.workspace ≡ env.root)
    × (lookup disk lock_path ≡ none)
    × (lookup disk pointer_path ≡ none)
    × All (IsUnchanged env.platform.hash_bytes (set disk lock_path (file [] 0o600))) value.inputs
    × All (IsUntouched env.platform.hash_bytes (set disk lock_path (file [] 0o600))) value.changes
unfolding run
apply-checked_example =
    apply-checked env (options nowhere) value disk
      (report_for env (options nowhere) value value.changes) refl done

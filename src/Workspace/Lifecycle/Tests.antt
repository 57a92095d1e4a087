-- ===== src/Workspace/Lifecycle/Tests.antt =====
-- Plans of the lifecycle on small workspaces, and the theorems at them.
use uawp.Workspace.Lifecycle.Handoff.{IsHandoff, plan_handoff_iff}
use uawp.Workspace.Lifecycle.{
  Setting, plan_acquire, blocked, release, plan_release, acquire, plan_handoff, diagnose,
  active_owner,
}
use uawp.Base.{
  if◌then◌else◌, ◌↔◌, ◌&&◌, not, List, Bool, ◌==◌, ◌∙◌, nat_eq, bytes_eq, ◌≡◌, refl, ok, err, All,
  arith, subst, bytes_beq_iff, sym, true, ◌∷◌, [],
}
use uawp.Workspace.Lifecycle.Held.{IsCheckpoint, plan_checkpoint_iff}
use uawp.Workspace.Lifecycle.Freed.{IsFreeing, plan_stale_recovery_iff}
use uawp.Workspace.Status.Healthy.{IsHealthy}
use uawp.Workspace.Status.Laws.{diagnose_iff}
use uawp.Workspace.StaleClaim.{plan_stale_recovery}
use uawp.Core.Ownership.{is_active, Ownership}
use uawp.Core.Ownership.Codec.Sample.{held, free, time_of, sample_clock}
use uawp.Plan.Persist.{Plan}
use uawp.Plan.Change.{Change}
use uawp.Workspace.Apply.Run.{apply, report_for}
use uawp.Workspace.Apply.Sample.{env}
use uawp.Workspace.Disk.{Disk}
use uawp.Workspace.Lifecycle.Applied.{setting, Differs, plan_acquire_applied, plan_release_applied}
use uawp.Workspace.Status.{read_ownership}
use uawp.Workspace.Lifecycle.Sample.{
  sample_readers, options_for, workspace, opened, made, acquisition, releasing, freeing,
  handing_off, checkpointing,
}
use uawp.Core.Ownership.Codec.Printed.{ReadsBack}
use uawp.Workspace.Lifecycle.Laws.{ok_injective}
use uawp.Workspace.Checkpoint.{plan_checkpoint}
use uawp.Workspace.Resume.{ready}

abbrev set_up : Setting
set_up = setting env sample_readers (options_for (made (err blocked))) (workspace free)

-- The claim is free.
abbrev at_rest : Disk
at_rest = workspace free

abbrev at_work : Disk
at_work = workspace held

late_reads : ReadsBack sample_clock (time_of 12)
unfolding opened
late_reads = record { reads = refl; zoned = refl; visible = refl; short = omega arith }

early_reads : ReadsBack sample_clock (time_of 7)
unfolding opened
early_reads = record { reads = refl; zoned = refl; visible = refl; short = omega arith }

abbrev all_differ : List Change → Bool
all_differ [] = true
all_differ (c ∷ cs) = not (c.before_sha256 == c.after_sha256) && all_differ cs

all_differ-Differs : (cs : List Change) → all_differ cs ≡ true → All Differs cs
all_differ-Differs [] h = tt
all_differ-Differs (c ∷ cs) h = (
  ground (arith, bytes_beq_iff c.before_sha256 c.after_sha256),
  all_differ-Differs cs (ground arith),
)

acquired : Plan
unfolding opened
acquired = made (plan_acquire set_up at_rest acquisition)

acquired_planned : plan_acquire set_up at_rest acquisition ≡ ok acquired
unfolding acquired
acquired_planned = refl

acquired_done :
    (apply env (options_for acquired) acquired at_rest).0
    ≡ ok (report_for env (options_for acquired) acquired acquired.changes)
unfolding acquired
acquired_done = refl

acquired-Differs : All Differs acquired.changes
unfolding acquired
acquired-Differs = all_differ-Differs acquired.changes refl

plan_acquire_applied_example :
    (current : Ownership) × (next : Ownership) × (read_ownership sample_readers at_rest
      ≡ ok current)
    × (acquire current acquisition ≡ ok next)
    × (read_ownership sample_readers (apply env (options_for acquired) acquired at_rest).1
        ≡ ok next)
plan_acquire_applied_example =
    plan_acquire_applied env sample_readers (options_for acquired) at_rest acquisition acquired
      (report_for env (options_for acquired) acquired acquired.changes) acquired_planned late_reads
      acquired-Differs acquired_done

released_plan : Plan
unfolding opened
released_plan = made (plan_release set_up at_work releasing)

released_planned : plan_release set_up at_work releasing ≡ ok released_plan
unfolding released_plan
released_planned = refl

released_done :
    (apply env (options_for released_plan) released_plan at_work).0
    ≡ ok (report_for env (options_for released_plan) released_plan released_plan.changes)
unfolding released_plan
released_done = refl

released-Differs : All Differs released_plan.changes
unfolding released_plan
released-Differs = all_differ-Differs released_plan.changes refl

held_read : read_ownership sample_readers at_work ≡ ok held
unfolding opened
held_read = refl

held_reads :
    (o : Ownership)
    → read_ownership sample_readers at_work ≡ ok o
    → ReadsBack sample_clock o.acquired_at
held_reads o h =
    subst (λ (c : Ownership). ReadsBack sample_clock c.acquired_at)
      (ok_injective (sym held_read ∙ h)) early_reads

plan_release_applied_example :
    (current : Ownership) × (next : Ownership) × (read_ownership sample_readers at_work
      ≡ ok current)
    × (release current releasing ≡ ok next)
    × (read_ownership sample_readers (apply env (options_for released_plan) released_plan at_work).1
        ≡ ok next)
plan_release_applied_example =
    plan_release_applied env sample_readers (options_for released_plan) at_work releasing
      released_plan (report_for env (options_for released_plan) released_plan released_plan.changes)
      released_planned late_reads held_reads released-Differs released_done

checkpoint : Plan
unfolding opened
checkpoint = made (plan_checkpoint set_up at_work checkpointing)

checkpoint_planned : plan_checkpoint set_up at_work checkpointing ≡ ok checkpoint
unfolding checkpoint
checkpoint_planned = refl

-- There is such a plan.
checkpoint_as_planned : IsCheckpoint set_up at_work checkpointing checkpoint
checkpoint_as_planned =
    (plan_checkpoint_iff set_up at_work checkpointing checkpoint).0 checkpoint_planned

handoff : Plan
unfolding opened
handoff = made (plan_handoff set_up at_work handing_off)

handoff_planned : plan_handoff set_up at_work handing_off ≡ ok handoff
unfolding handoff
handoff_planned = refl

plan_handoff_iff_example :
    (plan_handoff set_up at_work handing_off ≡ ok handoff)
    ↔ IsHandoff set_up at_work handing_off handoff
plan_handoff_iff_example = plan_handoff_iff set_up at_work handing_off handoff

-- There is such a plan.
handoff_as_planned : IsHandoff set_up at_work handing_off handoff
handoff_as_planned = (plan_handoff_iff set_up at_work handing_off handoff).0 handoff_planned

freed_plan : Plan
unfolding opened
freed_plan = made (plan_stale_recovery set_up at_work freeing)

freed_planned : plan_stale_recovery set_up at_work freeing ≡ ok freed_plan
unfolding freed_plan
freed_planned = refl

plan_stale_recovery_iff_example :
    (plan_stale_recovery set_up at_work freeing ≡ ok freed_plan)
    ↔ IsFreeing set_up at_work freeing freed_plan
plan_stale_recovery_iff_example = plan_stale_recovery_iff set_up at_work freeing freed_plan

-- There is such a plan.
freed_as_planned : IsFreeing set_up at_work freeing freed_plan
freed_as_planned = (plan_stale_recovery_iff set_up at_work freeing freed_plan).0 freed_planned

diagnose_iff_example : (diagnose sample_readers at_work ≡ active_owner) ↔ (
    IsHealthy sample_readers at_work
    × (o : Ownership) × (read_ownership sample_readers at_work ≡ ok o)
    × (active_owner ≡ (if is_active o.status then active_owner else ready)))
diagnose_iff_example = diagnose_iff sample_readers at_work active_owner refl

found_active : diagnose sample_readers at_work ≡ active_owner
unfolding opened
found_active = refl

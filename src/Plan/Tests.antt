-- ===== src/Plan/Tests.antt =====
-- Runs of the plan code, and the theorems at concrete plans.
use uawp.Base.{
  ◌≡◌, ◌≢◌, refl, codes, ◌∷◌, [], ok, err, arith, bytes_beq, bytes_ltb, List, map, Result, All,
}
use uawp.Base.Int.{negsuc}
use uawp.Base.Sort.{sort}
use uawp.Plan.Change.{
  Change, PersistedChange, new_directory, new_update_file, persist_change, restore_change,
  check_kind, restored, content_mismatch, invalid_path_or_size,
}
use uawp.Plan.Persist.{
  Plan, PersistedPlan, new_plan, persisted, restore, restore_changes, order_changes, id_mismatch,
  PlanError,
}
use uawp.Plan.Persist.Laws.{IsStorable, restore-persisted, restore_sound}
use uawp.Plan.Sample.{sample_hash, sample_marshal, no_metadata}

abbrev dir : Change
dir = new_directory (codes "b") 448

abbrev update : Change
update = new_update_file sample_hash (codes "a") 384 (codes "old") (codes "new text")

abbrev changes : List Change
changes = dir ∷ update ∷ []

sample : Plan
unfolding new_plan order_changes sort bytes_ltb new_directory new_update_file
sample = new_plan sample_hash sample_marshal (codes "upgrade") (codes "/w") changes [] no_metadata

-- Unfolding this opens all that a run calls.
restored_plan : PersistedPlan → Result PlanError Plan
unfolding restore restore_changes restore_change restored check_kind persisted persist_change
    bytes_beq sample
restored_plan = restore sample_hash sample_marshal

by_path_first : map (λ (c : Change). c.path) sample.changes ≡ codes "a" ∷ codes "b" ∷ []
unfolding sample
by_path_first = refl

update_stored : PersistedChange
unfolding persist_change new_update_file
update_stored = persist_change update

stored : PersistedPlan
unfolding persisted sample
stored = persisted sample

sample_restored : restored_plan (persisted sample) ≡ ok sample
unfolding restored_plan
sample_restored = refl

other_content :
    restore_change sample_hash (record update_stored { content = codes "new texts" })
    ≡ err content_mismatch
unfolding restored_plan update_stored new_update_file
other_content = refl

negative_size :
    restore_change sample_hash (record update_stored { size = negsuc 0 }) ≡ err invalid_path_or_size
unfolding restored_plan update_stored
negative_size = refl

other_operation : restored_plan (record stored { operation = codes "repair" }) ≡ err id_mismatch
unfolding restored_plan stored
other_operation = refl

named : codes "b" ≢ []
named = ground arith

dir_stores : IsStorable sample_hash sample_marshal dir
unfolding new_directory
dir_stores = (ground arith, (refl, refl, refl, refl))

update_stores : IsStorable sample_hash sample_marshal update
unfolding new_update_file
update_stores = (ground arith, (refl, refl))

abbrev made : Plan
made = new_plan sample_hash sample_marshal (codes "upgrade") (codes "/w") changes [] no_metadata

restore-persisted_example : restore sample_hash sample_marshal (persisted made) ≡ ok made
restore-persisted_example =
    restore-persisted sample_hash sample_marshal (codes "upgrade") (codes "/w") changes []
      no_metadata (ground arith) (dir_stores, (update_stores, tt)) (λ content. ground arith)

made_restored : restore sample_hash sample_marshal (persisted made) ≡ ok made
unfolding restored_plan
made_restored = refl

restore_sound_example :
    (cs : List Change) × ((persisted made).changes ≡ map persist_change cs)
    × All (IsStorable sample_hash sample_marshal) cs
    × (made
        ≡ new_plan sample_hash sample_marshal
            (persisted made).operation
            (persisted made).workspace
            cs
            (persisted made).inputs
            (persisted made).metadata)
    × ((persisted made).id
        ≡ sample_hash
            (sample_marshal made.operation made.workspace made.changes made.inputs made.metadata))
restore_sound_example = restore_sound sample_hash sample_marshal (persisted made) made made_restored

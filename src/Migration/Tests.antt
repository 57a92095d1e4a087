-- ===== src/Migration/Tests.antt =====
-- Runs of the registry, and the theorems at concrete registries.
use uawp.Base.{
  ◌≡◌, ◌≢◌, ◌↔◌, refl, List, [], ◌∷◌, Bytes, codes, ok, err, Result, bytes_beq, bytes_ltb,
}
use uawp.Base.Sort.{sort}
use uawp.Base.FilePath.{split}
use uawp.Base.Number.{atoi}
use uawp.Migration.Version.{Version, parse_version, compare_version}
use uawp.Migration.Registry.{
  Step, Registry, MigrationError, ambiguous, not_forward, no_path, skips_target, downgrade, cycle,
  out_of_fuel, step_at, register, follow, follow_all, new_registry, resolve, resolve_loop,
  version_or,
}
use uawp.Migration.Registry.Walk.{IsWalk}
use uawp.Migration.Registry.Resolve.{IsVersion, resolve_iff, resolve_total}

abbrev first_step : Step
first_step = record { from = codes "1.0.0"; to = codes "1.1.0" }

abbrev second_step : Step
second_step = record { from = codes "1.1.0"; to = codes "1.2.0" }

abbrev steps : List Step
steps = second_step ∷ first_step ∷ []

-- Unfolding these opens all that a run calls.
built : List Step → Result MigrationError Registry
unfolding new_registry register follow_all follow version_or parse_version compare_version step_at
    sort bytes_ltb bytes_beq atoi split
built = new_registry

resolved : Registry → Bytes → Bytes → Result MigrationError (List Step)
unfolding resolve resolve_loop version_or parse_version compare_version step_at bytes_beq atoi split
resolved = resolve

abbrev registry : Registry
registry = record { by_source = first_step ∷ second_step ∷ [] }

is_built : new_registry steps ≡ ok registry
unfolding built
is_built = refl

two_steps : resolve registry (codes "1.0.0") (codes "1.2.0") ≡ ok (first_step ∷ second_step ∷ [])
unfolding resolved
two_steps = refl

nothing_to_do : resolve registry (codes "1.2.0") (codes "1.2.0") ≡ ok []
unfolding resolved
nothing_to_do = refl

no_way_back : resolve registry (codes "1.2.0") (codes "1.0.0") ≡ err downgrade
unfolding resolved
no_way_back = refl

no_way_on : resolve registry (codes "1.0.0") (codes "1.3.0") ≡ err no_path
unfolding resolved
no_way_on = refl

skipped : resolve registry (codes "1.0.0") (codes "1.1.5") ≡ err skips_target
unfolding resolved
skipped = refl

backward :
    new_registry (record { from = codes "1.10.0"; to = codes "1.9.0" } ∷ []) ≡ err not_forward
unfolding built
backward = refl

twice : new_registry (first_step ∷ first_step ∷ []) ≡ err ambiguous
unfolding built
twice = refl

-- strconv.Atoi takes a sign.
signed_version : parse_version (codes "+1.0.0") ≡ ok (record { major = 1; minor = 0; patch = 0 })
unfolding built
signed_version = refl

resolve_iff_example :
    (resolve registry (codes "1.0.0") (codes "1.2.0") ≡ ok registry.by_source)
    ↔ IsVersion (codes "1.0.0")
      × IsVersion (codes "1.2.0")
      × IsWalk registry.by_source (codes "1.0.0") (codes "1.2.0") registry.by_source
resolve_iff_example =
    resolve_iff steps registry (codes "1.0.0") (codes "1.2.0") registry.by_source is_built

resolve_total_example :
    (resolve registry (codes "1.0.0") (codes "1.3.0") ≢ err cycle)
    × (resolve registry (codes "1.0.0") (codes "1.3.0") ≢ err out_of_fuel)
resolve_total_example = resolve_total steps registry (codes "1.0.0") (codes "1.3.0") is_built

abbrev one_nine : Version
one_nine = record { major = 1; minor = 9; patch = 0 }

abbrev one_ten : Version
one_ten = record { major = 1; minor = 10; patch = 0 }

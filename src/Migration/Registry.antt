-- ===== src/Migration/Registry.antt =====
-- internal/migration/registry.go: the registry of steps, and the way from one version to another.
pub mod Walk
pub mod Laws
pub mod Resolve
use uawp.Base.{
  ℕ, zero, suc, Bool, true, false, not, ◌&&◌, ◌||◌, Option, none, some, List, [], ◌∷◌, ◌++◌, ◌==◌,
  bytes_eq, if◌then◌else◌, Result, ok, err, ◌>>=◌, ◌>>◌, refuse_if, length, contains, Bytes,
  bytes_ltb,
}
use uawp.Base.Int.{ℤ, pos, negsuc, int_ltb}
use uawp.Base.Sort.{sort}
use uawp.Migration.Version.{Version, parse_version, compare_version, VersionError}

-- `Step` is an interface; the registry reads its two versions.
pub record Step : Type 0 where
  pub from : Bytes
  pub to : Bytes

-- The map from sources to steps, as the list of its steps.
pub record Registry : Type 0 where
  pub by_source : List Step

pub data MigrationError : Type 0 where
  invalid_source invalid_target not_forward ambiguous cycle : MigrationError
  downgrade no_path skips_target : MigrationError
  -- the model's own: a loop was given too little fuel
  out_of_fuel : MigrationError

unfoldable pub step_at : List Step → Bytes → Option Step
step_at [] source = none
step_at (s ∷ steps) source = if s.from == source then some s else step_at steps source

abbrev pub by_versions : Step → Step → Bool
by_versions a b = if a.from == b.from then bytes_ltb a.to b.to else bytes_ltb a.from b.from

abbrev pub is_positive : ℤ → Bool
is_positive n = int_ltb (pos 0) n

unfoldable pub version_or : MigrationError → Bytes → Result MigrationError Version
version_or e value = elim (parse_version value) [ ok v ↦ ok v | err x ↦ err e ]

-- The first loop of `NewRegistry`.
unfoldable pub register : List Step → List Step → Result MigrationError (List Step)
register done [] = ok done
register done (s ∷ steps) = do
  from ← version_or invalid_source s.from
  to ← version_or invalid_target s.to
  refuse_if (not (int_ltb (compare_version from to) (pos 0))) not_forward
  refuse_if (elim (step_at done s.from) [ none ↦ false | some other ↦ true ]) ambiguous
  register (done ++ (s ∷ [])) steps

-- The inner loop that follows the steps from one source.
unfoldable pub follow : ℕ → List Step → List Bytes → Bytes → Result MigrationError (Unit {0})
follow zero steps seen current = err out_of_fuel
follow (suc fuel) steps seen current =
    let more = λ (s : Step). follow fuel steps (current ∷ seen) s.to in
    if contains seen current
    then err cycle
    else elim (step_at steps current) [ none ↦ ok tt | some s ↦ more s ]

-- The loop over all sources.
unfoldable pub follow_all : List Step → List Step → Result MigrationError (Unit {0})
follow_all steps [] = ok tt
follow_all steps (s ∷ rest) = do follow (suc (length steps)) steps [] s.from; follow_all steps rest

unfoldable pub new_registry : List Step → Result MigrationError Registry
new_registry steps = do
  registered ← register [] (sort by_versions steps)
  follow_all registered registered
  ok (record { by_source = registered })

-- What `parseVersion` leaves in its array when it fails: the numbers before the failing part.
-- No registered step has such a target, so the zero version stands for them all.
abbrev pub version_or_zero : Result VersionError Version → Version
version_or_zero (ok v) = v
version_or_zero (err e) = record { major = 0; minor = 0; patch = 0 }

-- The loop of `Resolve`. The version of a step's target is read without its error.
unfoldable pub resolve_loop :
    ℕ → List Step → Bytes → Version → List Bytes → Bytes → Result MigrationError (List Step)
resolve_loop zero steps to to_version seen current = err out_of_fuel
resolve_loop (suc fuel) steps to to_version seen current =
    let more = λ (s : Step).
      (resolve_loop fuel steps to to_version (current ∷ seen) s.to >>= λ rest. ok (s ∷ rest)) in
    if current == to
    then ok []
    else if contains seen current
    then err cycle
    else elim (step_at steps current) [
      | none ↦ err no_path
      | some s ↦
          if is_positive (compare_version (version_or_zero (parse_version s.to)) to_version)
          then err skips_target
          else more s
    ]

unfoldable pub resolve : Registry → Bytes → Bytes → Result MigrationError (List Step)
resolve r from to = do
  from_version ← version_or invalid_source from
  to_version ← version_or invalid_target to
  refuse_if (is_positive (compare_version from_version to_version)) downgrade
  resolve_loop (suc (length r.by_source)) r.by_source to to_version [] from

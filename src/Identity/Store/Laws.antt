-- ===== src/Identity/Store/Laws.antt =====
-- What a valid registry is, and that changing its bindings keeps it valid.
use uawp.Base.{
  AreNew-start, ◌≡◌, ◌≢◌, ◌↔◌, refl, arith, Bool, true, false, ◌||◌, List, [], ◌∷◌, ◌==◌, bytes_eq,
  nat_eq, Bytes, codes, ok, All, AreNew, AreNew-cons_iff, contains, has_prefix, trim_space,
  AreDistinct, All-imp, ◌⊎◌, bytes_beq_iff, Result-cases, inl, inr,
}
use uawp.Base.Sort.{any}
use uawp.Identity.Profile.{Profile}
use uawp.Identity.Store.{
  SessionBinding, binding_key, is_invalid_binding, validate_profile, validate_profiles,
  validate_bindings, validate_registry, Registry,
}

-- Some profile has the identifier.
abbrev pub is_known : List Profile → Bytes → Bool
is_known profiles id = any (λ p. p.profile_id == id) profiles

abbrev pub IsBindingOf : List Profile → SessionBinding → Type 0
IsBindingOf profiles b =
    (has_prefix b.workspace (codes "/") ≡ true)
    × (is_known profiles b.profile_id ≡ true)
    × (trim_space b.session_id ≢ [])
    × (b.generation ≢ 0)

-- The identifiers that the loop over the profiles has seen at its end.
abbrev ids_after : List Bytes → List Profile → List Bytes
ids_after ids [] = ids
ids_after ids (p ∷ profiles) = ids_after (p.profile_id ∷ ids) profiles

contains-ids_after :
    (ids : List Bytes) (profiles : List Profile) (id : Bytes)
    → contains (ids_after ids profiles) id ≡ (is_known profiles id || contains ids id)
contains-ids_after ids [] id = refl
contains-ids_after ids (p ∷ profiles) id =
    ground (arith, contains-ids_after (p.profile_id ∷ ids) profiles id)

is_invalid_binding_iff :
    (profiles : List Profile) (b : SessionBinding)
    → (is_invalid_binding (ids_after [] profiles) b ≡ false) ↔ IsBindingOf profiles b
unfolding has_prefix
is_invalid_binding_iff profiles b = ground (arith, contains-ids_after [] profiles b.profile_id)

validate_profiles_iff :
    (ids workers : List Bytes) (profiles : List Profile) (out : List Bytes)
    → (validate_profiles ids workers profiles ≡ ok out)
      ↔ All (λ p. validate_profile p ≡ ok tt) profiles
        × AreNew (λ (p : Profile). p.profile_id) ids profiles
        × AreNew (λ (p : Profile). p.worker_id) workers profiles
        × (out ≡ ids_after ids profiles)
unfolding validate_profiles
validate_profiles_iff ids workers [] out = ground arith
validate_profiles_iff ids workers (p ∷ profiles) out = ground (
  arith,
  AreNew-cons_iff (λ (p : Profile). p.profile_id) ids p profiles,
  AreNew-cons_iff (λ (p : Profile). p.worker_id) workers p profiles,
  validate_profiles_iff (p.profile_id ∷ ids) (p.worker_id ∷ workers) profiles out,
)

validate_bindings_iff :
    (ids seen : List Bytes) (bindings : List SessionBinding)
    → (validate_bindings ids seen bindings ≡ ok tt)
      ↔ All (λ b. is_invalid_binding ids b ≡ false) bindings × AreNew binding_key seen bindings
unfolding validate_bindings
validate_bindings_iff ids seen [] = ground arith
validate_bindings_iff ids seen (b ∷ bindings) = ground (
  arith,
  AreNew-cons_iff binding_key seen b bindings,
  validate_bindings_iff ids (binding_key b ∷ seen) bindings,
)

are_bindings_iff :
    (profiles : List Profile) (bindings : List SessionBinding)
    → All (λ b. is_invalid_binding (ids_after [] profiles) b ≡ false) bindings
      ↔ All (IsBindingOf profiles) bindings
are_bindings_iff profiles bindings = (
  All-imp bindings (λ b. (is_invalid_binding_iff profiles b).0),
  All-imp bindings (λ b. (is_invalid_binding_iff profiles b).1),
)

-- The rules for a registry.
abbrev pub IsConsistent : Registry → Type 0
IsConsistent r =
    (r.schema_version ≡ codes "1")
    × All (λ p. validate_profile p ≡ ok tt) r.profiles
    × AreDistinct (λ (p : Profile). p.profile_id) r.profiles
    × AreDistinct (λ (p : Profile). p.worker_id) r.profiles
    × ((r.default_profile_id ≡ []) ⊎ (is_known r.profiles r.default_profile_id ≡ true))
    × All (IsBindingOf r.profiles) r.bindings
    × AreDistinct binding_key r.bindings

-- The identifiers that the validation of the profiles leaves.
validate_profiles_start_iff :
    (profiles : List Profile) (out : List Bytes)
    → (validate_profiles [] [] profiles ≡ ok out)
      ↔ All (λ p. validate_profile p ≡ ok tt) profiles
        × AreDistinct (λ (p : Profile). p.profile_id) profiles
        × AreDistinct (λ (p : Profile). p.worker_id) profiles
        × (out ≡ ids_after [] profiles)
validate_profiles_start_iff profiles out = ground (
  arith,
  validate_profiles_iff [] [] profiles out,
  AreNew-start (λ (p : Profile). p.profile_id) profiles,
  AreNew-start (λ (p : Profile). p.worker_id) profiles,
)

validate_bindings_start_iff :
    (profiles : List Profile) (bindings : List SessionBinding)
    → (validate_bindings (ids_after [] profiles) [] bindings ≡ ok tt)
      ↔ All (IsBindingOf profiles) bindings × AreDistinct binding_key bindings
validate_bindings_start_iff profiles bindings = ground (
  arith,
  validate_bindings_iff (ids_after [] profiles) [] bindings,
  are_bindings_iff profiles bindings,
  AreNew-start binding_key bindings,
)

-- The registry's validation accepts exactly a registry of schema 1 in which every profile is valid
-- on its own, no two profiles share an identifier or a Worker, the default profile is empty or
-- known, and the bindings are well formed, are of known profiles, and have distinct keys.
pub validate_registry_iff : (r : Registry) → (validate_registry r ≡ ok tt) ↔ IsConsistent r
unfolding validate_registry
validate_registry_iff r = elim (Result-cases (validate_profiles [] [] r.profiles)) [
  | inl (ids, e) ↦ ground (
    arith,
    bytes_beq_iff r.schema_version (codes "1"),
    e,
    validate_profiles_start_iff r.profiles ids,
    contains-ids_after [] r.profiles r.default_profile_id,
    validate_bindings_start_iff r.profiles r.bindings,
  )
  | inr (x, e) ↦ ground (arith, e, validate_profiles_start_iff r.profiles (ids_after [] r.profiles))
]

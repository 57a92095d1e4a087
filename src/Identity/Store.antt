-- ===== src/Identity/Store.antt =====
-- internal/identity/store.go: the registry of profiles and bindings, its validation and selection.
pub mod Laws
pub mod Selection
use uawp.Base.{
  ℕ, Bool, ◌&&◌, ◌||◌, not, List, [], ◌∷◌, ◌++◌, ◌==◌, ◌/=◌, nat_eq, bytes_eq, if◌then◌else◌,
  Result, ok, err, ◌>>=◌, ◌>>◌, refuse_if, contains, Bytes, codes, is_empty, trim_space,
  contains_any, has_prefix,
}
use uawp.Identity.Profile.{
  Profile, IdentityError, selection_required, no_such_profile, unsupported_schema,
  invalid_profile_id, invalid_worker_id, duplicate_id, no_default_profile, invalid_binding,
  duplicate_binding, validate_display_name,
}

-- internal/identity/session.go
pub record SessionBinding : Type 0 where
  pub workspace : Bytes
  pub profile_id : Bytes
  pub session_id : Bytes
  pub generation : ℕ

pub record Registry : Type 0 where
  pub schema_version : Bytes
  pub default_profile_id : Bytes
  pub profiles : List Profile
  pub bindings : List SessionBinding

unfoldable pub find_profile : List Profile → Bytes → Result IdentityError Profile
find_profile [] id = err no_such_profile
find_profile (p ∷ profiles) id = if p.profile_id == id then ok p else find_profile profiles id

-- The identifier that `Selected` looks for.
abbrev pub wanted_id : Registry → Bytes → Bool → Bytes
wanted_id r profile_id allow_default =
    let trimmed = trim_space profile_id in
    if is_empty trimmed && allow_default then r.default_profile_id else trimmed

unfoldable pub selected : Registry → Bytes → Bool → Result IdentityError Profile
selected r profile_id allow_default = do
  let id = wanted_id r profile_id allow_default
  refuse_if (is_empty id) selection_required
  find_profile r.profiles id

abbrev is_blank_or_multiline : Bytes → Bool
is_blank_or_multiline value = is_empty (trim_space value) || contains_any value (codes "\r\n")

-- The checks on one profile alone.
unfoldable pub validate_profile : Profile → Result IdentityError (Unit {0})
validate_profile p = do
  refuse_if (is_blank_or_multiline p.profile_id) invalid_profile_id
  refuse_if (is_blank_or_multiline p.worker_id) invalid_worker_id
  _ ← validate_display_name p.display_name
  ok tt

-- The loop over the profiles, with the identifiers seen so far; it leaves the profiles' identifiers.
unfoldable pub validate_profiles :
    List Bytes → List Bytes → List Profile → Result IdentityError (List Bytes)
validate_profiles ids workers [] = ok ids
validate_profiles ids workers (p ∷ profiles) = do
  validate_profile p
  refuse_if (contains ids p.profile_id || contains workers p.worker_id) duplicate_id
  validate_profiles (p.profile_id ∷ ids) (p.worker_id ∷ workers) profiles

-- The workspace, a zero byte and the profile.
abbrev pub binding_key : SessionBinding → Bytes
binding_key b = b.workspace ++ (0 ∷ b.profile_id)

-- `filepath.IsAbs` on a Unix system.
abbrev pub is_invalid_binding : List Bytes → SessionBinding → Bool
is_invalid_binding ids b =
    is_empty b.workspace
    || not (has_prefix b.workspace (codes "/"))
    || not (contains ids b.profile_id)
    || is_empty (trim_space b.session_id)
    || b.generation == 0

unfoldable pub validate_bindings :
    List Bytes → List Bytes → List SessionBinding → Result IdentityError (Unit {0})
validate_bindings ids seen [] = ok tt
validate_bindings ids seen (b ∷ bindings) = do
  refuse_if (is_invalid_binding ids b) invalid_binding
  refuse_if (contains seen (binding_key b)) duplicate_binding
  validate_bindings ids (binding_key b ∷ seen) bindings

unfoldable pub validate_registry : Registry → Result IdentityError (Unit {0})
validate_registry r = do
  refuse_if (r.schema_version /= codes "1") unsupported_schema
  ids ← validate_profiles [] [] r.profiles
  refuse_if (not (is_empty r.default_profile_id) && not (contains ids r.default_profile_id))
      no_default_profile
  validate_bindings ids [] r.bindings

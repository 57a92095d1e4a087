-- ===== src/Core/Manifest.antt =====
-- internal/core/manifest.go: the validation of the manifest of a workspace.
pub mod Rules
pub mod Laws
pub mod Whole
pub mod Decode
mod Tests
use uawp.Base.{
  ℕ, Bool, true, false, ◌&&◌, ◌||◌, not, List, [], ◌∷◌, ◌==◌, ◌/=◌, nat_eq, bytes_eq, if◌then◌else◌,
  ltb, Result, ok, err, ◌>>=◌, ◌>>◌, refuse_if, contains, length, Bytes, codes, is_empty,
  contains_any, has_prefix,
}
use uawp.Base.FilePath.{clean, split}
use uawp.Base.Pattern.{is_hash, is_name, is_digit, all}

-- `IntegrationMode` is a string; `unknown` stands for every text but the three constants.
pub data IntegrationMode : Type 0 where
  direct import_line managed_block : IntegrationMode
  unknown : Bytes → IntegrationMode

-- The map of the consumers' facts, as the list of its entries.
pub record IntegrationArtifact : Type 0 where
  pub id : Bytes
  pub path : Bytes
  pub mode : IntegrationMode
  pub target : Bytes
  pub consumers : List Bytes
  pub consumer_facts : List (Bytes × List (Bytes × Bytes))
  pub created_file : Bool
  pub inserted : Bool
  pub inserted_imports : List Bytes
  pub artifact_sha256 : Bytes
  pub outside_content_sha256 : Bytes

pub record Manifest : Type 0 where
  pub protocol : Bytes
  pub state_version : Bytes
  pub integrations : List IntegrationArtifact

pub data ManifestError : Type 0 where
  unknown_namespace malformed_version : ManifestError
  invalid_id invalid_path invalid_mode invalid_hash no_consumer invalid_consumer foreign_facts
        invalid_import :
      ManifestError
  duplicate_id duplicate_path shared_consumer : ManifestError

abbrev is_known_mode : IntegrationMode → Bool
is_known_mode (IntegrationMode.unknown m) = false
is_known_mode _ = true

-- (0|[1-9][0-9]*)
unfoldable pub is_plain_number : Bytes → Bool
unfolding all
is_plain_number s =
    not (is_empty s) && all is_digit s && not (ltb 1 (length s) && has_prefix s (codes "0"))

-- stateVersionPattern: three numbers with dots between them.
unfoldable pub is_state_version : Bytes → Bool
is_state_version s = elim (split b'.' s) [
  | a ∷ b ∷ c ∷ [] ↦ is_plain_number a && is_plain_number b && is_plain_number c
  | _ ↦ false
]

-- The test on the path, the target and the imports.
unfoldable pub is_portable : Bytes → Bool
is_portable value =
    not (is_empty value)
    && not (contains_any value (codes "\\"))
    && not (has_prefix value (codes "/"))
    && clean value == value
    && value /= codes "."
    && not (has_prefix value (codes "../"))

-- The loop over the consumers of one artifact.
unfoldable pub validate_consumers : List Bytes → List Bytes → Result ManifestError (List Bytes)
validate_consumers seen [] = ok seen
validate_consumers seen (consumer ∷ consumers) = do
  refuse_if (not (is_name consumer) || contains seen consumer) invalid_consumer
  validate_consumers (consumer ∷ seen) consumers

unfoldable pub validate_facts :
    List Bytes → List (Bytes × List (Bytes × Bytes)) → Result ManifestError (Unit {0})
validate_facts seen [] = ok tt
validate_facts seen ((consumer, facts) ∷ rest) = do
  refuse_if (not (contains seen consumer)) foreign_facts
  validate_facts seen rest

unfoldable pub validate_imports : List Bytes → List Bytes → Result ManifestError (Unit {0})
validate_imports seen [] = ok tt
validate_imports seen (target ∷ targets) = do
  refuse_if (not (is_portable target) || contains seen target) invalid_import
  validate_imports (target ∷ seen) targets

unfoldable pub validate_integration : IntegrationArtifact → Result ManifestError (Unit {0})
validate_integration a = do
  refuse_if (not (is_name a.id)) invalid_id
  refuse_if (not (is_portable a.path) || not (is_portable a.target)) invalid_path
  refuse_if (not (is_known_mode a.mode)) invalid_mode
  refuse_if (not (is_hash a.artifact_sha256)) invalid_hash
  refuse_if (not (is_empty a.outside_content_sha256) && not (is_hash a.outside_content_sha256))
      invalid_hash
  refuse_if (length a.consumers == 0) no_consumer
  seen ← validate_consumers [] a.consumers
  validate_facts seen a.consumer_facts
  validate_imports [] a.inserted_imports

-- The loop that registers the consumers of one artifact among those of all.
unfoldable pub register_consumers : List Bytes → List Bytes → Result ManifestError (List Bytes)
register_consumers seen [] = ok seen
register_consumers seen (consumer ∷ consumers) = do
  refuse_if (contains seen consumer) shared_consumer
  register_consumers (consumer ∷ seen) consumers

-- The loop over the artifacts.
unfoldable pub validate_integrations :
    List Bytes
    → List Bytes
    → List Bytes
    → List IntegrationArtifact
    → Result ManifestError (Unit {0})
validate_integrations ids paths consumers [] = ok tt
validate_integrations ids paths consumers (a ∷ artifacts) = do
  validate_integration a
  refuse_if (contains ids a.id) duplicate_id
  refuse_if (contains paths a.path) duplicate_path
  registered ← register_consumers consumers a.consumers
  validate_integrations (a.id ∷ ids) (a.path ∷ paths) registered artifacts

unfoldable pub validate_manifest : Manifest → Result ManifestError (Unit {0})
validate_manifest m = do
  refuse_if (m.protocol /= codes "UAWP") unknown_namespace
  refuse_if (not (is_state_version m.state_version)) malformed_version
  validate_integrations [] [] [] m.integrations

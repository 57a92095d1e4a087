-- ===== src/Core/Manifest/Tests.antt =====
-- Runs of the manifest's validation, and the theorems at concrete manifests.
use uawp.Base.{
  ◌≡◌, ◌↔◌, refl, true, List, [], ◌∷◌, Bytes, codes, ok, err, Result, bytes_beq, contains_any,
  has_prefix, bytes_eq,
}
use uawp.Base.FilePath.{clean, clean_segments, join, split}
use uawp.Base.Pattern.{is_hash, is_name, all}
use uawp.Core.Manifest.{
  IntegrationArtifact, Manifest, ManifestError, import_line, shared_consumer, malformed_version,
  is_portable, is_plain_number, is_state_version, validate_consumers, validate_facts,
  validate_imports, validate_integration, register_consumers, validate_integrations,
  validate_manifest,
}
use uawp.Core.Manifest.Whole.{IsManifest, validate_manifest_iff}

abbrev hash : Bytes
hash = codes "0123456789abcdef0123456789abcdef0123456789abcdef0123456789abcdef"

abbrev artifact : Bytes → Bytes → Bytes → IntegrationArtifact
artifact id path consumer = record {
  id = id;
  path = path;
  mode = import_line;
  target = codes ".uawp/BOOT.md";
  consumers = consumer ∷ [];
  consumer_facts = [];
  created_file = true;
  inserted = true;
  inserted_imports = codes ".uawp/BOOT.md" ∷ [];
  artifact_sha256 = hash;
  outside_content_sha256 = [];
}

abbrev manifest : List IntegrationArtifact → Manifest
manifest integrations = record {
  protocol = codes "UAWP";
  state_version = codes "1.2.0";
  integrations = integrations;
}

abbrev two_tools : Manifest
two_tools = manifest (
    artifact (codes "claude") (codes "CLAUDE.md") (codes "claude")
    ∷ artifact (codes "codex") (codes "AGENTS.md") (codes "codex")
    ∷ [])

-- Unfolding this opens all that a run calls.
checked : Manifest → Result ManifestError (Unit {0})
unfolding validate_manifest validate_integrations validate_integration validate_consumers
    validate_facts validate_imports register_consumers is_portable is_state_version is_plain_number
    bytes_beq contains_any has_prefix clean clean_segments join split is_hash is_name all
checked = validate_manifest

two_tools_valid : validate_manifest two_tools ≡ ok tt
unfolding checked
two_tools_valid = refl

shared :
    validate_manifest (
      manifest (
        artifact (codes "a") (codes "a.md") (codes "x")
        ∷ artifact (codes "b") (codes "b.md") (codes "x")
        ∷ []))
    ≡ err shared_consumer
unfolding checked
shared = refl

short_version :
    validate_manifest (record two_tools { state_version = codes "1.02.0" }) ≡ err malformed_version
unfolding checked
short_version = refl

-- The parent of the workspace is portable for this test, which looks for a slash after the dots.
parent_portable : is_portable (codes "..") ≡ true
unfolding checked
parent_portable = refl

validate_manifest_iff_example : (validate_manifest two_tools ≡ ok tt) ↔ IsManifest two_tools
validate_manifest_iff_example = validate_manifest_iff two_tools

abbrev claude : IntegrationArtifact
claude = artifact (codes "claude") (codes "CLAUDE.md") (codes "claude")

-- ===== src/Core/Manifest/Whole.antt =====
-- What a valid manifest is: the rules across its artifacts.
use uawp.Core.Manifest.Rules.{IsStateVersion, is_state_version_iff}
use uawp.Base.{
  ◌≡◌, ◌↔◌, arith, List, [], ◌∷◌, ◌++◌, bytes_eq, bytes_beq_iff, Bytes, codes, ok, All, AreDistinct,
  AreNew, AreNew-cons_iff, AreNew-start, Result-cases, inl, inr,
}
use uawp.Core.Manifest.{
  IntegrationArtifact, Manifest, register_consumers, validate_integrations, validate_manifest,
}
use uawp.Core.Manifest.Laws.{
  itself, seen_after, AreNew-append, IsIntegration, validate_integration_iff,
}

register_consumers_iff :
    (seen consumers out : List Bytes)
    → (register_consumers seen consumers ≡ ok out)
      ↔ AreNew itself seen consumers × (out ≡ seen_after seen consumers)
unfolding register_consumers
register_consumers_iff seen [] out = ground arith
register_consumers_iff seen (c ∷ consumers) out = ground (
  arith,
  AreNew-cons_iff itself seen c consumers,
  register_consumers_iff (c ∷ seen) consumers out,
)

-- The consumers of all artifacts.
abbrev pub consumers_of : List IntegrationArtifact → List Bytes
consumers_of [] = []
consumers_of (a ∷ artifacts) = a.consumers ++ consumers_of artifacts

abbrev id_of : IntegrationArtifact → Bytes
id_of a = a.id

abbrev path_of : IntegrationArtifact → Bytes
path_of a = a.path

validate_integrations_iff :
    (ids paths consumers : List Bytes) (artifacts : List IntegrationArtifact)
    → (validate_integrations ids paths consumers artifacts ≡ ok tt)
      ↔ All IsIntegration artifacts
        × AreNew id_of ids artifacts
        × AreNew path_of paths artifacts
        × AreNew itself consumers (consumers_of artifacts)
unfolding validate_integrations
validate_integrations_iff ids paths consumers [] = ground arith
validate_integrations_iff ids paths consumers (a ∷ artifacts) =
    elim (Result-cases (register_consumers consumers a.consumers)) [
      | inl (seen, e) ↦ ground (
        arith,
        e,
        validate_integration_iff a,
        AreNew-cons_iff id_of ids a artifacts,
        AreNew-cons_iff path_of paths a artifacts,
        register_consumers_iff consumers a.consumers seen,
        AreNew-append consumers a.consumers (consumers_of artifacts),
        validate_integrations_iff (a.id ∷ ids) (a.path ∷ paths) (seen_after consumers a.consumers)
            artifacts,
      )
      | inr (x, e) ↦ ground (
        arith,
        e,
        register_consumers_iff consumers a.consumers (seen_after consumers a.consumers),
        AreNew-append consumers a.consumers (consumers_of artifacts),
      )
    ]

-- The rules for a manifest.
abbrev pub IsManifest : Manifest → Type 0
IsManifest m =
    (m.protocol ≡ codes "UAWP")
    × IsStateVersion m.state_version
    × All IsIntegration m.integrations
    × AreDistinct id_of m.integrations
    × AreDistinct path_of m.integrations
    × AreDistinct itself (consumers_of m.integrations)

-- ValidateManifest accepts exactly a manifest of this protocol with a state version of three plain
-- numbers, whose artifacts are valid on their own, have distinct identifiers and distinct paths, and
-- of which no two share a consumer. An artifact is valid with an identifier and consumers of the
-- pattern for names, a path, a target and imports that path.Clean keeps and that are relative and
-- without a backslash, a known mode, and hashes of 64 hexadecimal digits. The path `..` is accepted,
-- and any version of that form, unlike in schemas/manifest.schema.json.
pub validate_manifest_iff : (m : Manifest) → (validate_manifest m ≡ ok tt) ↔ IsManifest m
unfolding validate_manifest
validate_manifest_iff m = ground (
  arith,
  bytes_beq_iff m.protocol (codes "UAWP"),
  is_state_version_iff m.state_version,
  validate_integrations_iff [] [] [] m.integrations,
  AreNew-start id_of m.integrations,
  AreNew-start path_of m.integrations,
  AreNew-start itself (consumers_of m.integrations),
)

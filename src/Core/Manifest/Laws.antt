-- ===== src/Core/Manifest/Laws.antt =====
-- What a valid manifest is.
use uawp.Core.Manifest.Rules.{IsName, IsPortable, IsHash, is_name_iff, is_portable_iff, is_hash_iff}
use uawp.Base.{
  ◌≡◌, ◌≢◌, ◌↔◌, ◌⊎◌, arith, true, List, [], ◌∷◌, ◌++◌, bytes_eq, nat_eq, Bytes, ok, All,
  AreDistinct, AreNew, AreNew-cons_iff, AreNew-start, contains, Result-cases, inl, inr,
}
use uawp.Core.Manifest.{
  IntegrationArtifact, is_known_mode, validate_consumers, validate_facts, validate_imports,
  validate_integration,
}

abbrev pub itself : Bytes → Bytes
itself text = text

-- The set of the texts seen after a loop over a list.
abbrev pub seen_after : List Bytes → List Bytes → List Bytes
seen_after seen [] = seen
seen_after seen (x ∷ xs) = seen_after (x ∷ seen) xs

contains-seen_after :
    (seen xs : List Bytes) (x : Bytes)
    → (contains (seen_after seen xs) x ≡ true) ↔ ((contains xs x ≡ true) ⊎ (contains seen x ≡ true))
contains-seen_after seen [] x = ground arith
contains-seen_after seen (y ∷ xs) x = ground (arith, contains-seen_after (y ∷ seen) xs x)

pub AreNew-append :
    (seen xs ys : List Bytes)
    → AreNew itself seen (xs ++ ys) ↔ AreNew itself seen xs × AreNew itself (seen_after seen xs) ys
AreNew-append seen [] ys = ground arith
AreNew-append seen (x ∷ xs) ys = ground (
  arith,
  AreNew-cons_iff itself seen x (xs ++ ys),
  AreNew-cons_iff itself seen x xs,
  AreNew-append (x ∷ seen) xs ys,
)

validate_consumers_iff :
    (seen consumers out : List Bytes)
    → (validate_consumers seen consumers ≡ ok out)
      ↔ All IsName consumers × AreNew itself seen consumers × (out ≡ seen_after seen consumers)
unfolding validate_consumers
validate_consumers_iff seen [] out = ground arith
validate_consumers_iff seen (c ∷ consumers) out = ground (
  arith,
  is_name_iff c,
  AreNew-cons_iff itself seen c consumers,
  validate_consumers_iff (c ∷ seen) consumers out,
)

validate_facts_iff :
    (consumers : List Bytes) (facts : List (Bytes × List (Bytes × Bytes)))
    → (validate_facts (seen_after [] consumers) facts ≡ ok tt)
      ↔ All (λ (f : Bytes × List (Bytes × Bytes)). contains consumers f.0 ≡ true) facts
unfolding validate_facts
validate_facts_iff consumers [] = ground arith
validate_facts_iff consumers ((c, f) ∷ facts) =
    ground (arith, contains-seen_after [] consumers c, validate_facts_iff consumers facts)

validate_imports_iff :
    (seen targets : List Bytes)
    → (validate_imports seen targets ≡ ok tt) ↔ All IsPortable targets × AreNew itself seen targets
unfolding validate_imports
validate_imports_iff seen [] = ground arith
validate_imports_iff seen (t ∷ targets) = ground (
  arith,
  is_portable_iff t,
  AreNew-cons_iff itself seen t targets,
  validate_imports_iff (t ∷ seen) targets,
)

-- The rules for one artifact.
abbrev pub IsIntegration : IntegrationArtifact → Type 0
IsIntegration a =
    IsName a.id
    × IsPortable a.path
    × IsPortable a.target
    × (is_known_mode a.mode ≡ true)
    × IsHash a.artifact_sha256
    × ((a.outside_content_sha256 ≡ []) ⊎ IsHash a.outside_content_sha256)
    × (a.consumers ≢ [])
    × All IsName a.consumers
    × AreDistinct itself a.consumers
    × All (λ (f : Bytes × List (Bytes × Bytes)). contains a.consumers f.0 ≡ true) a.consumer_facts
    × All IsPortable a.inserted_imports
    × AreDistinct itself a.inserted_imports

-- ValidateManifest accepts an artifact by itself exactly under these rules: identifier, paths, mode
-- and hashes well formed, one or more consumers, all named well and distinct, facts only of these
-- consumers, and inserted imports that are well formed and distinct.
pub validate_integration_iff :
    (a : IntegrationArtifact) → (validate_integration a ≡ ok tt) ↔ IsIntegration a
unfolding validate_integration
validate_integration_iff a = elim (Result-cases (validate_consumers [] a.consumers)) [
  | inl (seen, e) ↦ ground (
    arith,
    e,
    is_name_iff a.id,
    is_portable_iff a.path,
    is_portable_iff a.target,
    is_hash_iff a.artifact_sha256,
    is_hash_iff a.outside_content_sha256,
    validate_consumers_iff [] a.consumers seen,
    AreNew-start itself a.consumers,
    validate_facts_iff a.consumers a.consumer_facts,
    validate_imports_iff [] a.inserted_imports,
    AreNew-start itself a.inserted_imports,
  )
  | inr (x, e) ↦ ground (
    arith,
    e,
    is_name_iff a.id,
    is_portable_iff a.path,
    is_portable_iff a.target,
    is_hash_iff a.artifact_sha256,
    is_hash_iff a.outside_content_sha256,
    validate_consumers_iff [] a.consumers (seen_after [] a.consumers),
    AreNew-start itself a.consumers,
  )
]

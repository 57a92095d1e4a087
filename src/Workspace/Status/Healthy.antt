-- ===== src/Workspace/Status/Healthy.antt =====
-- What stands on the disk of a workspace that the tests of the diagnosis let pass.
use uawp.Base.{
  none, some, ok, bytes_eq, nat_eq, true, false, [], ◌∷◌, ◌++◌, ◌≡◌, ◌↔◌, ◌≤◌, codes, arith,
  Result-cases, inl, inr, refl, Option, List, Bytes, ℕ, length, All, has_prefix, contains, not,
  ◌&&◌, ltb, bytes_beq_iff, ◌*◌, ◌≢◌, ◌∙◌, ap, Option-cases, subst,
}
use uawp.Core.StateVersion
use uawp.Core.StateVersion.{classify_state_version, StateCompatibility}
use uawp.Core.Manifest.{Manifest}
use uawp.Core.Manifest.Decode.{decode_manifest}
use uawp.Workspace.Disk.{
  Node, file, directory, symlink, special, Disk, lookup, is_directory, is_regular, read_node,
}
use uawp.Workspace.Discover.{owned_namespace, classify_namespace, classify_manifest, stands}
use uawp.Workspace.Status.{
  Readers, has_pending_purge, find_purge_tombstone, tombstone_among, tombstone_names,
  check_tombstone, is_complete,
}

-- What the tests of the diagnosis say of such a workspace.
pub record IsUsable (readers : Readers) (d : Disk) : Type 0 where
  pub no_purge : has_pending_purge readers d ≡ false
  pub no_tombstone : find_purge_tombstone readers d ≡ ok none
  pub no_journal : stands (lookup d (codes ".uawp/RECOVERY.json")) ≡ false
  pub manifest : Manifest
  pub owned : classify_namespace readers.json d ≡ owned_namespace manifest StateVersion.current
  pub complete :
      is_complete d (codes "CONTEXT.md" ∷ codes "ACTIVE_WORKER.md" ∷ codes "DECISIONS.md" ∷ [])
      ≡ true
  pub checkpoints : is_directory (lookup d (codes ".uawp/checkpoints")) ≡ true

-- No entry of the root has the name of a purge tombstone.
abbrev NoTombstone : Disk → Type 0
NoTombstone d =
    All
      (λ (e : Bytes × Node).
        (has_prefix e.0 (codes ".uawp-purge-") && not (contains e.0 b'/')) ≡ false)
      d

-- Nothing waits for a recovery or a purge, the manifest is of the present version, and the files of
-- a workspace are there.
pub record IsHealthy (readers : Readers) (d : Disk) : Type 0 where
  pub no_purge : lookup d (codes ".uawp/PURGE.json") ≡ none
  pub no_tombstone : NoTombstone d
  pub no_journal : lookup d (codes ".uawp/RECOVERY.json") ≡ none
  pub namespace : lookup d (codes ".uawp") ≡ some directory
  pub content : Bytes
  pub mode : ℕ
  pub manifest_file : lookup d (codes ".uawp/manifest.json") ≡ some (file content mode)
  pub bounded : length content ≤ 1024 * 1024
  pub manifest : Manifest
  pub decoded : decode_manifest (readers.json content) ≡ ok manifest
  pub version : manifest.state_version ≡ codes "1.2.0"
  pub context : is_regular (lookup d (codes ".uawp/CONTEXT.md")) ≡ true
  pub claim : is_regular (lookup d (codes ".uawp/ACTIVE_WORKER.md")) ≡ true
  pub decisions : is_regular (lookup d (codes ".uawp/DECISIONS.md")) ≡ true
  pub checkpoints : lookup d (codes ".uawp/checkpoints") ≡ some directory

stands_iff : (n : Option Node) → (stands n ≡ false) ↔ (n ≡ none)
stands_iff n = ground arith

is_directory_iff : (n : Option Node) → (is_directory n ≡ true) ↔ (n ≡ some directory)
is_directory_iff none = ground arith
is_directory_iff (some (file content mode)) = ground arith
is_directory_iff (some directory) = ground arith
is_directory_iff (some (symlink target)) = ground arith
is_directory_iff (some special) = ground arith

tombstone_names_iff : (d : Disk) → (tombstone_names d ≡ []) ↔ NoTombstone d
unfolding tombstone_names
tombstone_names_iff [] = ground arith
tombstone_names_iff ((p, n) ∷ d) = ground (arith, tombstone_names_iff d)

version_iff : (v : Bytes) → (classify_state_version v ≡ StateVersion.current) ↔ (v ≡ codes "1.2.0")
unfolding classify_state_version
version_iff v = ground (arith, bytes_beq_iff v (codes "1.2.0"))

module _ (readers : Readers) (d : Disk) where
  check_tombstone-found : (p : Bytes) → check_tombstone readers d p ≢ ok none
  unfolding check_tombstone
  check_tombstone-found p h =
      elim (Option-cases (read_node (lookup d (p ++ codes "/manifest.json")))) [
        | inl e ↦ ground arith
        | inr (content, e) ↦ elim (Result-cases (decode_manifest (readers.json content))) [
          | inl (m, g) ↦ ground arith
          | inr (x, g) ↦ ground arith
        ]
      ]

  tombstone_iff : (names : List Bytes) → (tombstone_among readers d names ≡ ok none) ↔ (names ≡ [])
  unfolding tombstone_among
  tombstone_iff [] = ground arith
  tombstone_iff (p ∷ []) = (λ h. absurd (check_tombstone-found p h), λ h. absurd (ground arith))
  tombstone_iff (p ∷ q ∷ names) = ground arith

  abbrev IsPresentManifest : Option Node → Manifest → Type 0
  IsPresentManifest n m =
      (content : Bytes) × (mode : ℕ) × (n ≡ some (file content mode))
      × (length content ≤ 1024 * 1024)
      × (decode_manifest (readers.json content) ≡ ok m)
      × (m.state_version ≡ codes "1.2.0")

  manifest_to :
      (n : Option Node) (m : Manifest)
      → classify_manifest readers.json n ≡ owned_namespace m StateVersion.current
      → IsPresentManifest n m
  unfolding classify_manifest
  manifest_to none m h = absurd (ground arith)
  manifest_to (some (file content mode)) m h =
      elim (Result-cases (decode_manifest (readers.json content))) [
        | inl (k, e) ↦
            let same : k ≡ m = ground arith in
            let here : classify_state_version k.state_version ≡ StateVersion.current =
              ground arith in
            (
              content,
              mode,
              refl,
              ground arith,
              e ∙ ap ok same,
              subst (λ (x : Manifest). x.state_version ≡ codes "1.2.0") same
                  ((version_iff k.state_version).0 here),
            )
        | inr (x, e) ↦ absurd (ground arith)
      ]
  manifest_to (some directory) m h = absurd (ground arith)
  manifest_to (some (symlink target)) m h = absurd (ground arith)
  manifest_to (some special) m h = absurd (ground arith)

  manifest_from :
      (n : Option Node) (m : Manifest)
      → IsPresentManifest n m
      → classify_manifest readers.json n ≡ owned_namespace m StateVersion.current
  unfolding classify_manifest
  manifest_from n m (content, mode, found, bounded, decoded, version) =
      let here = (version_iff m.state_version).1 version in
      let small : ltb (1024 * 1024) (length content) ≡ false = ground arith in
      rw (found, small, decoded, here) refl

  owned_to :
      (n : Option Node)
      → lookup d (codes ".uawp") ≡ n
      → (m : Manifest) → classify_namespace readers.json d ≡ owned_namespace m StateVersion.current
      → (lookup d (codes ".uawp") ≡ some directory)
        × IsPresentManifest (lookup d (codes ".uawp/manifest.json")) m
  unfolding classify_namespace
  owned_to none e m h = absurd (ground arith)
  owned_to (some (file content mode)) e m h = absurd (ground arith)
  owned_to (some directory) e m h = (e, manifest_to _ m (ground arith))
  owned_to (some (symlink target)) e m h = absurd (ground arith)
  owned_to (some special) e m h = absurd (ground arith)

  owned_parts :
      (m : Manifest)
      → (classify_namespace readers.json d ≡ owned_namespace m StateVersion.current) ↔ (
          (lookup d (codes ".uawp") ≡ some directory)
          × IsPresentManifest (lookup d (codes ".uawp/manifest.json")) m)
  unfolding classify_namespace
  owned_parts m = (owned_to _ refl m, λ w. rw (classify_namespace, w.0) (manifest_from _ m w.1))

  pub IsHealthy-IsUsable : IsHealthy readers d ↔ IsUsable readers d
  unfolding has_pending_purge find_purge_tombstone is_complete
  IsHealthy-IsUsable = (
    λ k. record {
      no_purge = (stands_iff _).1 k.no_purge;
      no_tombstone = (tombstone_iff _).1 ((tombstone_names_iff d).1 k.no_tombstone);
      no_journal = (stands_iff _).1 k.no_journal;
      manifest = k.manifest;
      owned =
          (owned_parts k.manifest).1
            (k.namespace, (k.content, k.mode, k.manifest_file, k.bounded, k.decoded, k.version));
      complete = rw (k.context, k.claim, k.decisions) refl;
      checkpoints = (is_directory_iff _).1 k.checkpoints;
    },
    λ k.
        let (here, found_manifest) = (owned_parts k.manifest).0 k.owned in
        let (content, mode, found, bounded, decoded, version) = found_manifest in
        let complete = k.complete in
        record {
          no_purge = (stands_iff _).0 k.no_purge;
          no_tombstone = (tombstone_names_iff d).0 ((tombstone_iff _).0 k.no_tombstone);
          no_journal = (stands_iff _).0 k.no_journal;
          namespace = here;
          content = content;
          mode = mode;
          manifest_file = found;
          bounded = bounded;
          manifest = k.manifest;
          decoded = decoded;
          version = version;
          context = ground arith;
          claim = ground arith;
          decisions = ground arith;
          checkpoints = (is_directory_iff _).0 k.checkpoints;
        },
  )

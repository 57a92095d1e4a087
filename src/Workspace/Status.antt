-- ===== src/Workspace/Status.antt =====
-- internal/workspace/status.go: the diagnosis of a workspace. Of a finding the model keeps the
-- code; its texts are messages.
pub mod Healthy
pub mod Laws
use uawp.Base.{
  ℕ, Bool, true, false, not, ◌&&◌, ◌||◌, Option, none, some, List, [], ◌∷◌, ◌++◌, ◌==◌, bytes_eq,
  nat_eq, if◌then◌else◌, Result, ok, err, ◌>>=◌, ◌>>◌, refuse_if, Bytes, codes, has_prefix,
  contains,
}
use uawp.Adapter.ImportLine.{contains_text}
use uawp.Core.Manifest.{Manifest}
use uawp.Core.Manifest.Decode.{JsonDocument, DecodeError, decode_manifest}
use uawp.Core.Ownership.{Ownership, is_active}
use uawp.Core.Ownership.Codec.{Clock, CodecError, decode_ownership}
use uawp.Core.StateVersion.{StateCompatibility, current, unsupported, future_major}
use uawp.Core.StateVersion
use uawp.Workspace.Disk.{
  Node, file, directory, symlink, special, Disk, lookup, is_directory, is_regular, read_node,
}
use uawp.Workspace.Discover.{
  Namespace, absent_namespace, unknown_namespace, owned_namespace, invalid_namespace,
  ManifestProblem, classify_namespace, stands, discover,
}
use uawp.Workspace.Resume.{
  FindingCode, ready, uninitialized, active_owner, invalid_manifest, unsupported_version,
  invalid_ownership, incomplete_state, recovery_required, upgrade_required,
}
use uawp.Workspace.Resume

pub data TombstoneError : Type 0 where
  several_tombstones unsafe_tombstone unrecognized_tombstone : TombstoneError

pub data ReadError : Type 0 where
  unreadable_file : ReadError
  undecoded : CodecError → ReadError

-- What the code calls and does not define: package time, the decoder of encoding/json, and the
-- text of a problem with the manifest, which package fmt makes.
pub record Readers : Type 0 where
  pub clock : Clock
  pub json : Bytes → JsonDocument
  pub describe : ManifestProblem → Bytes

-- filepath.Glob for the names `.uawp-purge-*` in the root.
unfoldable pub tombstone_names : Disk → List Bytes
tombstone_names [] = []
tombstone_names ((p, n) ∷ d) =
    let rest = tombstone_names d in
    if has_prefix p (codes ".uawp-purge-") && not (contains p b'/') then p ∷ rest else rest

unfoldable pub is_complete : Disk → List Bytes → Bool
is_complete d [] = true
is_complete d (name ∷ names) = is_regular (lookup d (codes ".uawp/" ++ name)) && is_complete d names

module _ (readers : Readers) where
  unfoldable pub check_tombstone : Disk → Bytes → Result TombstoneError (Option Bytes)
  check_tombstone d path = do
    refuse_if (not (is_directory (lookup d path))) unsafe_tombstone
    elim (read_node (lookup d (path ++ codes "/manifest.json"))) [
      | none ↦ err unrecognized_tombstone
      | some content ↦ elim (decode_manifest (readers.json content)) [
        | err e ↦ err unrecognized_tombstone
        | ok manifest ↦ do
          refuse_if (not (manifest.protocol == codes "UAWP")) unrecognized_tombstone
          ok (some path)
      ]
    ]

  unfoldable pub tombstone_among : Disk → List Bytes → Result TombstoneError (Option Bytes)
  unfolding check_tombstone
  tombstone_among d [] = ok none
  tombstone_among d (path ∷ []) = check_tombstone d path
  tombstone_among d (path ∷ more ∷ rest) = err several_tombstones

  unfoldable pub find_purge_tombstone : Disk → Result TombstoneError (Option Bytes)
  unfolding tombstone_among tombstone_names
  find_purge_tombstone d = tombstone_among d (tombstone_names d)

  unfoldable pub read_ownership : Disk → Result ReadError Ownership
  unfolding decode_ownership
  read_ownership d = elim (read_node (lookup d (codes ".uawp/ACTIVE_WORKER.md"))) [
    | none ↦ err unreadable_file
    | some content ↦ elim (decode_ownership readers.clock content) [
      | err e ↦ err (undecoded e)
      | ok ownership ↦ ok ownership
    ]
  ]

  -- The part of `diagnose` after the compatibility of the state has been found to be the best.
  unfoldable pub diagnose_state : Disk → FindingCode
  unfolding read_ownership is_complete
  diagnose_state d =
      if stands (lookup d (codes ".uawp/RECOVERY.json"))
      then recovery_required
      else if not (
            is_complete d
              (codes "CONTEXT.md" ∷ codes "ACTIVE_WORKER.md" ∷ codes "DECISIONS.md" ∷ []))
          || not (is_directory (lookup d (codes ".uawp/checkpoints")))
      then incomplete_state
      else (elim (read_ownership d) [
        | err e ↦ invalid_ownership
        | ok ownership ↦ if is_active ownership.status then active_owner else ready
      ])

  unfoldable pub diagnose_namespace : Disk → Namespace → FindingCode
  unfolding diagnose_state
  diagnose_namespace d absent_namespace = uninitialized
  diagnose_namespace d unknown_namespace = Resume.unknown_namespace
  diagnose_namespace d (invalid_namespace problem) =
      if contains_text (readers.describe problem) (codes "UNSUPPORTED_VERSION")
      then unsupported_version
      else invalid_manifest
  diagnose_namespace d (owned_namespace manifest current) = diagnose_state d
  diagnose_namespace d (owned_namespace manifest StateVersion.upgrade_required) = upgrade_required
  diagnose_namespace d (owned_namespace manifest unsupported) = unsupported_version
  diagnose_namespace d (owned_namespace manifest future_major) = unsupported_version

  unfoldable pub has_pending_purge : Disk → Bool
  has_pending_purge d = stands (lookup d (codes ".uawp/PURGE.json"))

  unfoldable pub diagnose : Disk → FindingCode
  unfolding has_pending_purge find_purge_tombstone diagnose_namespace classify_namespace
  diagnose d = if has_pending_purge d then recovery_required else (elim (find_purge_tombstone d) [
    | err e ↦ recovery_required
    | ok (some path) ↦ recovery_required
    | ok none ↦
        if is_regular (lookup d (codes ".uawp/RECOVERY.json"))
        then recovery_required
        else diagnose_namespace d (classify_namespace readers.json d)
  ])

-- ===== src/Plan/Change/Laws.antt =====
-- Which changes `RestoreChange` accepts, and that the constructors build such changes.
use uawp.Base.{ℕ, ◌≡◌, refl, ◌↔◌, ◌≢◌, false, arith, [], Bytes, length, ok, bytes_beq_iff, bytes_eq}
use uawp.Base.Int.{ℤ, pos, int_eq, is_negative}
use uawp.Plan.Change.{
  ChangeKind, create_dir, create_file, update_file, delete_file, delete_dir, unsupported,
  missing_sha256, directory_sha256, Change, PersistedChange, persist_change, new_directory,
  new_delete_file, new_delete_directory, new_file, new_update_file, restore_change, restored,
  with_sequence, check_kind,
}

module _ (hash_bytes : Bytes → Bytes) where
  -- A change says of the content before and after what its kind means.
  abbrev pub IsConsistent : ChangeKind → Change → Type 0
  IsConsistent create_dir c =
      (c.before_sha256 ≡ missing_sha256)
      × (c.after_sha256 ≡ directory_sha256)
      × (c.size ≡ pos 0)
      × (c.content ≡ [])
  IsConsistent create_file c =
      (c.size ≡ pos (length c.content)) × (c.after_sha256 ≡ hash_bytes c.content)
  IsConsistent update_file c =
      (c.size ≡ pos (length c.content)) × (c.after_sha256 ≡ hash_bytes c.content)
  IsConsistent delete_file c =
      (c.after_sha256 ≡ missing_sha256) × (c.size ≡ pos 0) × (c.content ≡ [])
  IsConsistent delete_dir c =
      (c.before_sha256 ≡ directory_sha256)
      × (c.after_sha256 ≡ missing_sha256)
      × (c.size ≡ pos 0)
      × (c.content ≡ [])
  IsConsistent (unsupported k) c = ⊥

  check_kind_iff :
      (k : ChangeKind) (c : Change) → (check_kind hash_bytes k c ≡ ok tt) ↔ IsConsistent k c
  unfolding check_kind
  check_kind_iff create_dir c = ground (
    arith,
    bytes_beq_iff c.before_sha256 missing_sha256,
    bytes_beq_iff c.after_sha256 directory_sha256,
  )
  check_kind_iff create_file c = ground (arith, bytes_beq_iff c.after_sha256 (hash_bytes c.content))
  check_kind_iff update_file c = ground (arith, bytes_beq_iff c.after_sha256 (hash_bytes c.content))
  check_kind_iff delete_file c = ground (arith, bytes_beq_iff c.after_sha256 missing_sha256)
  check_kind_iff delete_dir c = ground (
    arith,
    bytes_beq_iff c.before_sha256 directory_sha256,
    bytes_beq_iff c.after_sha256 missing_sha256,
  )
  check_kind_iff (unsupported k) c = ground arith

  size_of : (k : ChangeKind) (c : Change) → IsConsistent k c → is_negative c.size ≡ false
  size_of create_dir c h = ground arith
  size_of create_file c h = ground arith
  size_of update_file c h = ground arith
  size_of delete_file c h = ground arith
  size_of delete_dir c h = ground arith
  size_of (unsupported k) c h = absurd h

  -- `RestoreChange` accepts a stored change exactly when its path is not empty and its hashes, size
  -- and content agree with its kind; what it returns is then stored as it was read.
  pub restore_change_iff :
      (v : PersistedChange) (c : Change)
      → (restore_change hash_bytes v ≡ ok c)
        ↔ ((c.path ≢ []) × IsConsistent c.kind c × (v ≡ persist_change c))
  unfolding restore_change persist_change
  restore_change_iff v c =
      ground (arith, check_kind_iff c.kind c, check_kind_iff v.kind (restored v), size_of c.kind c)

  -- The change survives storage.
  abbrev pub Survives : Change → Type 0
  Survives c = restore_change hash_bytes (persist_change c) ≡ ok c

  -- What the constructors build for a path that is not empty can be stored and restored, with any
  -- sequence number.
  restore_change-constructors :
      (path before content : Bytes) (mode : ℕ) (sequence : ℤ)
      → path ≢ []
      → Survives (with_sequence (new_directory path mode) sequence)
        × Survives (with_sequence (new_file hash_bytes path mode before content) sequence)
        × Survives (with_sequence (new_update_file hash_bytes path mode before content) sequence)
        × Survives (with_sequence (new_delete_file path before) sequence)
        × Survives (with_sequence (new_delete_directory path) sequence)
  unfolding new_directory new_file new_update_file new_delete_file new_delete_directory
      with_sequence
  restore_change-constructors path before content mode sequence h =
      let r = λ (c : Change) (k : IsConsistent c.kind c) (e : c.path ≢ []).
        (restore_change_iff (persist_change c) c).1 (e, k, refl) in
      (
        r _ (refl, refl, refl, refl) h,
        r _ (refl, refl) h,
        r _ (refl, refl) h,
        r _ (refl, refl, refl) h,
        r _ (refl, refl, refl, refl) h,
      )

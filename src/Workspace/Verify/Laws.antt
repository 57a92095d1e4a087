-- ===== src/Workspace/Verify/Laws.antt =====
-- What the checks before an application say of the disk.
use uawp.Base.{
  ◌≡◌, inl, inr, none, some, List, [], ◌∷◌, ◌==◌, bytes_eq, ◌&&◌, true, Bytes, ok, arith,
  bytes_beq_iff, Bool-cases, Option-cases, Result-cases, subst, refl, All, Option, ℕ,
}
use uawp.Workspace.Disk.{
  symlink, special, file, directory, is_regular, Node, Disk, lookup, read_node,
}
use uawp.Workspace.Verify.{
  reads_as, input_unchanged, verify_inputs, is_before, verify_before_state, Input, Change,
  missing_sha256, directory_sha256, target_for_change,
}
use uawp.Workspace.Boundary.Laws.{target_for_change_sound}
use uawp.Base.FilePath.{clean}

-- What stands at the path of an input is what the plan was made on: nothing, a directory, or a file
-- of that hash.
pub data IsUnchanged (hash_bytes : Bytes → Bytes) (d : Disk) (i : Input) : Type 0 where
  was_missing :
      i.sha256 ≡ missing_sha256 → lookup d (clean i.path) ≡ none → IsUnchanged hash_bytes d i
  was_directory :
      i.sha256 ≡ directory_sha256
      → lookup d (clean i.path) ≡ some directory
      → IsUnchanged hash_bytes d i
  was_file :
      (content : Bytes) (mode : ℕ)
      → lookup d (clean i.path) ≡ some (file content mode)
      → hash_bytes content ≡ i.sha256
      → IsUnchanged hash_bytes d i

-- What stands at the target of a change is what the plan was made on: nothing, or what reads as a
-- content of that hash.
pub data IsUntouched (hash_bytes : Bytes → Bytes) (d : Disk) (c : Change) : Type 0 where
  was_free : c.before_sha256 ≡ missing_sha256 → lookup d c.path ≡ none → IsUntouched hash_bytes d c
  was_read :
      (content : Bytes)
      → read_node (lookup d c.path) ≡ some content
      → hash_bytes content ≡ c.before_sha256
      → IsUntouched hash_bytes d c

module _ (hash_bytes : Bytes → Bytes) (d : Disk) where
  file_input :
      (i : Input) (n : Option Node)
      → lookup d (clean i.path) ≡ n
      → (is_regular n && reads_as hash_bytes n i.sha256) ≡ true
      → IsUnchanged hash_bytes d i
  file_input i none e h = absurd (ground arith)
  file_input i (some (file content mode)) e h =
      was_file content mode e (ground (arith, bytes_beq_iff (hash_bytes content) i.sha256))
  file_input i (some directory) e h = absurd (ground arith)
  file_input i (some (symlink target)) e h = absurd (ground arith)
  file_input i (some special) e h = absurd (ground arith)

  input-IsUnchanged :
      (i : Input) → input_unchanged hash_bytes d i ≡ true → IsUnchanged hash_bytes d i
  unfolding input_unchanged
  input-IsUnchanged i h = elim (Bool-cases (i.sha256 == missing_sha256)) [
    | inl m ↦ was_missing ((bytes_beq_iff i.sha256 missing_sha256).0 m) (ground arith)
    | inr m ↦ elim (Bool-cases (i.sha256 == directory_sha256)) [
      | inl k ↦ was_directory ((bytes_beq_iff i.sha256 directory_sha256).0 k) (ground arith)
      | inr k ↦ file_input i _ refl (ground arith)
    ]
  ]

  pub verify_inputs-IsUnchanged :
      (inputs : List Input)
      → verify_inputs hash_bytes inputs d ≡ ok tt
      → All (IsUnchanged hash_bytes d) inputs
  unfolding verify_inputs
  verify_inputs-IsUnchanged [] h = tt
  verify_inputs-IsUnchanged (i ∷ inputs) h =
      (input-IsUnchanged i (ground arith), verify_inputs-IsUnchanged inputs (ground arith))

  read_before :
      (c : Change) (n : Option Node)
      → lookup d c.path ≡ n
      → is_before hash_bytes c n ≡ true
      → IsUntouched hash_bytes d c
  unfolding is_before
  read_before c n e h = elim (Bool-cases (c.before_sha256 == missing_sha256)) [
    | inl m ↦ was_free ((bytes_beq_iff c.before_sha256 missing_sha256).0 m) (ground arith)
    | inr m ↦ elim (Option-cases (read_node n)) [
      | inl unread ↦ absurd (ground arith)
      | inr (content, read) ↦
          was_read content (rw e read)
            (ground (arith, bytes_beq_iff (hash_bytes content) c.before_sha256))
    ]
  ]

  pub verify_before_state-IsUntouched :
      (changes : List Change)
      → verify_before_state hash_bytes changes d ≡ ok tt
      → All (IsUntouched hash_bytes d) changes
  unfolding verify_before_state
  verify_before_state-IsUntouched [] h = tt
  verify_before_state-IsUntouched (c ∷ changes) h =
      elim (Result-cases (target_for_change d c.path)) [
        | inl (target, e) ↦
            let same = (target_for_change_sound d c.path target e).0 in
            let here : is_before hash_bytes c (lookup d target) ≡ true = ground arith in
            (
              read_before c _ refl
                  (subst (λ p. is_before hash_bytes c (lookup d p) ≡ true) same here),
              verify_before_state-IsUntouched changes (ground arith),
            )
        | inr (x, e) ↦ absurd (ground arith)
      ]

-- ===== src/Plan/Change.antt =====
-- internal/plan/change.go: one planned change, its constructors and its restoration.
pub mod Laws
use uawp.Base.{
  ℕ, zero, Bool, not, ◌||◌, Option, none, some, List, [], ◌∷◌, Eq, ◌==◌, ◌/=◌, nat_eq,
  if◌then◌else◌, Result, ok, err, ◌>>=◌, ◌>>◌, refuse_if, Bytes, codes, bytes_eq, is_empty, length,
}
use uawp.Base.Int.{ℤ, pos, negsuc, int_eq, is_negative}

-- `ChangeKind` is a string; `unsupported` stands for every text but the five constants.
pub data ChangeKind : Type 0 where
  create_dir create_file update_file delete_file delete_dir : ChangeKind
  unsupported : Bytes → ChangeKind

abbrev pub missing_sha256 : Bytes
missing_sha256 = codes "MISSING"

abbrev pub directory_sha256 : Bytes
directory_sha256 = codes "DIRECTORY"

pub record Change : Type 0 where
  pub kind : ChangeKind
  pub path : Bytes
  pub before_sha256 : Bytes
  pub after_sha256 : Bytes
  pub mode : ℕ
  pub size : ℤ
  pub sequence : ℤ
  pub content : Bytes

-- The form that is stored: the same fields, the content exported.
pub record PersistedChange : Type 0 where
  pub kind : ChangeKind
  pub path : Bytes
  pub before_sha256 : Bytes
  pub after_sha256 : Bytes
  pub mode : ℕ
  pub size : ℤ
  pub sequence : ℤ
  pub content : Bytes

-- The loop body of `Plan.Persisted`.
unfoldable pub persist_change : Change → PersistedChange
persist_change c = record {
  kind = c.kind;
  path = c.path;
  before_sha256 = c.before_sha256;
  after_sha256 = c.after_sha256;
  mode = c.mode;
  size = c.size;
  sequence = c.sequence;
  content = c.content;
}

unfoldable pub new_directory : Bytes → ℕ → Change
new_directory path mode = record {
  kind = create_dir;
  path = path;
  before_sha256 = missing_sha256;
  after_sha256 = directory_sha256;
  mode = mode;
  size = pos 0;
  sequence = pos 0;
  content = [];
}

unfoldable pub new_delete_file : Bytes → Bytes → Change
new_delete_file path before = record {
  kind = delete_file;
  path = path;
  before_sha256 = before;
  after_sha256 = missing_sha256;
  mode = 0;
  size = pos 0;
  sequence = pos 0;
  content = [];
}

unfoldable pub new_delete_directory : Bytes → Change
new_delete_directory path = record {
  kind = delete_dir;
  path = path;
  before_sha256 = directory_sha256;
  after_sha256 = missing_sha256;
  mode = 0;
  size = pos 0;
  sequence = pos 0;
  content = [];
}

unfoldable pub with_sequence : Change → ℤ → Change
with_sequence c sequence = record c { sequence = sequence }

pub data ChangeError : Type 0 where
  invalid_path_or_size invalid_directory content_mismatch : ChangeError
  invalid_delete invalid_directory_deletion unsupported_kind : ChangeError

-- The change that `RestoreChange` copies out of the stored form.
unfoldable pub restored : PersistedChange → Change
restored value = record {
  kind = value.kind;
  path = value.path;
  before_sha256 = value.before_sha256;
  after_sha256 = value.after_sha256;
  mode = value.mode;
  size = value.size;
  sequence = value.sequence;
  content = value.content;
}

-- `hash_bytes` is SHA-256 in hexadecimal.
module _ (hash_bytes : Bytes → Bytes) where
  unfoldable pub new_file : Bytes → ℕ → Bytes → Bytes → Change
  new_file path mode before content = record {
    kind = create_file;
    path = path;
    before_sha256 = before;
    after_sha256 = hash_bytes content;
    mode = mode;
    size = pos (length content);
    sequence = pos 0;
    content = content;
  }

  unfoldable pub new_update_file : Bytes → ℕ → Bytes → Bytes → Change
  new_update_file path mode before content = record {
    kind = update_file;
    path = path;
    before_sha256 = before;
    after_sha256 = hash_bytes content;
    mode = mode;
    size = pos (length content);
    sequence = pos 0;
    content = content;
  }

  -- The switch on the kind in `RestoreChange`.
  unfoldable pub check_kind : ChangeKind → Change → Result ChangeError (Unit {0})
  check_kind create_dir c =
      refuse_if
        (c.before_sha256 /= missing_sha256
          || c.after_sha256 /= directory_sha256
          || c.size /= pos 0
          || not (is_empty c.content))
        invalid_directory
  check_kind create_file c =
      refuse_if (c.size /= pos (length c.content) || c.after_sha256 /= hash_bytes c.content)
        content_mismatch
  check_kind update_file c =
      refuse_if (c.size /= pos (length c.content) || c.after_sha256 /= hash_bytes c.content)
        content_mismatch
  check_kind delete_file c =
      refuse_if (c.after_sha256 /= missing_sha256 || c.size /= pos 0 || not (is_empty c.content))
        invalid_delete
  check_kind delete_dir c =
      refuse_if
        (c.before_sha256 /= directory_sha256
          || c.after_sha256 /= missing_sha256
          || c.size /= pos 0
          || not (is_empty c.content))
        invalid_directory_deletion
  check_kind (unsupported k) c = err unsupported_kind

  unfoldable pub restore_change : PersistedChange → Result ChangeError Change
  unfolding restored
  restore_change value = do
    refuse_if (is_empty value.path || is_negative value.size) invalid_path_or_size
    let change = restored value
    check_kind change.kind change
    ok change

-- ===== src/Identity/Profile.antt =====
-- internal/identity/profile.go: profiles and their names.
use uawp.Base.{
  zero, ℕ, suc, ◌+◌, ◌-◌, ◌/◌, ◌%◌, [], ◌∷◌, ◌++◌, if◌then◌else◌, ltb, Result, ok, err, ◌>>=◌, ◌>>◌,
  refuse_if, Bytes, codes, is_empty, trim_space, length,
}
use uawp.Base.Sort.{any}
use uawp.Base.Utf8.{runes, is_control}

pub record Profile : Type 0 where
  pub profile_id : Bytes
  pub worker_id : Bytes
  pub display_name : Bytes

pub data IdentityError : Type 0 where
  name_required name_too_long name_has_control : IdentityError
  no_randomness : IdentityError
  selection_required no_such_profile : IdentityError
  unsupported_schema invalid_profile_id invalid_worker_id duplicate_id : IdentityError
  no_default_profile invalid_binding duplicate_binding : IdentityError

unfoldable pub validate_display_name : Bytes → Result IdentityError Bytes
validate_display_name value = do
  let name = trim_space value
  refuse_if (is_empty name) name_required
  refuse_if (ltb 100 (length (runes name))) name_too_long
  refuse_if (any is_control (runes name)) name_has_control
  ok name

abbrev hex_digit : ℕ → ℕ
hex_digit n = if ltb n 10 then b'0' + n else b'a' + (n - 10)

-- hex.EncodeToString
unfoldable pub hex : Bytes → Bytes
hex [] = []
hex (b ∷ rest) = hex_digit (b / 16) ∷ hex_digit (b % 16) ∷ hex rest

-- io.ReadFull on a reader that serves these bytes and then ends: the bytes read and those left.
unfoldable pub read_full : ℕ → Bytes → Result IdentityError (Bytes × Bytes)
read_full zero source = ok ([], source)
read_full (suc n) [] = err no_randomness
read_full (suc n) (b ∷ source) = do (value, left) ← read_full n source; ok (b ∷ value, left)

unfoldable pub random_id : Bytes → Bytes → Result IdentityError (Bytes × Bytes)
random_id prefix random = do (value, left) ← read_full 16 random; ok (prefix ++ hex value, left)

unfoldable pub new_profile : Bytes → Bytes → Result IdentityError (Profile × Bytes)
new_profile display_name random = do
  name ← validate_display_name display_name
  (profile_id, random) ← random_id (codes "profile-") random
  (worker_id, random) ← random_id (codes "worker-") random
  ok (record { profile_id = profile_id; worker_id = worker_id; display_name = name }, random)

-- ===== src/Migration/Version.antt =====
-- internal/migration/registry.go: versions of three numbers and their order.
use uawp.Base.{
  ℕ, ◌&&◌, ◌||◌, none, some, List, [], ◌∷◌, ◌≡◌, ◌↔◌, ◌⊎◌, ◌<◌, arith, nat_eq, bytes_eq, ltb,
  if◌then◌else◌, Result, ok, err, ◌>>=◌, length, Bytes, codes, is_empty, has_prefix,
}
use uawp.Base.Int.{ℤ, pos, negsuc}
use uawp.Base.FilePath.{split}
use uawp.Base.Number.{atoi}

pub record Version : Type 0 where
  pub major : ℕ
  pub minor : ℕ
  pub patch : ℕ

pub data VersionError : Type 0 where
  not_three_parts invalid_component : VersionError

-- The loop body of `parseVersion`.
unfoldable pub parse_component : Bytes → Result VersionError ℕ
unfolding atoi has_prefix
parse_component part =
    if is_empty part || ltb 1 (length part) && has_prefix part (codes "0")
    then err invalid_component
    else elim (atoi part) [
      | none ↦ err invalid_component
      | some (negsuc n) ↦ err invalid_component
      | some (pos n) ↦ ok n
    ]

unfoldable pub parse_parts : List Bytes → Result VersionError Version
unfolding parse_component
parse_parts (a ∷ b ∷ c ∷ []) = do
  major ← parse_component a
  minor ← parse_component b
  patch ← parse_component c
  ok (record { major = major; minor = minor; patch = patch })
parse_parts _ = err not_three_parts

unfoldable pub parse_version : Bytes → Result VersionError Version
unfolding parse_parts split
parse_version value = parse_parts (split b'.' value)

-- The loop over the three numbers, written out.
unfoldable pub compare_version : Version → Version → ℤ
compare_version left right =
    if ltb left.major right.major
    then negsuc 0
    else if ltb right.major left.major
    then pos 1
    else if ltb left.minor right.minor
    then negsuc 0
    else if ltb right.minor left.minor
    then pos 1
    else if ltb left.patch right.patch
    then negsuc 0
    else if ltb right.patch left.patch
    then pos 1
    else pos 0

-- The lexicographic order.
abbrev pub IsBefore : Version → Version → Type 0
IsBefore v w =
    (v.major < w.major)
    ⊎ (v.major ≡ w.major) × (v.minor < w.minor)
    ⊎ (v.major ≡ w.major) × (v.minor ≡ w.minor) × (v.patch < w.patch)

-- `compareVersion` is negative, zero or positive as the first version is lexicographically before,
-- equal to or after the second.
pub compare_version_order :
    (v w : Version)
    → ((compare_version v w ≡ negsuc 0) ↔ IsBefore v w)
      × ((compare_version v w ≡ pos 0) ↔ (v ≡ w))
      × ((compare_version v w ≡ pos 1) ↔ IsBefore w v)
unfolding compare_version
compare_version_order v w = (ground arith, ground arith, ground arith)

pub IsBefore-trans : (u v w : Version) → IsBefore u v → IsBefore v w → IsBefore u w
IsBefore-trans u v w h k = ground arith

pub IsBefore-irrefl : (v : Version) → ¬ IsBefore v v
IsBefore-irrefl v h = ground arith

pub compare_version_cases :
    (v w : Version)
    → (compare_version v w ≡ negsuc 0)
      ⊎ (compare_version v w ≡ pos 0)
      ⊎ (compare_version v w ≡ pos 1)
unfolding compare_version
compare_version_cases v w = ground arith

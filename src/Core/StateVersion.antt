-- ===== src/Core/StateVersion.antt =====
-- internal/core/version.go: what this program can do with a workspace of some state version.
pub mod Laws
mod Tests
use uawp.Base.{◌||◌, none, some, ◌==◌, bytes_eq, if◌then◌else◌, Bytes, codes}
use uawp.Base.FilePath.{cut}
use uawp.Base.Int.{pos, int_ltb}
use uawp.Base.Number.{atoi}

pub data StateCompatibility : Type 0 where
  current upgrade_required unsupported future_major : StateCompatibility

abbrev pub current_state_version : Bytes
current_state_version = codes "1.2.0"

unfoldable pub classify_state_version : Bytes → StateCompatibility
classify_state_version version =
    if version == current_state_version
    then current
    else if version == codes "1.0.0" || version == codes "1.1.0"
    then upgrade_required
    else elim (cut b'.' version) [
      | none ↦ unsupported
      | some (major_text, rest) ↦ elim (atoi major_text) [
        | none ↦ unsupported
        | some major ↦ if int_ltb (pos 1) major then future_major else unsupported
      ]
    ]

-- ===== src/Core/StateVersion/Tests.antt =====
-- Runs of the classification, and its theorem at a concrete version.
use uawp.Base.{◌≡◌, refl, Bytes, codes, ok, bytes_beq}
use uawp.Base.FilePath.{cut, split}
use uawp.Base.Number.{atoi}
use uawp.Migration.Version.{Version, parse_version}
use uawp.Core.StateVersion.{
  StateCompatibility, classify_state_version, current, upgrade_required, unsupported, future_major,
}

-- Unfolding this opens all that a run calls.
classified : Bytes → StateCompatibility
unfolding classify_state_version cut atoi bytes_beq
classified = classify_state_version

ours : classify_state_version (codes "1.2.0") ≡ current
unfolding classified
ours = refl

older : classify_state_version (codes "1.1.0") ≡ upgrade_required
unfolding classified
older = refl

later_minor : classify_state_version (codes "1.3.0") ≡ unsupported
unfolding classified
later_minor = refl

-- Only the first number is read.
half_version : classify_state_version (codes "2.x") ≡ future_major
unfolding classified
half_version = refl

abbrev two_one : Version
two_one = record { major = 2; minor = 1; patch = 0 }

two_one_parsed : parse_version (codes "2.1.0") ≡ ok two_one
unfolding parse_version split atoi
two_one_parsed = refl

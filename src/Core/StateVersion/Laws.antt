-- ===== src/Core/StateVersion/Laws.antt =====
-- The classification of a version, told by the numbers that the migrations read.
use uawp.Base.{
  ◌≡◌, refl, arith, List, [], ◌∷◌, Bytes, some, ok, bytes_eq, Result-cases, ℕ, codes, ◌↔◌, ◌<◌,
  bytes_beq_iff,
}
use uawp.Base.Int.{pos}
use uawp.Base.Number.{atoi}
use uawp.Migration.Version.{Version, parse_component, parse_parts, parse_version}
use uawp.Core.StateVersion.{classify_state_version, future_major}
use uawp.Base.FilePath.{split, cut-split}

parse_component-atoi :
    (part : Bytes) (n : ℕ) → parse_component part ≡ ok n → atoi part ≡ some (pos n)
unfolding parse_component
parse_component-atoi part n h = ground arith

parse_parts-first :
    (parts : List Bytes) (v : Version)
    → parse_parts parts ≡ ok v
    → (a : Bytes) × (b : Bytes) × (c : Bytes) × (parts ≡ a ∷ b ∷ c ∷ [])
      × (parse_component a ≡ ok v.major)
unfolding parse_parts
parse_parts-first [] v h = ground arith
parse_parts-first (a ∷ []) v h = ground arith
parse_parts-first (a ∷ b ∷ []) v h = ground arith
parse_parts-first (a ∷ b ∷ c ∷ []) v h = (
  a,
  b,
  c,
  refl,
  ground (
    arith,
    Result-cases (parse_component a),
    Result-cases (parse_component b),
    Result-cases (parse_component c),
  ),
)
parse_parts-first (a ∷ b ∷ c ∷ d ∷ rest) v h = ground arith

-- A version that the migrations can read is classified as of a future major version exactly when
-- its first number is above 1.
classify_state_version-future :
    (s : Bytes) (v : Version)
    → parse_version s ≡ ok v
    → (classify_state_version s ≡ future_major) ↔ (1 < v.major)
unfolding classify_state_version parse_version
classify_state_version-future s v h =
    let (a, b, c, parts, first) = parse_parts-first (split b'.' s) v h in
    let (rest, found) = cut-split b'.' s a b (c ∷ []) parts in
    ground (
      arith,
      found,
      parse_component-atoi a v.major first,
      bytes_beq_iff s (codes "1.2.0"),
      bytes_beq_iff s (codes "1.1.0"),
      bytes_beq_iff s (codes "1.0.0"),
    )

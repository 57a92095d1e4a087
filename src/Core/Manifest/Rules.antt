-- ===== src/Core/Manifest/Rules.antt =====
-- What a path and a version of a manifest are.
use uawp.Base.{
  ◌≡◌, ◌≢◌, ◌↔◌, ◌⊎◌, ◌≤◌, arith, true, false, List, [], ◌∷◌, bytes_eq, nat_eq, bytes_beq_iff,
  Bytes, codes, All, has_prefix, contains_any, length, refl, ℕ,
}
use uawp.Base.FilePath.{split, clean}
use uawp.Base.Pattern.{is_hex, is_tail, is_hash, is_name, all, is_digit}
use uawp.Core.Manifest.{is_portable, is_plain_number, is_state_version}

-- A path that is not empty, has no backslash and is not absolute, and that path.Clean keeps; the path
-- `.` and what begins with `../` are left out, the path `..` is not.
abbrev pub IsPortable : Bytes → Type 0
IsPortable v =
    (v ≢ [])
    × All (λ c. c ≢ b'\\') v
    × (has_prefix v (codes "/") ≡ false)
    × (clean v ≡ v)
    × (v ≢ codes ".")
    × (has_prefix v (codes "../") ≡ false)

-- Digits, with no zero in front of others.
abbrev pub IsPlainNumber : Bytes → Type 0
IsPlainNumber s =
    (s ≢ [])
    × All (λ c. (48 ≤ c) × (c ≤ 57)) s
    × ((length s ≤ 1) ⊎ (has_prefix s (codes "0") ≡ false))

-- Three plain numbers with dots between them.
abbrev pub IsStateVersion : Bytes → Type 0
IsStateVersion v =
    (a b c : Bytes) × (split b'.' v ≡ a ∷ b ∷ c ∷ [])
    × IsPlainNumber a
    × IsPlainNumber b
    × IsPlainNumber c

no_backslash_iff : (v : Bytes) → (contains_any v (codes "\\") ≡ false) ↔ All (λ c. c ≢ b'\\') v
unfolding contains_any
no_backslash_iff [] = ground arith
no_backslash_iff (c ∷ v) = ground (arith, no_backslash_iff v)

pub is_portable_iff : (v : Bytes) → (is_portable v ≡ true) ↔ IsPortable v
unfolding is_portable
is_portable_iff v =
    ground (arith, no_backslash_iff v, bytes_beq_iff (clean v) v, bytes_beq_iff v (codes "."))

digits_iff : (s : Bytes) → (all is_digit s ≡ true) ↔ All (λ c. (48 ≤ c) × (c ≤ 57)) s
unfolding all
digits_iff [] = ground arith
digits_iff (c ∷ s) = ground (arith, digits_iff s)

is_plain_number_iff : (s : Bytes) → (is_plain_number s ≡ true) ↔ IsPlainNumber s
unfolding is_plain_number
is_plain_number_iff s = ground (arith, digits_iff s)

parts_of :
    (v : Bytes) (parts : List Bytes)
    → split b'.' v ≡ parts
    → is_state_version v ≡ true
    → IsStateVersion v
unfolding is_state_version
parts_of v [] e h = absurd (ground arith)
parts_of v (a ∷ []) e h = absurd (ground arith)
parts_of v (a ∷ b ∷ []) e h = absurd (ground arith)
parts_of v (a ∷ b ∷ c ∷ []) e h = (
  a,
  b,
  c,
  e,
  (is_plain_number_iff a).0 (ground arith),
  (is_plain_number_iff b).0 (ground arith),
  (is_plain_number_iff c).0 (ground arith),
)
parts_of v (a ∷ b ∷ c ∷ d ∷ rest) e h = absurd (ground arith)

pub is_state_version_iff : (v : Bytes) → (is_state_version v ≡ true) ↔ IsStateVersion v
unfolding is_state_version
is_state_version_iff v = (
  parts_of v _ refl,
  λ (a, b, c, e, first, second, third).
      rw
        (
          is_state_version,
          e,
          (is_plain_number_iff a).1 first,
          (is_plain_number_iff b).1 second,
          (is_plain_number_iff c).1 third,
        )
        refl,
)

-- A digit, a small letter from a to f; a digit or a small letter; one of these, a dot, an underscore
-- or a hyphen.
abbrev pub IsHex : ℕ → Type 0
IsHex c = ((48 ≤ c) × (c ≤ 57)) ⊎ ((97 ≤ c) × (c ≤ 102))

abbrev pub IsWord : ℕ → Type 0
IsWord c = ((48 ≤ c) × (c ≤ 57)) ⊎ ((97 ≤ c) × (c ≤ 122))

abbrev pub IsTail : ℕ → Type 0
IsTail c = IsWord c ⊎ ((c ≡ b'.') ⊎ ((c ≡ b'_') ⊎ (c ≡ b'-')))

abbrev pub IsHash : Bytes → Type 0
IsHash s = (length s ≡ 64) × All IsHex s

abbrev pub IsName : Bytes → Type 0
IsName [] = ⊥
IsName (x ∷ xs) = IsWord x × All IsTail xs

hexes_iff : (s : Bytes) → (all is_hex s ≡ true) ↔ All IsHex s
unfolding all
hexes_iff [] = ground arith
hexes_iff (c ∷ s) = ground (arith, hexes_iff s)

tails_iff : (s : Bytes) → (all is_tail s ≡ true) ↔ All IsTail s
unfolding all
tails_iff [] = ground arith
tails_iff (c ∷ s) = ground (arith, tails_iff s)

pub is_hash_iff : (s : Bytes) → (is_hash s ≡ true) ↔ IsHash s
unfolding is_hash
is_hash_iff s = ground (arith, hexes_iff s)

pub is_name_iff : (s : Bytes) → (is_name s ≡ true) ↔ IsName s
unfolding is_name
is_name_iff [] = ground arith
is_name_iff (x ∷ xs) = ground (arith, tails_iff xs)

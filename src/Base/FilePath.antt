-- ===== src/Base/FilePath.antt =====
-- strings.Split, strings.Join, strings.Count for one byte, and path.Clean of the Go library.
use Prim.Native.Nat.{ℕ, suc}
use mathlib.Core.Bool.{Bool}
use mathlib.Core.List.{List, [], ◌∷◌, ◌++◌, reverse}
use mathlib.Core.Option.{Option, none, some}
use mathlib.Core.Path.{◌≡◌}
use native.Mathlib.Omega.{arith}
use mathlib.Core.Logic.{inl, inr}
use uawp.Base.Tests.{◌==◌, nat_eq, if◌then◌else◌, Bool-cases}
use uawp.Base.Text.{Bytes, codes, bytes_eq, is_empty, has_prefix}
use uawp.Base.{refl}

abbrev pub cons_to_first : ℕ → List Bytes → List Bytes
cons_to_first x [] = (x ∷ []) ∷ []
cons_to_first x (s ∷ rest) = (x ∷ s) ∷ rest

-- strings.Split: n separators give n + 1 parts.
unfoldable pub split : ℕ → Bytes → List Bytes
split sep [] = [] ∷ []
split sep (x ∷ xs) = let rest = split sep xs in if x == sep then [] ∷ rest else cons_to_first x rest

unfoldable pub join : Bytes → List Bytes → Bytes
join sep [] = []
join sep (s ∷ []) = s
join sep (s ∷ t ∷ rest) = s ++ (sep ++ join sep (t ∷ rest))

unfoldable pub count_byte : ℕ → Bytes → ℕ
count_byte c [] = 0
count_byte c (x ∷ xs) = if x == c then suc (count_byte c xs) else count_byte c xs

-- The stack of path.Clean, last element first: `..` takes away an element that is not `..`, is
-- dropped at a root, and is kept otherwise.
abbrev pop : Bool → List Bytes → List Bytes
pop rooted [] = if rooted then [] else codes ".." ∷ []
pop rooted (s ∷ stack) = if s == codes ".." then codes ".." ∷ s ∷ stack else stack

unfoldable pub clean_segments : Bool → List Bytes → List Bytes → List Bytes
clean_segments rooted stack [] = reverse stack
clean_segments rooted stack (s ∷ rest) =
    clean_segments rooted
      (if is_empty s
        then stack
        else if s == codes "."
        then stack
        else if s == codes ".."
        then pop rooted stack
        else s ∷ stack)
      rest

-- path.Clean
unfoldable pub clean : Bytes → Bytes
unfolding clean_segments split join has_prefix
clean path =
    let rooted = has_prefix path (codes "/") in
    let body = join (codes "/") (clean_segments rooted [] (split b'/' path)) in
    if rooted then codes "/" ++ body else if is_empty body then codes "." else body

-- strings.Cut for one byte.
unfoldable pub cut : ℕ → Bytes → Option (Bytes × Bytes)
cut sep [] = none
cut sep (x ∷ xs) =
    if x == sep
    then some ([], xs)
    else elim (cut sep xs) [ none ↦ none | some (before, after) ↦ some (x ∷ before, after) ]

cons_to_first_cons :
    (x : ℕ) (parts : List Bytes) (a b : Bytes) (rest : List Bytes)
    → cons_to_first x parts ≡ a ∷ b ∷ rest
    → (first : Bytes) × (parts ≡ first ∷ b ∷ rest) × (a ≡ x ∷ first)
cons_to_first_cons x [] a b rest h = ground arith
cons_to_first_cons x (s ∷ parts) a b rest h = (s, ground arith, ground arith)

-- The text before the first separator is the first part.
pub cut-split :
    (sep : ℕ) (s a b : Bytes) (rest : List Bytes)
    → split sep s ≡ a ∷ b ∷ rest
    → (t : Bytes) × (cut sep s ≡ some (a, t))
unfolding split cut
cut-split sep [] a b rest h = ground arith
cut-split sep (x ∷ xs) a b rest h = elim (Bool-cases (x == sep)) [
  | inl e ↦ (xs, ground arith)
  | inr e ↦
      let (first, parts, same) = cons_to_first_cons x (split sep xs) a b rest (ground arith) in
      let (t, found) = cut-split sep xs first b rest parts in (t, ground arith)
]

-- Splitting does not make the empty list of parts.
split-cons : (sep : ℕ) (s : Bytes) → (a : Bytes) × (rest : List Bytes) × (split sep s ≡ a ∷ rest)
unfolding split
split-cons sep [] = ([], [], refl)
split-cons sep (x ∷ xs) = elim (Bool-cases (x == sep)) [
  | inl e ↦ ([], split sep xs, ground arith)
  | inr e ↦ let (a, rest, parts) = split-cons sep xs in (x ∷ a, rest, ground arith)
]

join-cons_to_first :
    (sep : Bytes) (x : ℕ) (a : Bytes) (rest : List Bytes)
    → join sep (cons_to_first x (a ∷ rest)) ≡ x ∷ join sep (a ∷ rest)
unfolding join
join-cons_to_first sep x a [] = refl
join-cons_to_first sep x a (b ∷ rest) = refl

-- Joining the parts gives the text back.
pub join-split : (sep : ℕ) (s : Bytes) → join (sep ∷ []) (split sep s) ≡ s
unfolding join split
join-split sep [] = refl
join-split sep (x ∷ xs) =
    let (a, rest, parts) = split-cons sep xs in
    elim (Bool-cases (x == sep)) [
      | inl e ↦ ground (arith, join-split sep xs)
      | inr e ↦ ground (arith, join-split sep xs, join-cons_to_first (sep ∷ []) x a rest)
    ]

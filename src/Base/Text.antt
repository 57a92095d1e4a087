-- ===== src/Base/Text.antt =====
-- Go strings and byte slices: lists of bytes, with the functions of package strings that the
-- program calls.
use Prim.Native.Nat.{ℕ, zero, suc, ◌+◌, ◌-◌}
use Prim.Native.Char.{code}
use Prim.Native.String.{String}
use mathlib.Core.Path.{◌≡◌, refl}
use mathlib.Core.Logic.{◌↔◌}
use mathlib.Core.Bool.{Bool, true, false, ◌&&◌, ◌||◌}
use mathlib.Core.List.{List, [], ◌∷◌, ◌++◌, map, reverse}
use native.Mathlib.Omega.{arith}
use uawp.Base.Tests.{Eq, leb, nat_beq, nat_eq, ◌==◌, if◌then◌else◌, ltb}
use uawp.Base.Lists.{contains}

abbrev pub Bytes : Type 0
Bytes = List ℕ

-- The bytes of an ASCII literal. `String` has its own `[]` and `∷`.
abbrev pub codes : String → Bytes
codes String.[] = []
codes (String.◌∷◌ c s) = code c ∷ codes s

unfoldable pub bytes_beq : Bytes → Bytes → Bool
bytes_beq [] [] = true
bytes_beq [] (y ∷ ys) = false
bytes_beq (x ∷ xs) [] = false
bytes_beq (x ∷ xs) (y ∷ ys) = nat_beq x y && bytes_beq xs ys

pub bytes_beq_iff : (xs ys : Bytes) → (bytes_beq xs ys ≡ true) ↔ (xs ≡ ys)
unfolding bytes_beq
bytes_beq_iff [] [] = ground arith
bytes_beq_iff [] (y ∷ ys) = ground arith
bytes_beq_iff (x ∷ xs) [] = ground arith
bytes_beq_iff (x ∷ xs) (y ∷ ys) = ground (arith, bytes_beq_iff xs ys)

instance abbrev pub bytes_eq : Eq Bytes
bytes_eq = record { same = bytes_beq; same_iff = bytes_beq_iff }

abbrev pub is_empty : Bytes → Bool
is_empty [] = true
is_empty (x ∷ xs) = false

-- The length of the white space character (unicode.IsSpace) that begins the text, 0 if none does.
unfoldable pub space_width : Bytes → ℕ
space_width [] = 0
space_width (a ∷ []) = if (leb 9 a && leb a 13) || a == 32 then 1 else 0
space_width (a ∷ b ∷ []) =
    if (leb 9 a && leb a 13) || a == 32
    then 1
    else if a == 0xc2 && (b == 0x85 || b == 0xa0)
    then 2
    else 0
space_width (a ∷ b ∷ c ∷ _) =
    if (leb 9 a && leb a 13) || a == 32
    then 1
    else if a == 0xc2 && (b == 0x85 || b == 0xa0)
    then 2
    else if a == 0xe1 && b == 0x9a && c == 0x80
        || a == 0xe2
          && b == 0x80
          && ((leb 0x80 c && leb c 0x8a) || c == 0xa8 || c == 0xa9 || c == 0xaf)
        || a == 0xe2 && b == 0x81 && c == 0x9f
        || a == 0xe3 && b == 0x80 && c == 0x80
    then 3
    else 0

-- The same for the character that ends the text, whose bytes come in reverse.
unfoldable pub last_space_width : Bytes → ℕ
last_space_width [] = 0
last_space_width (c ∷ []) = space_width (c ∷ [])
last_space_width (c ∷ b ∷ []) =
    if space_width (c ∷ []) == 1 then 1 else if space_width (b ∷ c ∷ []) == 2 then 2 else 0
last_space_width (c ∷ b ∷ a ∷ _) =
    if space_width (c ∷ []) == 1
    then 1
    else if space_width (b ∷ c ∷ []) == 2
    then 2
    else if space_width (a ∷ b ∷ c ∷ []) == 3
    then 3
    else 0

-- Drops characters from the front while `width` finds one; the number counts what is left of the
-- character that is being dropped.
unfoldable pub trim_by : (Bytes → ℕ) → ℕ → Bytes → Bytes
trim_by width skip [] = []
trim_by width (suc skip) (x ∷ xs) = trim_by width skip xs
trim_by width zero (x ∷ xs) =
    let rest = trim_by width (width (x ∷ xs) - 1) xs in if width (x ∷ xs) == 0 then x ∷ xs else rest

-- strings.TrimSpace
unfoldable pub trim_space : Bytes → Bytes
unfolding trim_by space_width last_space_width
trim_space s = reverse (trim_by last_space_width zero (reverse (trim_by space_width zero s)))

abbrev pub lower : ℕ → ℕ
lower c = if leb b'A' c && leb c b'Z' then c + 32 else c

-- strings.EqualFold against an ASCII word without k and s, the letters that other characters fold
-- to.
unfoldable pub equal_fold : Bytes → Bytes → Bool
unfolding bytes_beq
equal_fold s t = map lower s == map lower t

unfoldable pub has_prefix : Bytes → Bytes → Bool
has_prefix s [] = true
has_prefix [] (y ∷ ys) = false
has_prefix (x ∷ xs) (y ∷ ys) = x == y && has_prefix xs ys

-- strings.ContainsAny for ASCII characters.
unfoldable pub contains_any : Bytes → Bytes → Bool
contains_any [] cs = false
contains_any (x ∷ xs) cs = contains cs x || contains_any xs cs

-- `<` on strings: the first byte that differs decides.
unfoldable pub bytes_ltb : Bytes → Bytes → Bool
bytes_ltb [] [] = false
bytes_ltb [] (y ∷ ys) = true
bytes_ltb (x ∷ xs) [] = false
bytes_ltb (x ∷ xs) (y ∷ ys) =
    let rest = bytes_ltb xs ys in if ltb x y then true else if ltb y x then false else rest

pub bytes_ltb_asymm : (xs ys : Bytes) → bytes_ltb xs ys ≡ true → bytes_ltb ys xs ≡ false
unfolding bytes_ltb
bytes_ltb_asymm [] [] h = refl
bytes_ltb_asymm [] (y ∷ ys) h = refl
bytes_ltb_asymm (x ∷ xs) [] h = cc
bytes_ltb_asymm (x ∷ xs) (y ∷ ys) h = ground (arith, bytes_ltb_asymm xs ys)

-- strings.HasSuffix
unfoldable pub has_suffix : Bytes → Bytes → Bool
unfolding has_prefix
has_suffix s t = has_prefix (reverse s) (reverse t)

-- strings.TrimPrefix of a text that has the prefix.
unfoldable pub trim_prefix : Bytes → Bytes → Bytes
trim_prefix s [] = s
trim_prefix [] (y ∷ ys) = []
trim_prefix (x ∷ xs) (y ∷ ys) = trim_prefix xs ys

pub trim_prefix_lem : (s t : Bytes) → has_prefix s t ≡ true → t ++ trim_prefix s t ≡ s
unfolding has_prefix trim_prefix
trim_prefix_lem s [] h = refl
trim_prefix_lem [] (y ∷ ys) h = ground arith
trim_prefix_lem (x ∷ xs) (y ∷ ys) h = ground (arith, trim_prefix_lem xs ys)

pub has_prefix-append : (q s t : Bytes) → has_prefix q (s ++ t) ≡ true → has_prefix q s ≡ true
unfolding has_prefix
has_prefix-append q [] t h = refl
has_prefix-append [] (x ∷ s) t h = h
has_prefix-append (y ∷ q) (x ∷ s) t h = ground (arith, has_prefix-append q s t)

pub has_prefix_refl : (s t : Bytes) → has_prefix (s ++ t) s ≡ true
unfolding has_prefix
has_prefix_refl [] t = refl
has_prefix_refl (x ∷ s) t = ground (arith, bytes_beq_iff s s, has_prefix_refl s t)

-- strings.TrimSuffix for one byte.
unfoldable pub trim_suffix : ℕ → Bytes → Bytes
trim_suffix c [] = []
trim_suffix c (x ∷ []) = if x == c then [] else x ∷ []
trim_suffix c (x ∷ y ∷ rest) = x ∷ trim_suffix c (y ∷ rest)

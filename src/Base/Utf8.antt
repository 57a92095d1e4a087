-- ===== src/Base/Utf8.antt =====
-- The runes of a Go string: UTF-8 as package unicode/utf8 decodes it.
use uawp.Base.Tests.{nat_eq, leb, ltb, if◌then◌else◌, ◌==◌}
use Prim.Native.Nat.{ℕ, zero, suc, ◌+◌, ◌-◌, ◌*◌}
use mathlib.Core.Bool.{Bool, ◌&&◌, ◌||◌, true, not}
use mathlib.Core.List.{List, [], ◌∷◌}
use uawp.Base.Text.{Bytes}

abbrev is_continuation : ℕ → Bool
is_continuation b = leb 0x80 b && ltb b 0xc0

-- What an invalid byte decodes to, with the width 1.
abbrev rune_error : ℕ × ℕ
rune_error = (0xfffd, 1)

-- The second byte of a sequence of three, which may neither be overlong nor a surrogate.
abbrev is_second_of_three : ℕ → ℕ → Bool
is_second_of_three a b =
    if ltb a 0xe1
    then leb 0xa0 b && ltb b 0xc0
    else if leb 0xed a && leb a 0xed
    then leb 0x80 b && ltb b 0xa0
    else is_continuation b

-- The second byte of a sequence of four, which may neither be overlong nor above U+10FFFF.
abbrev is_second_of_four : ℕ → ℕ → Bool
is_second_of_four a b =
    if ltb a 0xf1
    then leb 0x90 b && ltb b 0xc0
    else if leb 0xf4 a
    then leb 0x80 b && ltb b 0x90
    else is_continuation b

abbrev two : ℕ → Bytes → ℕ × ℕ
two a (b ∷ rest) = if is_continuation b then ((a - 0xc0) * 0x40 + (b - 0x80), 2) else rune_error
two a _ = rune_error

abbrev three : ℕ → Bytes → ℕ × ℕ
three a (b ∷ c ∷ rest) =
    if is_second_of_three a b && is_continuation c
    then ((a - 0xe0) * 0x1000 + (b - 0x80) * 0x40 + (c - 0x80), 3)
    else rune_error
three a _ = rune_error

abbrev four : ℕ → Bytes → ℕ × ℕ
four a (b ∷ c ∷ d ∷ rest) =
    if is_second_of_four a b && is_continuation c && is_continuation d
    then ((a - 0xf0) * 0x40000 + (b - 0x80) * 0x1000 + (c - 0x80) * 0x40 + (d - 0x80), 4)
    else rune_error
four a _ = rune_error

-- utf8.DecodeRuneInString, after the first byte: the rune and its width.
unfoldable pub decode_rune : ℕ → Bytes → ℕ × ℕ
decode_rune a rest =
    if ltb a 0x80
    then (a, 1)
    else if ltb a 0xc2
    then rune_error
    else if ltb a 0xe0
    then two a rest
    else if ltb a 0xf0
    then three a rest
    else if ltb a 0xf5
    then four a rest
    else rune_error

-- The runes after the first bytes, which belong to a rune already read.
unfoldable pub runes_after : ℕ → Bytes → List ℕ
unfolding decode_rune
runes_after skip [] = []
runes_after (suc skip) (a ∷ rest) = runes_after skip rest
runes_after zero (a ∷ rest) =
    let (rune, width) = decode_rune a rest in rune ∷ runes_after (width - 1) rest

-- What `for _, r := range s` visits.
unfoldable pub runes : Bytes → List ℕ
unfolding runes_after
runes s = runes_after 0 s

-- unicode.IsControl
abbrev pub is_control : ℕ → Bool
is_control r = ltb r 0x20 || leb 0x7f r && ltb r 0xa0

-- utf8.Valid, after the first bytes, which belong to a rune already read: an encoding error is the
-- replacement character with the width of one byte.
unfoldable pub is_valid_after : ℕ → Bytes → Bool
unfolding decode_rune
is_valid_after skip [] = true
is_valid_after (suc skip) (a ∷ rest) = is_valid_after skip rest
is_valid_after zero (a ∷ rest) =
    let (rune, width) = decode_rune a rest in
    let later = is_valid_after (width - 1) rest in not (rune == 0xfffd && width == 1) && later

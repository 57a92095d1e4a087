-- ===== src/Base/Number.antt =====
-- strconv.Atoi and strconv.ParseUint of the Go library, in base 10 and 64 bits.
use uawp.Base.Tests.{ltb, nat_beq, if◌then◌else◌}
use Prim.Native.Nat.{ℕ, zero, suc, ◌+◌, ◌-◌, ◌*◌, ◌/◌, ◌%◌, ◌^◌}
use mathlib.Core.Bool.{Bool, true, false}
use mathlib.Core.List.{[], ◌∷◌, ◌++◌}
use mathlib.Core.Option.{Option, none, some}
use uawp.Base.Text.{Bytes, codes, is_empty}
use uawp.Base.Int.{ℤ, pos, negsuc}
use uawp.Base.Pattern.{is_digit}

-- The value of a text of digits, from the left; `none` at any other character.
unfoldable pub digits_value : ℕ → Bytes → Option ℕ
digits_value n [] = some n
digits_value n (c ∷ rest) = if is_digit c then digits_value (n * 10 + (c - b'0')) rest else none

unfoldable pub parse_uint : Bytes → Option ℕ
unfolding digits_value
parse_uint s =
    if is_empty s
    then none
    else elim (digits_value 0 s) [ none ↦ none | some n ↦ if ltb n (2 ^ 64) then some n else none ]

abbrev negated : ℕ → ℤ
negated n = if nat_beq n 0 then pos 0 else negsuc (n - 1)

-- The text after a sign.
unfoldable pub atoi_digits : Bool → Bytes → Option ℤ
unfolding digits_value
atoi_digits negative s = if is_empty s then none else elim (digits_value 0 s) [
  | none ↦ none
  | some n ↦
      if negative
      then if ltb (2 ^ 63) n then none else some (negated n)
      else if ltb n (2 ^ 63)
      then some (pos n)
      else none
]

-- strconv.Atoi: a sign is allowed, and the value is an int64.
unfoldable pub atoi : Bytes → Option ℤ
unfolding atoi_digits
atoi [] = none
atoi (c ∷ rest) =
    if nat_beq c b'-'
    then atoi_digits true rest
    else if nat_beq c b'+'
    then atoi_digits false rest
    else atoi_digits false (c ∷ rest)

-- The decimal digits of a number, in front of those already made, with fuel for each digit.
unfoldable pub digits : ℕ → ℕ → Bytes → Bytes
digits zero n done = done
digits (suc fuel) n done =
    let more = digits fuel (n / 10) ((b'0' + n % 10) ∷ done) in
    if ltb n 10 then (b'0' + n) ∷ done else more

-- strconv.FormatUint in base 10, and %d of package fmt.
unfoldable pub decimal : ℕ → Bytes
unfolding digits
decimal n = digits (suc n) n []

-- %04d
unfoldable pub decimal_four : ℕ → Bytes
unfolding decimal
decimal_four n =
    let zeros =
      if ltb n 10
      then codes "000"
      else if ltb n 100
      then codes "00"
      else if ltb n 1000
      then codes "0"
      else [] in
    zeros ++ decimal n

-- ===== src/Base/Decimal.antt =====
-- strconv.ParseUint reads back the digits that package fmt prints.
use uawp.Base.Lists.{length}
use uawp.Base.Pattern.{all, is_digit}
use uawp.Base.{
  inl, inr, ◌∷◌, [], nat_eq, ◌/◌, ◌%◌, ◌^◌, ◌+◌, zero, suc, some, ℕ, ◌≢◌, ◌<◌, Bytes, ◌≤◌, ◌≡◌,
  arith, Bool-cases, ltb, true, refl,
}
use mathlib.Core.List.{cons-ne-nil}
use uawp.Base.Text.{bytes_eq}
use uawp.Base.Number.{parse_uint, digits_value, digits, decimal}

digits_value-digits :
    (fuel n : ℕ) (done : Bytes)
    → n ≤ fuel
    → digits_value 0 (digits (suc fuel) n done) ≡ digits_value n done
unfolding digits_value digits
digits_value-digits zero n done h = ground arith
digits_value-digits (suc fuel) n done h = elim (Bool-cases (ltb n 10)) [
  | inl small ↦ ground arith
  | inr large ↦
      ground (arith, digits_value-digits fuel (n / 10) ((b'0' + n % 10) ∷ done) (omega arith))
]

digits-is_digit :
    (fuel n : ℕ) (done : Bytes)
    → all is_digit done ≡ true
    → all is_digit (digits fuel n done) ≡ true
unfolding digits all
digits-is_digit zero n done h = h
digits-is_digit (suc fuel) n done h =
    ground (arith, digits-is_digit fuel (n / 10) ((b'0' + n % 10) ∷ done))

pub decimal-is_digit : (n : ℕ) → all is_digit (decimal n) ≡ true
unfolding decimal all
decimal-is_digit n = digits-is_digit (suc n) n [] refl

digits-ne-nil : (fuel n c : ℕ) (done : Bytes) → digits fuel n (c ∷ done) ≢ []
unfolding digits
digits-ne-nil zero n c done e = cons-ne-nil c done e
digits-ne-nil (suc fuel) n c done e =
    ground (arith, digits-ne-nil fuel (n / 10) (b'0' + n % 10) (c ∷ done))

pub decimal-ne-nil : (n : ℕ) → decimal n ≢ []
unfolding decimal digits
decimal-ne-nil n e = ground (arith, digits-ne-nil n (n / 10) (b'0' + n % 10) [])

-- Every uint64 is read back from its print.
pub parse_uint-decimal : (n : ℕ) → n < 2 ^ 64 → parse_uint (decimal n) ≡ some n
unfolding parse_uint decimal digits_value
parse_uint-decimal n h = ground (arith, digits_value-digits n n [] (omega arith), decimal-ne-nil n)

digits-length :
    (k fuel n : ℕ) (done : Bytes)
    → n ≤ fuel
    → n < 10 ^ suc k
    → length (digits (suc fuel) n done) ≤ suc k + length done
unfolding digits
digits-length zero fuel n done h b = ground arith
digits-length (suc k) zero n done h b = ground arith
digits-length (suc k) (suc fuel) n done h b = elim (Bool-cases (ltb n 10)) [
  | inl small ↦ ground arith
  | inr large ↦
      ground
        (arith, digits-length k fuel (n / 10) ((b'0' + n % 10) ∷ done) (omega arith) (omega arith))
]

-- A uint64 has at most twenty digits.
pub decimal-length : (n : ℕ) → n < 2 ^ 64 → length (decimal n) ≤ 20
unfolding decimal
decimal-length n h = ground (arith, digits-length 19 n n [] (omega arith) (omega arith))

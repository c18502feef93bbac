-- ===== src/Word.antt =====
-- Rust's machine integers: the checked, saturating and cast operations that the program calls on
-- `u64`, `u128` and `i64`. A `u64` or `u128` is a native number, an `i64` an integer; their ranges
-- are hypotheses or invariants where a theorem needs them.
use solana_recurring_buy.Prelude.{
  ℕ, ◌+◌, ◌-◌, ◌*◌, ◌/◌, ◌%◌, ◌^◌, ◌&&◌, Option, none, some, ltb, ◌==◌, if◌then◌else◌, suc,
}
use solana_recurring_buy.Prelude.Int.{ℤ, pos, negsuc, ◌+ℤ◌, ◌-ℤ◌, ◌*ℤ◌, ◌/ℤ◌, ltb_ℤ, leb_ℤ, eqb_ℤ}

abbrev pub u64_mod : ℕ
u64_mod = 18446744073709551616

abbrev pub u128_mod : ℕ
u128_mod = 340282366920938463463374607431768211456

-- `x as u64` of a wider number: the low 64 bits.
abbrev pub as_u64 : ℕ → ℕ
as_u64 x = x % u64_mod

-- `x as u8` of a wider number: the low 8 bits.
abbrev pub as_u8 : ℕ → ℕ
as_u8 x = x % 256

abbrev pub fit_u128 : ℕ → Option ℕ
fit_u128 x = if ltb x u128_mod then some x else none

abbrev pub checked_mul_u128 : ℕ → ℕ → Option ℕ
checked_mul_u128 a b = fit_u128 (a * b)

abbrev pub checked_add_u128 : ℕ → ℕ → Option ℕ
checked_add_u128 a b = fit_u128 (a + b)

abbrev pub checked_pow_u128 : ℕ → ℕ → Option ℕ
checked_pow_u128 a n = fit_u128 (a ^ n)

-- `checked_div` of either unsigned width.
abbrev pub checked_div : ℕ → ℕ → Option ℕ
checked_div a b = if b == 0 then none else some (a / b)

-- `checked_sub` of either unsigned width, which is also what `a - b` panics on.
abbrev pub checked_sub : ℕ → ℕ → Option ℕ
checked_sub a b = if ltb a b then none else some (a - b)

abbrev pub i64_max : ℤ
i64_max = pos 9223372036854775807

abbrev pub i64_min : ℤ
i64_min = negsuc 9223372036854775807

abbrev pub fit_i64 : ℤ → Option ℤ
fit_i64 x = if leb_ℤ i64_min x && leb_ℤ x i64_max then some x else none

abbrev pub saturate_i64 : ℤ → ℤ
saturate_i64 x = if ltb_ℤ x i64_min then i64_min else if ltb_ℤ i64_max x then i64_max else x

abbrev pub saturating_add_i64 : ℤ → ℤ → ℤ
saturating_add_i64 a b = saturate_i64 (a +ℤ b)

abbrev pub saturating_sub_i64 : ℤ → ℤ → ℤ
saturating_sub_i64 a b = saturate_i64 (a -ℤ b)

abbrev pub checked_add_i64 : ℤ → ℤ → Option ℤ
checked_add_i64 a b = fit_i64 (a +ℤ b)

abbrev pub checked_sub_i64 : ℤ → ℤ → Option ℤ
checked_sub_i64 a b = fit_i64 (a -ℤ b)

abbrev pub checked_mul_i64 : ℤ → ℤ → Option ℤ
checked_mul_i64 a b = fit_i64 (a *ℤ b)

-- `checked_div`, and what `a / b` panics on: a zero divisor, or the one quotient out of range.
abbrev pub checked_div_i64 : ℤ → ℤ → Option ℤ
checked_div_i64 a b = if eqb_ℤ b (pos 0) then none else fit_i64 (a /ℤ b)

abbrev pub max_i64 : ℤ → ℤ → ℤ
max_i64 a b = if ltb_ℤ a b then b else a

-- `x as u128` of an `i64`: two's complement.
abbrev pub i64_as_u128 : ℤ → ℕ
i64_as_u128 (pos n) = n
i64_as_u128 (negsuc n) = u128_mod - suc n

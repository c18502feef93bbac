-- ===== src/Floor/Exact.antt =====
-- `price_floor` and `sell_floor` in closed form, with the inputs on which they fail.
use native.Mathlib.Nat.{
  pow-le-pow_right, div-mul-le_self, lt-div-mul-add, div-le_self, mul-le-mul, mul-le-mul_left,
  mul-le-mul_right,
}
use solana_recurring_buy.Prelude.{
  ℕ, ◌+◌, ◌-◌, ◌*◌, ◌/◌, ◌^◌, ◌≤◌, ◌<◌, ◌≡◌, arith, ltb, if◌then◌else◌,
}
use solana_recurring_buy.Errors.{ok, err, buy, overflow}
use solana_recurring_buy.Word.{as_u64, u64_mod, u128_mod}
use solana_recurring_buy.Floor.{price_floor, sell_floor}

pub pow_ten_le : (d : ℕ) → d ≤ 12 → 10 ^ d ≤ 1_000_000_000_000
pow_ten_le d h = pow-le-pow_right {n = 10} (omega arith) {i = d} {j = 12} h

pub pow_ten_pos : (d : ℕ) → 0 < 10 ^ d
pow_ten_pos d = pow-le-pow_right {n = 10} (omega arith) {i = 0} {j = d} (omega arith)

band_parts :
    (a q k i f : ℕ)
    → 0 < q
    → k ≤ 10_000
    → i * q ≤ a
    → a < i * q + q
    → 10_000 * f ≤ i * k
    → i * k < 10_000 * f + 10_000
    → (q * (10_000 * f) ≤ a * k) × (a * k < q * (10_000 * (f + 2)))
band_parts a q k i f hq hk ilo ihi flo fhi = (
  omega (arith, mul-le-mul_left q flo, mul-le-mul_right k ilo),
  omega (arith, mul-le-mul_left q fhi, mul-le-mul_right k ihi, mul-le-mul_left q hk),
)

-- The rounded-down value `a / q * k / 10000` lies within two units of `a * k / (10000 * q)`.
pub band :
    (a q k : ℕ)
    → 0 < q
    → k ≤ 10_000
    → (q * (10_000 * (a / q * k / 10_000)) ≤ a * k)
      × (a * k < q * (10_000 * (a / q * k / 10_000 + 2)))
band a q k hq hk =
    band_parts a q k (a / q) (a / q * k / 10_000) hq hk (div-mul-le_self a q)
      (lt-div-mul-add {a = a} {b = q} hq) (omega arith) (omega arith)

-- For a 64-bit amount, a positive price, at most 12 decimals and a slippage of at most 100%, the buy
-- floor neither overflows nor panics: it is the low 64 bits of the discounted value, in which each of
-- the two divisions rounds down.
pub price_floor_exact :
    (a p d s : ℕ)
    → a < u64_mod
    → 0 < p
    → d ≤ 12
    → s ≤ 10_000
    → price_floor a p d s ≡ ok (as_u64 (a * 10 ^ d / p * (10_000 - s) / 10_000))
unfolding price_floor
price_floor_exact a p d s ha hp hd hs =
    let scale : 10 ^ d ≤ 1_000_000_000_000 = pow_ten_le d hd in
    let product : a * 10 ^ d ≤ u64_mod * 1_000_000_000_000 = grind arith in
    let ideal : a * 10 ^ d / p ≤ a * 10 ^ d = div-le_self _ _ in
    let weighted : a * 10 ^ d / p * (10_000 - s) ≤ u64_mod * 1_000_000_000_000 * 10_000 =
      grind arith in
    ground arith

-- For a 64-bit amount and price, at most 12 decimals and a slippage of at most 100%, the sell floor
-- overflows exactly when the discounted value, before its last division, leaves u128, and otherwise
-- is the low 64 bits of that value, in which each of the two divisions rounds down.
pub sell_floor_exact :
    (a p d s : ℕ)
    → a < u64_mod
    → p < u64_mod
    → d ≤ 12
    → s ≤ 10_000
    → sell_floor a p d s ≡ (
        if ltb (a * p / 10 ^ d * (10_000 - s)) u128_mod
        then ok (as_u64 (a * p / 10 ^ d * (10_000 - s) / 10_000))
        else err (buy overflow))
unfolding sell_floor
sell_floor_exact a p d s ha hp hd hs =
    let scale : 10 ^ d ≤ 1_000_000_000_000 = pow_ten_le d hd in
    let scale_pos : 0 < 10 ^ d = pow_ten_pos d in
    let product : a * p < u128_mod = omega (arith, mul-le-mul ha hp) in ground arith

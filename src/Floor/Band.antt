-- ===== src/Floor/Band.antt =====
-- The two price floors against the exact prices they stand for, and against each other.
use native.Mathlib.Nat.{mul-le-mul_left, div-mul-le_self, lt-div-mul-add, le_of_mul-le-mul_right}
use solana_recurring_buy.Prelude.{
  ℕ, ◌+◌, ◌-◌, ◌*◌, ◌/◌, ◌^◌, ◌≤◌, ◌<◌, ◌≡◌, arith, lt→ltb, ap, sym, ◌∙◌,
}
use solana_recurring_buy.Errors.{ok, ok-injective}
use solana_recurring_buy.Word.{as_u64, u64_mod, u128_mod}
use solana_recurring_buy.Floor.{price_floor, sell_floor}
use solana_recurring_buy.Floor.Exact.{price_floor_exact, sell_floor_exact, band, pow_ten_pos}

discount_bound : (i k : ℕ) → k ≤ 10_000 → i * k ≤ i * 10_000
discount_bound i k hk = mul-le-mul_left i hk

-- Discounting makes no value larger.
discount_le : (i k : ℕ) → k ≤ 10_000 → i * k / 10_000 ≤ i
discount_le i k hk = omega (arith, mul-le-mul_left i hk)

-- For a 64-bit amount, a positive price, at most 12 decimals, a slippage of at most 100% and an ideal
-- output that fits u64, the buy floor is returned, asks for no more than the reference price less the
-- slippage band, and falls short of that by less than two base units.
price_floor_band :
    (a p d s : ℕ)
    → a < u64_mod
    → 0 < p
    → d ≤ 12
    → s ≤ 10_000
    → a * 10 ^ d / p < u64_mod
    → (f : ℕ) × (price_floor a p d s ≡ ok f)
      × (p * (10_000 * f) ≤ a * 10 ^ d * (10_000 - s))
      × (a * 10 ^ d * (10_000 - s) < p * (10_000 * (f + 2)))
price_floor_band a p d s ha hp hd hs fits =
    let k = 10_000 - s in
    let f = a * 10 ^ d / p * k / 10_000 in
    let small : f < u64_mod = omega (arith, discount_le (a * 10 ^ d / p) k (omega arith)) in
    let within = band (a * 10 ^ d) p k hp (omega arith) in
    (f, rw (price_floor_exact a p d s ha hp hd hs) (ap ok (omega arith)), within.0, within.1)

-- For a 64-bit amount and price, at most 12 decimals, a slippage of at most 100% and an ideal output
-- that fits u64, the sell floor is returned, asks for no more than the reference price less the
-- slippage band, and falls short of that by less than two base units.
sell_floor_band :
    (a p d s : ℕ)
    → a < u64_mod
    → p < u64_mod
    → d ≤ 12
    → s ≤ 10_000
    → a * p / 10 ^ d < u64_mod
    → (f : ℕ) × (sell_floor a p d s ≡ ok f)
      × (10 ^ d * (10_000 * f) ≤ a * p * (10_000 - s))
      × (a * p * (10_000 - s) < 10 ^ d * (10_000 * (f + 2)))
sell_floor_band a p d s ha hp hd hs fits =
    let k = 10_000 - s in
    let i = a * p / 10 ^ d in
    let f = i * k / 10_000 in
    let small : f < u64_mod = omega (arith, discount_le i k (omega arith)) in
    let weighted : i * k < u128_mod = omega (arith, discount_bound i k (omega arith)) in
    let within = band (a * p) (10 ^ d) k (pow_ten_pos d) (omega arith) in
    (
      f,
      rw (sell_floor_exact a p d s ha hp hd hs, lt→ltb _ _ weighted) (ap ok (omega arith)),
      within.0,
      within.1,
    )

-- For a 64-bit amount, a positive price, at most 12 decimals and a slippage of at most 100%, where the
-- discounted value does not fit u64 the buy floor is still returned, without an error, and what is
-- returned lies at least 2^64 below the value that was computed.
pub price_floor_wraps :
    (a p d s : ℕ)
    → a < u64_mod
    → 0 < p
    → d ≤ 12
    → s ≤ 10_000
    → u64_mod ≤ a * 10 ^ d / p * (10_000 - s) / 10_000
    → (f : ℕ) × (price_floor a p d s ≡ ok f)
      × (f + u64_mod ≤ a * 10 ^ d / p * (10_000 - s) / 10_000)
price_floor_wraps a p d s ha hp hd hs big =
    let v = a * 10 ^ d / p * (10_000 - s) / 10_000 in
    (as_u64 v, price_floor_exact a p d s ha hp hd hs, omega arith)

round_trip_parts :
    (a p q t u : ℕ)
    → t * p ≤ a * q
    → a * q < t * p + p
    → u * q ≤ t * p
    → t * p < u * q + q
    → 0 < q
    → (u ≤ a) × (a * q < (u + 1) * q + p)
round_trip_parts a p q t u h1 h2 h3 h4 hq =
    (le_of_mul-le-mul_right {k = q} (omega arith) hq, omega arith)

-- For a 64-bit amount and positive price, at most 12 decimals and an ideal output that fits u64: with
-- no slippage the two floors, one after the other at the same price, are both returned, never ask for
-- more than the first amount, and lose less than one unit of it and one of the price, scaled by 10^d.
pub price_sell_round_trip :
    (a p d : ℕ)
    → a < u64_mod
    → 0 < p
    → p < u64_mod
    → d ≤ 12
    → a * 10 ^ d / p < u64_mod
    → (t : ℕ) × (u : ℕ) × (price_floor a p d 0 ≡ ok t)
      × (sell_floor t p d 0 ≡ ok u)
      × (u ≤ a)
      × (a * 10 ^ d < (u + 1) * 10 ^ d + p)
price_sell_round_trip a p d ha hp hp' hd fits =
    let t = a * 10 ^ d / p in
    let u = t * p / 10 ^ d in
    let q_pos = pow_ten_pos d in
    let back =
      round_trip_parts a p (10 ^ d) t u (div-mul-le_self _ p) (lt-div-mul-add {b = p} hp)
        (div-mul-le_self _ (10 ^ d)) (lt-div-mul-add {b = 10 ^ d} q_pos) q_pos in
    let weighted : u * 10_000 < u128_mod = omega (arith, back) in
    (
      t,
      u,
      rw (price_floor_exact a p d 0 ha hp hd (omega arith)) (ap ok (omega arith)),
      rw (sell_floor_exact t p d 0 fits hp' hd (omega arith), lt→ltb _ _ weighted)
          (ap ok (omega (arith, back))),
      back.0,
      back.1,
    )

scaled_le : (p g out : ℕ) → g ≤ out → p * (10_000 * (g + 2)) ≤ p * (10_000 * (out + 2))
scaled_le p g out h = mul-le-mul_left p (omega arith)

-- An output that clears the floor clears the band.
pub price_floor_protects :
    (a p d s : ℕ) {f : ℕ} (out : ℕ)
    → a < u64_mod
    → 0 < p
    → d ≤ 12
    → s ≤ 10_000
    → a * 10 ^ d / p < u64_mod
    → price_floor a p d s ≡ ok f
    → f ≤ out
    → a * 10 ^ d * (10_000 - s) < p * (10_000 * (out + 2))
price_floor_protects a p d s {f} out ha hp hd hs fits h le =
    let (g, e, lo, hi) = price_floor_band a p d s ha hp hd hs fits in
    let same : g ≡ f = ok-injective (sym e ∙ h) in omega (arith, scaled_le p g out (omega arith))

pub sell_floor_protects :
    (a p d s : ℕ) {f : ℕ} (out : ℕ)
    → a < u64_mod
    → p < u64_mod
    → d ≤ 12
    → s ≤ 10_000
    → a * p / 10 ^ d < u64_mod
    → sell_floor a p d s ≡ ok f
    → f ≤ out
    → a * p * (10_000 - s) < 10 ^ d * (10_000 * (out + 2))
sell_floor_protects a p d s {f} out ha hp hd hs fits h le =
    let (g, e, lo, hi) = sell_floor_band a p d s ha hp hd hs fits in
    let same : g ≡ f = ok-injective (sym e ∙ h) in
    omega (arith, scaled_le (10 ^ d) g out (omega arith))

-- ===== src/Examples/Arithmetic.antt =====
-- The floors, the fee, the schedule, the whitelist and the forwarded metas on concrete values; the
-- first tests are those of programs/recurring-buy/src/lib.rs.
use solana_recurring_buy.Prelude.{ℕ, ◌+◌, ◌-◌, ◌*◌, ◌/◌, ◌^◌, ◌≤◌, ◌<◌, ◌≡◌, ◌↔◌, refl, arith}
use solana_recurring_buy.Prelude.Int.{pos}
use solana_recurring_buy.Errors.{ok, err, buy, overflow, ◌>>=◌}
use solana_recurring_buy.Word.{u64_mod}
use solana_recurring_buy.State.Valid.{IsValidSellPlan}
use solana_recurring_buy.State.Periods.{periods_left}
use solana_recurring_buy.Floor.{price_floor, sell_floor}
use solana_recurring_buy.Floor.Band.{price_floor_wraps, price_sell_round_trip}
use solana_recurring_buy.Fee.{execution_fee, net_input}
use solana_recurring_buy.Fee.Bounds.{execution_fee_split}
use solana_recurring_buy.Schedule.{check_cap}
use solana_recurring_buy.Schedule.Cap.{check_cap_iff}
use solana_recurring_buy.Examples.World.{plan, now}

floor_6dp_dollar : price_floor 10_000_000 1_000_000 6 100 ≡ ok 9_900_000
unfolding price_floor
floor_6dp_dollar = refl

floor_9dp_high_price : price_floor 2_000_000_000 2_000_000_000 9 50 ≡ ok 995_000_000
unfolding price_floor
floor_9dp_high_price = refl

floor_zero_slippage_is_ideal : price_floor 5_000_000 1_000_000 6 0 ≡ ok 5_000_000
unfolding price_floor
floor_zero_slippage_is_ideal = refl

floor_rounds_down : price_floor 7_000_000 3_000_000 6 0 ≡ ok 2_333_333
unfolding price_floor
floor_rounds_down = refl

sell_floor_6dp_dollar : sell_floor 10_000_000 1_000_000 6 100 ≡ ok 9_900_000
unfolding sell_floor
sell_floor_6dp_dollar = refl

sell_floor_9dp_high_price : sell_floor 500_000_000 2_000_000_000 9 50 ≡ ok 995_000_000
unfolding sell_floor
sell_floor_9dp_high_price = refl

buy_sell_floors_are_inverse :
    (price_floor 10_000_000 2_000_000 6 0 >>= λ tokens. sell_floor tokens 2_000_000 6 0)
    ≡ ok 10_000_000
unfolding price_floor sell_floor
buy_sell_floors_are_inverse = refl

zero_price : price_floor 10_000_000 0 6 100 ≡ err (buy overflow)
unfolding price_floor
zero_price = refl

-- 2^52 base units at a price of one micro-unit and twelve decimals.
price_floor_wraps_example :
    (f : ℕ) × (price_floor 4_503_599_627_370_496 1 12 0 ≡ ok f)
    × (f + u64_mod ≤ 4_503_599_627_370_496 * 10 ^ 12 / 1 * (10_000 - 0) / 10_000)
price_floor_wraps_example =
    price_floor_wraps 4_503_599_627_370_496 1 12 0 (omega arith) (omega arith) (omega arith)
      (omega arith) (omega arith)

price_sell_round_trip_example :
    (t : ℕ) × (u : ℕ) × (price_floor 9_980_001 99_999_999 9 0 ≡ ok t)
    × (sell_floor t 99_999_999 9 0 ≡ ok u)
    × (u ≤ 9_980_001)
    × (9_980_001 * 10 ^ 9 < (u + 1) * 10 ^ 9 + 99_999_999)
price_sell_round_trip_example =
    price_sell_round_trip 9_980_001 99_999_999 9 (omega arith) (omega arith) (omega arith)
      (omega arith) (omega arith)

execution_fee_split_example :
    (fee : ℕ) × (net : ℕ) × (execution_fee 10_000_001 20 ≡ ok fee)
    × (net_input 10_000_001 fee ≡ ok net)
    × (10_000 * fee ≤ 10_000_001 * 20)
    × (10_000_001 * 20 < 10_000 * (fee + 1))
    × (100 * fee ≤ 10_000_001)
    × (net + fee ≡ 10_000_001)
execution_fee_split_example =
    execution_fee_split 10_000_001 20 (omega arith) (omega arith) (omega arith)

plan-IsValidSellPlan : IsValidSellPlan plan
plan-IsValidSellPlan = ground arith

check_cap_iff_example :
    (check_cap plan (pos (now + 100)) 1_000_000_000 100_000_000 ≡ ok tt)
    ↔ (100_000_000 * periods_left (now + 864_000) (now + 100) 86_400 ≤ 1_000_000_000 + 100_000_000)
check_cap_iff_example =
    check_cap_iff plan (now + 864_000) (now + 100) 86_400 1_000_000_000 100_000_000 refl refl
      (omega arith) (omega arith) (omega arith) (omega arith) (omega arith)

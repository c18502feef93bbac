-- ===== src/State/Valid.antt =====
-- Well-formed accounts, and the clock readings that the time arithmetic is stated for.
use solana_recurring_buy.Prelude.{◌+◌, ◌≤◌, ◌<◌, ◌≡◌, arith, length}
use solana_recurring_buy.Prelude.Int.{ℤ, pos, pos_part, ◌≤ℤ◌}
use solana_recurring_buy.Word.{u64_mod, i64_max}
use solana_recurring_buy.State.{
  Config, FeeConfig, SellPlan, max_swap_programs, max_fee_bps, min_period_secs, max_period_secs,
}

pub record IsValidConfig (c : Config) : Type 0 where
  pub slots : length c.swap_programs ≡ max_swap_programs
  pub counted : c.swap_program_count ≤ max_swap_programs
  pub slippage : c.max_slippage_bps ≤ 10_000
  pub scale : c.target_decimals ≤ 12
  pub price : c.price_ref_micros < u64_mod

pub record IsValidFeeConfig (c : FeeConfig) : Type 0 where
  pub capped : c.fee_bps ≤ max_fee_bps

pub record IsValidSellPlan (p : SellPlan) : Type 0 where
  pub period_min : min_period_secs ≤ℤ p.period_secs
  pub period_max : p.period_secs ≤ℤ max_period_secs
  pub end_nonneg : pos 0 ≤ℤ p.end_ts
  pub end_range : p.end_ts ≤ℤ i64_max
  pub due_nonneg : pos 0 ≤ℤ p.next_due_ts

-- A Unix time that is not negative and lies more than the longest period before the end of i64.
pub record IsTime (now : ℤ) : Type 0 where
  pub nonneg : pos 0 ≤ℤ now
  pub room : pos_part now + pos_part max_period_secs ≤ pos_part i64_max

-- A nonnegative integer is a natural number.
pub eq-pos : (z : ℤ) → pos 0 ≤ℤ z → z ≡ pos (pos_part z)
eq-pos z h = ground arith

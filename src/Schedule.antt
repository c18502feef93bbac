-- ===== src/Schedule.antt =====
-- programs/recurring-buy/src/lib.rs, the amortized schedule of `execute_sell`: the cap on one draw
-- and the jump of the clock gate.
pub mod Advance
pub mod Cap
pub mod Gate
use solana_recurring_buy.Prelude.{ℕ, ◌≤◌, leb}
use solana_recurring_buy.Prelude.Int.{ℤ, pos}
use solana_recurring_buy.Errors.{
  Result, ok, ◌>>=◌, ◌>>◌, ok_or, require, overflow, overdraw_schedule,
}
use solana_recurring_buy.Word.{
  checked_add_u128, checked_div, checked_add_i64, checked_sub_i64, checked_mul_i64, checked_div_i64,
  i64_as_u128,
}
use solana_recurring_buy.State.{SellPlan, remaining_periods}

-- The draw is at most the whole pot (wallet and draw) over the periods that remain.
unfoldable pub check_cap : SellPlan → ℤ → ℕ → ℕ → Result (Unit {0})
unfolding remaining_periods
check_cap plan now wallet amount_in = do
  total_pot ← ok_or (checked_add_u128 wallet amount_in) overflow
  periods ← remaining_periods plan now
  cap ← ok_or (checked_div total_pot (i64_as_u128 periods)) overflow
  require (leb amount_in cap) overdraw_schedule

-- The gate jumps past `now` by whole periods.
unfoldable pub advance : SellPlan → ℤ → Result SellPlan
advance plan now = do
  late ← ok_or (checked_sub_i64 now plan.next_due_ts) overflow
  missed ← ok_or (checked_div_i64 late plan.period_secs) overflow
  k ← ok_or (checked_add_i64 missed (pos 1)) overflow
  jump ← ok_or (checked_mul_i64 k plan.period_secs) overflow
  next_due_ts ← ok_or (checked_add_i64 plan.next_due_ts jump) overflow
  ok (record plan { next_due_ts = next_due_ts })

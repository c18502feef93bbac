-- ===== src/State/Periods.antt =====
-- `SellPlan::remaining_periods` in closed form.
use solana_recurring_buy.Prelude.{ℕ, ◌-◌, ◌/◌, ◌<◌, ◌≡◌, division, ltb, if◌then◌else◌}
use solana_recurring_buy.Prelude.Int.{pos, ◌-ℤ◌, ◌/ℤ◌, ◌≤ℤ◌}
use solana_recurring_buy.Errors.{ok}
use solana_recurring_buy.Word.{i64_max}
use solana_recurring_buy.State.{SellPlan, remaining_periods}

-- At least one period, and otherwise the whole periods until the end.
abbrev pub periods_left : ℕ → ℕ → ℕ → ℕ
periods_left end now period = if ltb ((end - now) / period) 1 then 1 else (end - now) / period

module _ (p : SellPlan) (end now period : ℕ) where
  -- For a plan with an end and a positive period that are natural numbers, and an end and a time
  -- within i64, `remaining_periods` does not panic: the result is the number of whole periods from
  -- the time to the end, or one where there is none.
  pub remaining_periods_exact :
      p.end_ts ≡ pos end
      → p.period_secs ≡ pos period
      → 0 < period
      → pos end ≤ℤ i64_max
      → pos now ≤ℤ i64_max
      → remaining_periods p (pos now) ≡ ok (pos (periods_left end now period))
  unfolding remaining_periods ◌-ℤ◌ ◌/ℤ◌
  remaining_periods_exact e q hq he hn = grind division

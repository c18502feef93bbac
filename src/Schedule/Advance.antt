-- ===== src/Schedule/Advance.antt =====
-- programs/recurring-buy/src/lib.rs, the jump of the clock gate of `execute_sell`, in numbers.
use solana_recurring_buy.Prelude.{ℕ, ◌+◌, ◌-◌, ◌*◌, ◌/◌, ◌≤◌, ◌<◌, ◌≡◌, arith, division}
use solana_recurring_buy.Prelude.Int.{pos, ◌+ℤ◌, ◌-ℤ◌, ◌*ℤ◌, ◌/ℤ◌, ◌≤ℤ◌}
use solana_recurring_buy.Errors.{ok}
use solana_recurring_buy.Word.{i64_max}
use solana_recurring_buy.State.{SellPlan}
use solana_recurring_buy.Schedule.{advance}

-- How many periods the gate jumps.
abbrev pub jumped : ℕ → ℕ → ℕ → ℕ
jumped due now period = (now - due) / period + 1

jumped_bounds :
    (due now period : ℕ)
    → due ≤ now
    → 0 < period
    → (now < due + jumped due now period * period)
      × (due + jumped due now period * period ≤ now + period)
jumped_bounds due now period h hq = grind division

module _ (p : SellPlan) (due now period : ℕ) (d : p.next_due_ts ≡ pos due)
    (q : p.period_secs ≡ pos period) (hq : 0 < period) (h : due ≤ now)
    (fits : pos (now + period) ≤ℤ i64_max) where
  -- A due gate is moved, with no overflow, by one period or more to the first point of its grid
  -- that lies after `now`; nothing else of the plan changes.
  pub advance_jumps :
      (k : ℕ) × (advance p (pos now) ≡ ok (record p { next_due_ts = pos (due + k * period) }))
      × (1 ≤ k)
      × (now < due + k * period)
      × (due + k * period ≤ now + period)
  unfolding advance ◌+ℤ◌ ◌-ℤ◌ ◌*ℤ◌ ◌/ℤ◌
  advance_jumps =
      let within = jumped_bounds due now period h hq in
      (jumped due now period, ground (arith, within), omega arith, within.0, within.1)

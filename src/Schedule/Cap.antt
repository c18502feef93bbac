-- ===== src/Schedule/Cap.antt =====
-- programs/recurring-buy/src/lib.rs, the amortization cap of `execute_sell`.
use native.Mathlib.Nat.{le-div_iff_mul-le}
use solana_recurring_buy.Prelude.{
  ℕ, ◌+◌, ◌*◌, ◌/◌, ◌≤◌, ◌<◌, ◌≡◌, ◌↔◌, refl, sym, ◌∙◌, arith, leb, le→leb,
}
use solana_recurring_buy.Prelude.Int.{pos, ◌≤ℤ◌}
use solana_recurring_buy.Errors.{ok, require, overdraw_schedule}
use solana_recurring_buy.Word.{i64_max, u64_mod}
use solana_recurring_buy.State.{SellPlan}
use solana_recurring_buy.State.Periods.{periods_left, remaining_periods_exact}
use solana_recurring_buy.Schedule.{check_cap}

pub periods_left_pos : (end now period : ℕ) → 1 ≤ periods_left end now period
periods_left_pos end now period = ground arith

require-leb : (x y : ℕ) → require (leb x y) overdraw_schedule ≡ ok tt → x ≤ y
require-leb x y h = ground arith

module _ (p : SellPlan) (end now period wallet amount : ℕ) (e : p.end_ts ≡ pos end)
    (q : p.period_secs ≡ pos period) (hq : 0 < period) (he : pos end ≤ℤ i64_max)
    (hn : pos now ≤ℤ i64_max) (hw : wallet < u64_mod) (ha : amount < u64_mod) where
  pub check_cap_exact :
      check_cap p (pos now) wallet amount
      ≡ require (leb amount ((wallet + amount) / periods_left end now period)) overdraw_schedule
  unfolding check_cap
  check_cap_exact =
      rw (remaining_periods_exact p end now period e q hq he hn)
        (ground (arith, periods_left_pos end now period))

  -- For a plan with an end and a positive period that are natural numbers, an end and a time within
  -- i64 and 64-bit amounts, the check passes exactly when the draw, taken once for each period that remains, is covered by
  -- the wallet and the draw together.
  pub check_cap_iff :
      (check_cap p (pos now) wallet amount ≡ ok tt)
      ↔ (amount * periods_left end now period ≤ wallet + amount)
  check_cap_iff =
      let fits =
        le-div_iff_mul-le {x = amount} {y = wallet + amount} (periods_left_pos end now period) in
      (
        λ h. fits.0 (require-leb _ _ (sym check_cap_exact ∙ h)),
        λ h. rw (check_cap_exact, le→leb _ _ (fits.1 h)) refl,
      )

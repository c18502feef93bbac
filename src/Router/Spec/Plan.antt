-- ===== src/Router/Spec/Plan.antt =====
-- programs/recurring-buy/src/lib.rs: `open_sell_plan` and `close_sell_plan` against their
-- transitions.
use solana_recurring_buy.Prelude.{◌≡◌, ◌↔◌, arith}
use solana_recurring_buy.Prelude.Int.{ℤ}
use solana_recurring_buy.Errors.{Result, ok}
use solana_recurring_buy.Chain.{Chain, Runtime}
use solana_recurring_buy.Chain.Constraints.{sell_plan_seeds}
use solana_recurring_buy.Plan.{OpenSellPlan, CloseSellPlan, open_sell_plan, close_sell_plan}
use solana_recurring_buy.Plan.Effects.{plan_of, time_of}
use solana_recurring_buy.Router.Spec.{PlanOpened, PlanClosed}

module _ (rt : Runtime) (c : Chain) {c' : Chain} where
  pub open_sell_plan_iff :
      (ctx : OpenSellPlan) (clock : Result ℤ) (end_ts period_secs : ℤ)
      → (open_sell_plan rt ctx clock end_ts period_secs c ≡ ok c')
        ↔ PlanOpened rt ctx clock end_ts period_secs c c'
  unfolding open_sell_plan
  open_sell_plan_iff ctx clock end_ts period_secs = (
    λ h. record {
      now = time_of clock;
      bump = (rt.find_program_address (sell_plan_seeds ctx.user.key)).1;
      read = ground arith;
      signed = ground arith;
      pays = ground arith;
      program = ground arith;
      address = ground arith;
      writable = ground arith;
      vacant = ground arith;
      period_min = ground arith;
      period_max = ground arith;
      horizon = ground arith;
      written = ground arith;
    },
    λ s. ground arith,
  )

  pub close_sell_plan_iff :
      (ctx : CloseSellPlan) → (close_sell_plan rt ctx c ≡ ok c') ↔ PlanClosed rt ctx c c'
  unfolding close_sell_plan
  close_sell_plan_iff ctx = (
    λ h. record {
      plan = plan_of (c.accounts ctx.sell_plan.key);
      plan_at = ground arith;
      signed = ground arith;
      paid = ground arith;
      writable = ground arith;
      plan_pda = ground arith;
      owner = ground arith;
      apart = ground arith;
      written = ground arith;
    },
    λ s. ground arith,
  )

-- ===== src/Plan/Effects.antt =====
-- What opening and closing a sell plan has checked and written when it succeeds.
use solana_recurring_buy.Prelude.{◌≡◌, arith, true, Option, none, some}
use solana_recurring_buy.Prelude.Int.{ℤ, pos, ◌+ℤ◌, ◌≤ℤ◌, ◌<ℤ◌}
use solana_recurring_buy.Errors.{Result, ok, err}
use solana_recurring_buy.Word.{saturating_add_i64, i64_max}
use solana_recurring_buy.State.Valid.{IsValidSellPlan, IsTime}
use solana_recurring_buy.State.{SellPlan, min_period_secs, max_period_secs}
use solana_recurring_buy.Chain.{ProgramAccount, Chain, Runtime, store, remove}
use solana_recurring_buy.Chain.Constraints.{sell_plan_seeds}
use solana_recurring_buy.Plan.{OpenSellPlan, CloseSellPlan, open_sell_plan, close_sell_plan}

abbrev pub time_of : Result ℤ → ℤ
time_of (ok t) = t
time_of (err e) = pos 0

abbrev pub plan_of : Option ProgramAccount → SellPlan
plan_of (some (ProgramAccount.sell_plan p)) = p
plan_of _ = record { user = 0; end_ts = pos 0; period_secs = pos 0; next_due_ts = pos 0; bump = 0 }

-- A plan that passes the checks of `open_sell_plan` is well formed.
pub opened-IsValidSellPlan :
    (plan : SellPlan)
    → IsTime plan.next_due_ts
    → min_period_secs ≤ℤ plan.period_secs
    → plan.period_secs ≤ℤ max_period_secs
    → saturating_add_i64 plan.next_due_ts plan.period_secs <ℤ plan.end_ts
    → plan.end_ts ≤ℤ i64_max
    → IsValidSellPlan plan
unfolding ◌+ℤ◌
opened-IsValidSellPlan plan t lo hi later typed = ground arith

module _ (rt : Runtime) (chain : Chain) where
  pub open_sell_plan_writes :
      (ctx : OpenSellPlan) (clock : Result ℤ) (end_ts period_secs : ℤ) {chain' : Chain}
      → open_sell_plan rt ctx clock end_ts period_secs chain ≡ ok chain'
      → (now : ℤ) × (clock ≡ ok now)
        × (ctx.user.is_signer ≡ true)
        × (min_period_secs ≤ℤ period_secs)
        × (period_secs ≤ℤ max_period_secs)
        × (saturating_add_i64 now period_secs <ℤ end_ts)
        × ((rt.find_program_address (sell_plan_seeds ctx.user.key)).0 ≡ ctx.sell_plan.key)
        × (chain.accounts ctx.sell_plan.key ≡ none)
        × (chain'
            ≡ store ctx.sell_plan.key
                (ProgramAccount.sell_plan (record {
                  user = ctx.user.key;
                  end_ts = end_ts;
                  period_secs = period_secs;
                  next_due_ts = now;
                  bump = (rt.find_program_address (sell_plan_seeds ctx.user.key)).1;
                }))
                chain)
  unfolding open_sell_plan
  open_sell_plan_writes ctx clock end_ts period_secs h = (
    time_of clock,
    ground arith,
    ground arith,
    ground arith,
    ground arith,
    ground arith,
    ground arith,
    ground arith,
    ground arith,
  )

  pub close_sell_plan_writes :
      (ctx : CloseSellPlan) {chain' : Chain}
      → close_sell_plan rt ctx chain ≡ ok chain'
      → (plan : SellPlan) × (ctx.user.is_signer ≡ true)
        × (chain.accounts ctx.sell_plan.key ≡ some (ProgramAccount.sell_plan plan))
        × (plan.user ≡ ctx.user.key)
        × (chain' ≡ remove ctx.sell_plan.key chain)
  unfolding close_sell_plan
  close_sell_plan_writes ctx h = (
    plan_of (chain.accounts ctx.sell_plan.key),
    ground arith,
    ground arith,
    ground arith,
    ground arith,
  )

-- ===== src/Plan.antt =====
-- programs/recurring-buy/src/lib.rs: a user opens and closes the sell plan. `clock` is the result
-- of `Clock::get()`, a parameter of the transaction.
pub mod Effects
pub mod Lifecycle
use solana_recurring_buy.Prelude.{◌&&◌}
use solana_recurring_buy.Prelude.Int.{ℤ, ltb_ℤ, leb_ℤ}
use solana_recurring_buy.Errors.{Result, ok, ◌>>=◌, ◌>>◌, require, bad_param}
use solana_recurring_buy.Word.{saturating_add_i64}
use solana_recurring_buy.State.{min_period_secs, max_period_secs}
use solana_recurring_buy.Chain.{AccountInfo, ProgramAccount, Chain, Runtime, store, remove}
use solana_recurring_buy.Chain.Constraints.{
  check_signer, check_mut, check_has_one, check_program, as_sell_plan, sell_plan_seeds, check_seeds,
  check_init, check_close,
}

pub record OpenSellPlan : Type 0 where
  pub user : AccountInfo
  pub sell_plan : AccountInfo
  pub system_program : AccountInfo

pub record CloseSellPlan : Type 0 where
  pub user : AccountInfo
  pub sell_plan : AccountInfo

module _ (rt : Runtime) where
  unfoldable pub open_sell_plan : OpenSellPlan → Result ℤ → ℤ → ℤ → Chain → Result Chain
  open_sell_plan ctx clock end_ts period_secs chain = do
    check_signer ctx.user
    check_program rt.system_program_id ctx.system_program
    bump ← check_init rt (sell_plan_seeds ctx.user.key) ctx.sell_plan chain
    check_mut ctx.user
    require (leb_ℤ min_period_secs period_secs && leb_ℤ period_secs max_period_secs) bad_param
    now ← clock
    require (ltb_ℤ (saturating_add_i64 now period_secs) end_ts) bad_param
    ok (
        store ctx.sell_plan.key
          (ProgramAccount.sell_plan (record {
            user = ctx.user.key;
            end_ts = end_ts;
            period_secs = period_secs;
            next_due_ts = now;
            bump = bump;
          }))
          chain)

  unfoldable pub close_sell_plan : CloseSellPlan → Chain → Result Chain
  close_sell_plan ctx chain = do
    check_signer ctx.user
    plan ← as_sell_plan (chain.accounts ctx.sell_plan.key)
    check_mut ctx.user
    check_seeds rt (sell_plan_seeds ctx.user.key) plan.bump ctx.sell_plan
    check_mut ctx.sell_plan
    check_has_one plan.user ctx.user.key
    check_close ctx.sell_plan ctx.user
    ok (remove ctx.sell_plan.key chain)

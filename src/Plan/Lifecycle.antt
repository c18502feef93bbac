-- ===== src/Plan/Lifecycle.antt =====
-- programs/recurring-buy/src/lib.rs: `open_sell_plan`, and `close_sell_plan` right after it.
use solana_recurring_buy.Prelude.{◌≡◌, ◌≢◌, arith, true, some}
use solana_recurring_buy.Prelude.Int.{ℤ, ◌≤ℤ◌, ◌+ℤ◌}
use solana_recurring_buy.Errors.{Result, ok}
use solana_recurring_buy.Word.{i64_max}
use solana_recurring_buy.State.{Pubkey, SellPlan}
use solana_recurring_buy.State.Valid.{IsTime}
use solana_recurring_buy.Chain.{ProgramAccount, Chain, Runtime, remove}
use solana_recurring_buy.Chain.Laws.{AddressLaws}
use solana_recurring_buy.Chain.Clock.{IsClock}
use solana_recurring_buy.Chain.Constraints.{sell_plan_seeds}
use solana_recurring_buy.Plan.{OpenSellPlan, open_sell_plan, close_sell_plan}
use solana_recurring_buy.Plan.Effects.{open_sell_plan_writes, plan_of}
use solana_recurring_buy.Sell.{check_due}

module _ (rt : Runtime) (ctx : OpenSellPlan) (clock : Result ℤ) (end_ts period_secs : ℤ)
    (c c' : Chain) (h : open_sell_plan rt ctx clock end_ts period_secs c ≡ ok c') where
  opened_writable : (ctx.user.is_writable ≡ true) × (ctx.sell_plan.is_writable ≡ true)
  unfolding open_sell_plan
  opened_writable = ground arith

  -- A plan that was opened while the clock was in range, with an end that fits i64, is stored for the
  -- user who signed, and a draw at the same time passes the schedule's terminal check and its clock
  -- gate.
  open_sell_plan_due :
      IsClock clock
      → end_ts ≤ℤ i64_max
      → (now : ℤ) × (plan : SellPlan) × (clock ≡ ok now)
        × (c'.accounts ctx.sell_plan.key ≡ some (ProgramAccount.sell_plan plan))
        × (plan.user ≡ ctx.user.key)
        × (ctx.user.is_signer ≡ true)
        × (check_due rt plan clock ≡ ok now)
  unfolding check_due ◌+ℤ◌
  open_sell_plan_due timely typed =
      let (now, read, signed, lo, hi, later, address, vacant, e) =
        open_sell_plan_writes rt c ctx clock end_ts period_secs h in
      let t : IsTime now = rw read at timely in
      (
        now,
        plan_of (c'.accounts ctx.sell_plan.key),
        read,
        ground arith,
        ground arith,
        signed,
        ground arith,
      )

  -- Given that derived addresses are found with a bump that creates them, the owner of a plan that
  -- was just opened can close it, with a plan account that is not the owner's, and then
  -- every account of the program, the tokens and the mints are as they were before the opening.
  pub open_close_round_trip :
      AddressLaws rt
      → ctx.sell_plan.key ≢ ctx.user.key
      → (c'' : Chain) × (close_sell_plan rt
            (record { user = ctx.user; sell_plan = ctx.sell_plan })
            c'
          ≡ ok c'')
        × ((k : Pubkey) → c''.accounts k ≡ c.accounts k)
        × (c''.tokens ≡ c.tokens)
        × (c''.mints ≡ c.mints)
  unfolding close_sell_plan
  open_close_round_trip laws apart =
      let (now, read, signed, lo, hi, later, address, vacant, e) =
        open_sell_plan_writes rt c ctx clock end_ts period_secs h in
      let found = laws.found (sell_plan_seeds ctx.user.key) in
      let writable = opened_writable in
      (remove ctx.sell_plan.key c', ground arith, λ k. ground arith, ground arith, ground arith)

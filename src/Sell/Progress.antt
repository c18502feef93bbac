-- ===== src/Sell/Progress.antt =====
-- programs/recurring-buy/src/lib.rs: what a successful `execute_sell` does to the schedule.
use solana_recurring_buy.Prelude.{
  ℕ, ◌+◌, ◌*◌, ◌≤◌, ◌<◌, ◌≡◌, sym, ◌∙◌, ap, subst₂, arith, some, List,
}
use solana_recurring_buy.Prelude.Int.{ℤ, pos_part, ◌≤ℤ◌}
use solana_recurring_buy.Errors.{Result, ok}
use solana_recurring_buy.Word.{u64_mod}
use solana_recurring_buy.State.{SellPlan}
use solana_recurring_buy.State.Valid.{IsTime, IsValidSellPlan, eq-pos}
use solana_recurring_buy.State.Periods.{periods_left}
use solana_recurring_buy.Schedule.Cap.{check_cap_iff}
use solana_recurring_buy.Schedule.{check_cap}
use solana_recurring_buy.Schedule.Gate.{Jumped, advance-Jumped}
use solana_recurring_buy.Chain.{AccountInfo, ProgramAccount, Chain, Runtime}
use solana_recurring_buy.Chain.Laws.{balance, amount_of, IsWide}
use solana_recurring_buy.Chain.Account.{Inv}
use solana_recurring_buy.Chain.Clock.{IsClock}
use solana_recurring_buy.Sell.{ExecuteSell, SellExecuted, execute_sell}
use solana_recurring_buy.Sell.Refinement.{execute_sell-Sold}

-- The periods that a plan has left at a time.
abbrev pub periods_at : SellPlan → ℤ → ℕ
periods_at p now = periods_left (pos_part p.end_ts) (pos_part now) (pos_part p.period_secs)

-- One draw on the schedule: it was due and not complete, the draw taken once for each period left
-- is covered by the pot (the wallet and the draw), and the gate has moved past the present.
pub record Drawn (ctx : ExecuteSell) (clock : Result ℤ) (chain chain' : Chain) (amount_in : ℕ)
    : Type 0 where
  pub now : ℤ
  pub before : SellPlan
  pub after : SellPlan
  pub clock_read : clock ≡ ok now
  pub before_at : chain.accounts ctx.sell_plan.key ≡ some (ProgramAccount.sell_plan before)
  pub after_at : chain'.accounts ctx.sell_plan.key ≡ some (ProgramAccount.sell_plan after)
  pub owner : before.user ≡ ctx.user.key
  pub unfinished : before.next_due_ts ≤ℤ before.end_ts
  pub due : before.next_due_ts ≤ℤ now
  pub amortized :
      amount_in * periods_at before now ≤ balance chain.tokens ctx.user_target_ata.key + amount_in
  pub jumped : Jumped before now after

cap_of :
    (p : SellPlan) (now : ℤ) (wallet amount : ℕ)
    → IsValidSellPlan p
    → IsTime now
    → wallet < u64_mod
    → amount < u64_mod
    → check_cap p now wallet amount ≡ ok tt
    → amount * periods_at p now ≤ wallet + amount
cap_of p now wallet amount v t hw ha h =
    (check_cap_iff p (pos_part p.end_ts) (pos_part now) (pos_part p.period_secs) wallet amount
        (eq-pos p.end_ts v.end_nonneg) (eq-pos p.period_secs (omega (arith, v.period_min)))
        (ground (arith, v.period_min)) (ground (arith, v.end_range)) (ground (arith, t.room)) hw
        ha).0
      (ap (λ z. check_cap p z wallet amount) (sym (eq-pos now t.nonneg)) ∙ h)

module _ (rt : Runtime) (ctx : ExecuteSell) (remaining : List AccountInfo) (clock : Result ℤ)
    (min_out : ℕ) (swap_data : List ℕ) (chain chain' : Chain) (event : SellExecuted) where
  -- When the accounts of the program are well formed, token amounts are 64-bit and the clock is in
  -- range, a sell that succeeds is one draw on the plan at its address.
  pub execute_sell_draws :
      execute_sell rt ctx remaining clock min_out swap_data chain ≡ ok (chain', event)
      → Inv rt chain
      → IsWide chain.tokens
      → IsClock clock
      → Drawn ctx clock chain chain' event.amount_in
  execute_sell_draws h inv wide timely =
      let s = execute_sell-Sold rt ctx remaining clock min_out swap_data chain chain' event h in
      let t : IsTime s.now = rw s.guards.clock_read at timely in
      let v = (inv ctx.sell_plan.key _ s.validated.sell_plan_at).1 in
      record {
        now = s.now;
        before = s.acc.sell_plan;
        after = s.plan;
        clock_read = s.guards.clock_read;
        before_at = s.validated.sell_plan_at;
        after_at = ground (arith, s.accounts_set);
        owner = s.validated.plan_user;
        unfinished = s.guards.unfinished;
        due = s.guards.due;
        amortized =
            subst₂ (λ a w. a * periods_at s.acc.sell_plan s.now ≤ w + a) (sym s.event_amount_in)
              (sym (ap amount_of s.validated.pot_at))
              (cap_of s.acc.sell_plan s.now s.acc.user_target_ata.amount
                s.acc.transient_target.amount v t
                (wide ctx.user_target_ata.key s.acc.user_target_ata s.validated.pot_at)
                (wide ctx.transient_target.key s.acc.transient_target s.validated.transient_at)
                s.guards.amortized);
        jumped = advance-Jumped s.acc.sell_plan s.now v t s.guards.due s.plan s.advanced;
      }

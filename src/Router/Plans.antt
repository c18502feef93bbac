-- ===== src/Router/Plans.antt =====
-- programs/recurring-buy/src/lib.rs, the sell plans under each instruction.
use solana_recurring_buy.Prelude.{
  ℕ, ◌≡◌, subst, arith, true, Option, none, some, List, ◌==◌, ◌⊎◌, inl, inr, Bool-cases,
}
use solana_recurring_buy.Prelude.Int.{ℤ, ◌≤ℤ◌}
use solana_recurring_buy.Errors.{Result, ok}
use solana_recurring_buy.State.{Pubkey, SellPlan}
use solana_recurring_buy.State.Valid.{IsTime}
use solana_recurring_buy.Schedule.Gate.{Jumped, advance-Jumped}
use solana_recurring_buy.Chain.{AccountInfo, ProgramAccount, Chain, Runtime}
use solana_recurring_buy.Admin.Effects.{
  set_pause_writes, set_params_writes, set_whitelist_writes, init_config_writes,
  init_fee_config_writes, set_fee_writes,
}
use solana_recurring_buy.Plan.Effects.{open_sell_plan_writes, close_sell_plan_writes}
use solana_recurring_buy.Buy.Refinement.{execute_buy-Bought}
use solana_recurring_buy.Sell.{ExecuteSell, SellExecuted, execute_sell}
use solana_recurring_buy.Sell.Refinement.{execute_sell-Sold}
use solana_recurring_buy.Router.{Call, Event, process}
use solana_recurring_buy.Router.Results.{silenced, bought, sold}
use solana_recurring_buy.Chain.Clock.{IsClock}
use solana_recurring_buy.Chain.Account.{Inv}
use solana_recurring_buy.Router.Authority.{SignedAs}

-- The plan `p` was due and not complete; its gate has moved past the present, and nothing else of it
-- has changed.
pub record Cranked (p : SellPlan) (clock : Result ℤ) (after : Option ProgramAccount) : Type 0 where
  pub now : ℤ
  pub plan : SellPlan
  pub clock_read : clock ≡ ok now
  pub unfinished : p.next_due_ts ≤ℤ p.end_ts
  pub due : p.next_due_ts ≤ℤ now
  pub jumped : Jumped p now plan
  pub stored : after ≡ some (ProgramAccount.sell_plan plan)

abbrev pub PlanFate : Call → SellPlan → Result ℤ → Option ProgramAccount → Type 0
PlanFate x p clock after =
    (after ≡ some (ProgramAccount.sell_plan p))
    ⊎ (SignedAs x p.user × (after ≡ none))
    ⊎ Cranked p clock after

module _ (rt : Runtime) (c c' : Chain) (e : Event) (clock : Result ℤ) (inv : Inv rt c)
    (timely : IsClock clock) (k : Pubkey) (p : SellPlan)
    (at : c.accounts k ≡ some (ProgramAccount.sell_plan p)) where
  same_plan :
      (key : Pubkey) (q : SellPlan)
      → (key == k) ≡ true
      → c.accounts key ≡ some (ProgramAccount.sell_plan q)
      → q ≡ p
  same_plan key q same there = ground arith

  sell_fate :
      (ctx : ExecuteSell) (remaining : List AccountInfo) (min_out : ℕ) (swap_data : List ℕ)
      {event : SellExecuted}
      → execute_sell rt ctx remaining clock min_out swap_data c ≡ ok (c', event)
      → (c'.accounts k ≡ some (ProgramAccount.sell_plan p)) ⊎ Cranked p clock (c'.accounts k)
  sell_fate ctx remaining min_out swap_data h =
      let s = execute_sell-Sold rt ctx remaining clock min_out swap_data c c' _ h in
      let t : IsTime s.now = rw s.guards.clock_read at timely in
      let v =
        inv ctx.sell_plan.key (ProgramAccount.sell_plan s.acc.sell_plan) s.validated.sell_plan_at in
      let j = advance-Jumped s.acc.sell_plan s.now v.1 t s.guards.due s.plan s.advanced in
      elim (Bool-cases (ctx.sell_plan.key == k)) [
        | inl same ↦ inr (record {
          now = s.now;
          plan = s.plan;
          clock_read = s.guards.clock_read;
          unfinished =
              subst (λ (q : SellPlan). q.next_due_ts ≤ℤ q.end_ts)
                (same_plan ctx.sell_plan.key s.acc.sell_plan same s.validated.sell_plan_at)
                s.guards.unfinished;
          due =
              subst (λ (q : SellPlan). q.next_due_ts ≤ℤ s.now)
                (same_plan ctx.sell_plan.key s.acc.sell_plan same s.validated.sell_plan_at)
                s.guards.due;
          jumped =
              subst (λ q. Jumped q s.now s.plan)
                (same_plan ctx.sell_plan.key s.acc.sell_plan same s.validated.sell_plan_at) j;
          stored = ground (arith, s.accounts_set);
        })
        | inr other ↦ inl (ground (arith, s.accounts_set))
      ]

  -- When the accounts of the program are well formed and the clock is in range, a successful call
  -- leaves a plan as it is, or its owner signed the call and the plan is gone, or the plan was due and
  -- not complete and its gate has moved past the present by whole periods, to the first such point,
  -- with nothing else of it changed.
  pub process-PlanFate :
      (x : Call) → process rt x clock c ≡ ok (c', e) → PlanFate x p clock (c'.accounts k)
  unfolding process
  process-PlanFate (Call.init_config ctx ps price slip) h =
      let w = init_config_writes rt c ctx ps price slip (silenced _ h) in
      inl (ground (arith, w.8, w.9))
  process-PlanFate (Call.set_pause ctx paused) h =
      let w = set_pause_writes rt c ctx paused (silenced _ h) in inl (ground (arith, w.1, w.2))
  process-PlanFate (Call.set_params ctx price slip) h =
      let w = set_params_writes rt c ctx price slip (silenced _ h) in inl (ground (arith, w.1, w.3))
  process-PlanFate (Call.set_whitelist ctx ps) h =
      let w = set_whitelist_writes rt c ctx ps (silenced _ h) in inl (ground (arith, w.2, w.5))
  process-PlanFate (Call.init_fee_config ctx fee_bps destination) h =
      let w = init_fee_config_writes rt c ctx fee_bps destination (silenced _ h) in
      inl (ground (arith, w.3, w.4))
  process-PlanFate (Call.set_fee ctx fee_bps destination) h =
      let w = set_fee_writes rt c ctx fee_bps destination (silenced _ h) in
      inl (ground (arith, w.2, w.3))
  process-PlanFate (Call.open_sell_plan ctx end_ts period_secs) h =
      let w = open_sell_plan_writes rt c ctx clock end_ts period_secs (silenced _ h) in
      inl (ground (arith, w.7, w.8))
  process-PlanFate (Call.close_sell_plan ctx) h =
      let w = close_sell_plan_writes rt c ctx (silenced _ h) in
      elim (Bool-cases (ctx.sell_plan.key == k)) [
        | inl same ↦ inr (inl (ground (arith, w.1, w.2, w.3, w.4)))
        | inr other ↦ inl (ground (arith, w.4))
      ]
  process-PlanFate (Call.execute_buy ctx remaining min_out swap_data) h =
      let b = execute_buy-Bought rt ctx remaining min_out swap_data c c' _ (bought _ h) in
      inl (ground (arith, b.accounts_kept))
  process-PlanFate (Call.execute_sell ctx remaining min_out swap_data) h =
      elim (sell_fate ctx remaining min_out swap_data (sold _ h)) [
        | inl same ↦ inl same
        | inr cranked ↦ inr (inr cranked)
      ]

-- ===== src/Examples/Draws.antt =====
-- The theorems on the schedule of a sell plan, applied to the sell of Examples/Runs.
use solana_recurring_buy.Prelude.{◌⊎◌, ℕ, ◌+◌, ◌-◌, ◌*◌, ◌≤◌, ◌≡◌, refl, arith, some, List, [], ◌∷◌}
use solana_recurring_buy.Prelude.Int.{ℤ, pos, ◌<ℤ◌, ◌+ℤ◌, ◌-ℤ◌, ◌*ℤ◌, ◌/ℤ◌}
use solana_recurring_buy.Errors.{Result, ok, err}
use solana_recurring_buy.State.{SellPlan, is_whitelisted, remaining_periods}
use solana_recurring_buy.State.Valid.{IsValidSellPlan, IsTime}
use solana_recurring_buy.Fee.{execution_fee, net_input}
use solana_recurring_buy.Floor.{price_floor, sell_floor}
use solana_recurring_buy.Schedule.{check_cap, advance}
use solana_recurring_buy.Chain.{ProgramAccount, Chain, store}
use solana_recurring_buy.Swap.{
  account_metas, skim_fee, invoke_venue, verify_outcome, swap_and_verify,
}
use solana_recurring_buy.MockSwap.{validate_swap, swap}
use solana_recurring_buy.Buy.{validate_buy, check_buy, check_buy_bindings, execute_buy}
use solana_recurring_buy.Sell.{
  validate_sell, check_due, check_sell, check_sell_bindings, execute_sell,
}
use solana_recurring_buy.Sell.Run.{Run, begin, draw, sell_runway, sell_terminates}
use solana_recurring_buy.Chain.Account.{Inv}
use solana_recurring_buy.Router.{Call, Event, buy_executed, process}
use solana_recurring_buy.Router.Authority.{SignedAs}
use solana_recurring_buy.Router.Invariant.{store-Inv}
use solana_recurring_buy.Router.Completed.{Unattended, alone, call, plan_completed_lasts}
use solana_recurring_buy.Examples.Ledger.{runtime}
use solana_recurring_buy.Examples.World.{
  user, plan_key, plan, now, chain, charged, charged-Inv, chain-Inv, tokens-IsWide, buy_ctx,
  buy_accounts, sell_ctx, sell_accounts,
}
use solana_recurring_buy.Examples.Runs.{bought_event, sold_chain, sold_event, sold}

abbrev pub sell_data : List ℕ
sell_data = 99_800_000 ∷ 9_950_000 ∷ []

abbrev pub clock : Result ℤ
clock = ok (pos (now + 100))

pub clock-IsTime : IsTime (pos (now + 100))
clock-IsTime = ground arith

abbrev process_chain : Result (Chain × Event) → Chain
process_chain (ok (c, e)) = c
process_chain (err e) = chain

abbrev drawn_plan : SellPlan
drawn_plan = record plan { next_due_ts = pos (now + 86_400) }

drawn_plan_at : sold_chain.accounts plan_key ≡ some (ProgramAccount.sell_plan drawn_plan)
unfolding execute_sell validate_sell check_due check_sell check_sell_bindings check_cap
    remaining_periods is_whitelisted execution_fee net_input sell_floor swap_and_verify skim_fee
    invoke_venue account_metas verify_outcome swap validate_swap advance ◌+ℤ◌ ◌-ℤ◌ ◌*ℤ◌ ◌/ℤ◌
drawn_plan_at = refl

abbrev one_draw : Run runtime plan_key plan 1_100_000_000 drawn_plan 1_000_000_000 1
one_draw =
    draw sell_ctx sell_accounts clock 9_900_000 sell_data chain sold_chain sold_event begin sold
      chain-Inv tokens-IsWide clock-IsTime refl refl drawn_plan_at refl (omega arith)

plan-IsValidSellPlan : IsValidSellPlan plan
plan-IsValidSellPlan = ground arith

sell_runway_example :
    (slots : ℕ) × (1 ≤ slots)
    × (drawn_plan.next_due_ts ≡ pos (now + slots * 86_400))
    × (1_100_000_000 * (10 - 1 - slots) ≤ 1_000_000_000 * (10 - 1))
sell_runway_example = sell_runway runtime plan_key plan 1_100_000_000 plan-IsValidSellPlan one_draw

sell_terminates_example : (1 ≤ 10) ⊎ ((1 ≡ 10 + 1) × (drawn_plan.end_ts <ℤ drawn_plan.next_due_ts))
sell_terminates_example =
    sell_terminates runtime plan_key plan 1_100_000_000 plan-IsValidSellPlan one_draw

-- The same plan, with an end before its gate.
abbrev pub finished_plan : SellPlan
finished_plan = record plan { end_ts = pos (now - 1) }

abbrev pub finished_chain : Chain
finished_chain = store plan_key (ProgramAccount.sell_plan finished_plan) charged

pub finished-Inv : Inv runtime finished_chain
finished-Inv =
    store-Inv runtime charged charged-Inv plan_key (ProgramAccount.sell_plan finished_plan)
      (refl, ground arith)

abbrev buy_call : Call
buy_call = Call.execute_buy buy_ctx buy_accounts 99_000_000 (9_980_000 ∷ 99_500_000 ∷ [])

abbrev pub later_chain : Chain
later_chain = process_chain (process runtime buy_call clock finished_chain)

abbrev buy_event : Event
buy_event = buy_executed bought_event

bought_meanwhile : process runtime buy_call clock finished_chain ≡ ok (later_chain, buy_event)
unfolding process execute_buy validate_buy check_buy check_buy_bindings is_whitelisted execution_fee
    net_input price_floor swap_and_verify skim_fee invoke_venue account_metas verify_outcome swap
    validate_swap
bought_meanwhile = refl

keeper_is_not_user : ¬ (SignedAs buy_call user)
keeper_is_not_user (signed, same) = ground arith

pub after_a_buy : Unattended runtime user finished_chain later_chain
after_a_buy =
    call buy_call clock buy_event alone tt clock-IsTime bought_meanwhile keeper_is_not_user

plan_completed_lasts_example : ¬ (
    execute_sell runtime sell_ctx sell_accounts clock 9_900_000 sell_data later_chain
    ≡ ok (sold_chain, sold_event))
plan_completed_lasts_example =
    plan_completed_lasts runtime plan_key finished_plan finished-Inv refl (omega arith) after_a_buy
      sell_ctx sell_accounts clock 9_900_000 sell_data sold_chain sold_event refl

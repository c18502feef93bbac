-- ===== src/Examples/Runs.antt =====
-- One buy and one sell in that world, computed.
use solana_recurring_buy.Prelude.{◌+◌, ◌≡◌, refl, [], ◌∷◌}
use solana_recurring_buy.Prelude.Int.{pos, ◌+ℤ◌, ◌-ℤ◌, ◌*ℤ◌, ◌/ℤ◌}
use solana_recurring_buy.Errors.{Result, ok, err}
use solana_recurring_buy.State.{is_whitelisted, remaining_periods}
use solana_recurring_buy.Fee.{execution_fee, net_input}
use solana_recurring_buy.Floor.{price_floor, sell_floor}
use solana_recurring_buy.Schedule.{check_cap, advance}
use solana_recurring_buy.Chain.{Chain}
use solana_recurring_buy.Swap.{
  account_metas, skim_fee, invoke_venue, verify_outcome, swap_and_verify,
}
use solana_recurring_buy.MockSwap.{validate_swap, swap}
use solana_recurring_buy.Buy.{BuyExecuted, validate_buy, check_buy, check_buy_bindings, execute_buy}
use solana_recurring_buy.Sell.{
  SellExecuted, validate_sell, check_due, check_sell, check_sell_bindings, execute_sell,
}
use solana_recurring_buy.Examples.Ledger.{runtime}
use solana_recurring_buy.Examples.World.{
  user, venue, now, chain, buy_ctx, buy_accounts, sell_ctx, sell_accounts,
}

abbrev chain_of : {E : Type 0} → Result (Chain × E) → Chain
chain_of (ok (c, e)) = c
chain_of (err e) = chain

abbrev pub buy_result : Result (Chain × BuyExecuted)
buy_result = execute_buy runtime buy_ctx buy_accounts 99_000_000 (9_980_000 ∷ 99_500_000 ∷ []) chain

abbrev pub bought_chain : Chain
bought_chain = chain_of buy_result

abbrev pub bought_event : BuyExecuted
bought_event = record {
  user = user;
  amount_in = 10_000_000;
  amount_out = 99_500_000;
  fee = 20_000;
  venue = venue;
}

pub bought : buy_result ≡ ok (bought_chain, bought_event)
unfolding execute_buy validate_buy check_buy check_buy_bindings is_whitelisted execution_fee
    net_input price_floor swap_and_verify skim_fee invoke_venue account_metas verify_outcome swap
    validate_swap
bought = refl

abbrev pub sell_result : Result (Chain × SellExecuted)
sell_result =
    execute_sell runtime sell_ctx sell_accounts (ok (pos (now + 100))) 9_900_000
      (99_800_000 ∷ 9_950_000 ∷ []) chain

abbrev pub sold_chain : Chain
sold_chain = chain_of sell_result

abbrev pub sold_event : SellExecuted
sold_event = record {
  user = user;
  amount_in = 100_000_000;
  amount_out = 9_950_000;
  fee = 200_000;
  venue = venue;
}

pub sold : sell_result ≡ ok (sold_chain, sold_event)
unfolding execute_sell validate_sell check_due check_sell check_sell_bindings check_cap
    remaining_periods is_whitelisted execution_fee net_input sell_floor swap_and_verify skim_fee
    invoke_venue account_metas verify_outcome swap validate_swap advance ◌+ℤ◌ ◌-ℤ◌ ◌*ℤ◌ ◌/ℤ◌
sold = refl

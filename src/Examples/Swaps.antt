-- ===== src/Examples/Swaps.antt =====
-- The theorems on the two swaps, applied to the runs of Examples/Runs.
use solana_recurring_buy.Prelude.{
  ℕ, ◌+◌, ◌-◌, ◌*◌, ◌^◌, ◌<◌, ◌≡◌, ◌↔◌, refl, arith, none, List, [], ◌∷◌,
}
use solana_recurring_buy.Prelude.Int.{ℤ, pos, ◌+ℤ◌, ◌-ℤ◌, ◌*ℤ◌, ◌/ℤ◌}
use solana_recurring_buy.Errors.{Result, ok}
use solana_recurring_buy.State.{is_whitelisted, remaining_periods}
use solana_recurring_buy.State.Valid.{IsTime}
use solana_recurring_buy.Fee.{execution_fee, net_input}
use solana_recurring_buy.Floor.{price_floor, sell_floor}
use solana_recurring_buy.Schedule.{check_cap, advance}
use solana_recurring_buy.Chain.{TokenAccount, Tokens}
use solana_recurring_buy.Chain.Laws.{balance}
use solana_recurring_buy.Swap.{
  Route, account_metas, skim_fee, invoke_venue, verify_outcome, swap_and_verify,
}
use solana_recurring_buy.Swap.Signers.{CanSpend}
use solana_recurring_buy.MockSwap.{validate_swap, swap}
use solana_recurring_buy.Buy.{validate_buy, check_buy, check_buy_bindings, execute_buy}
use solana_recurring_buy.Buy.Delivery as BuyDelivery
use solana_recurring_buy.Buy.Contract.{BuyContract, execute_buy_refines}
use solana_recurring_buy.Buy.Safety.{
  execute_buy_delivers, execute_buy_price, execute_buy_skims, execute_buy_custody,
}
use solana_recurring_buy.Sell.{
  validate_sell, check_due, check_sell, check_sell_bindings, execute_sell,
}
use solana_recurring_buy.Sell.Delivery as SellDelivery
use solana_recurring_buy.Sell.Contract.{SellContract, execute_sell_refines}
use solana_recurring_buy.Sell.Safety.{
  execute_sell_delivers, execute_sell_price, execute_sell_skims, execute_sell_custody,
}
use solana_recurring_buy.Examples.Ledger.{runtime, ledger_laws}
use solana_recurring_buy.Examples.Calls.{Foreign, pool_authority, call_laws}
use solana_recurring_buy.Examples.World.{
  usdc_mint, target_mint, buy_auth_key, pool_usdc, pool_target, config, now, chain, tokens,
  chain-Inv, tokens-IsWide, buy_ctx, buy_accounts, sell_ctx, sell_accounts,
}
use solana_recurring_buy.Examples.Runs.{
  bought_chain, bought_event, bought, sold_chain, sold_event, sold,
}

abbrev buy_data : List ℕ
buy_data = 9_980_000 ∷ 99_500_000 ∷ []

abbrev sell_data : List ℕ
sell_data = 99_800_000 ∷ 9_950_000 ∷ []

abbrev clock : Result ℤ
clock = ok (pos (now + 100))

clock-IsTime : IsTime (pos (now + 100))
clock-IsTime = ground arith

execute_buy_refines_example :
    (execute_buy runtime buy_ctx buy_accounts 99_000_000 buy_data chain
      ≡ ok (bought_chain, bought_event))
    ↔ BuyContract runtime buy_ctx buy_accounts 99_000_000 buy_data chain bought_chain bought_event
execute_buy_refines_example =
    execute_buy_refines runtime buy_ctx buy_accounts 99_000_000 buy_data chain chain-Inv
      tokens-IsWide bought_chain bought_event

execute_buy_delivers_example :
    BuyDelivery.Delivered runtime buy_ctx buy_accounts 99_000_000 buy_data chain bought_chain
      bought_event
execute_buy_delivers_example =
    execute_buy_delivers runtime buy_ctx buy_accounts 99_000_000 buy_data chain bought_chain
      bought_event bought chain-Inv tokens-IsWide

execute_buy_price_example :
    (10_000_000 - 20_000) * 10 ^ 9 * (10_000 - 100) < 100_000_000 * (10_000 * (99_500_000 + 2))
execute_buy_price_example =
    execute_buy_price runtime buy_ctx buy_accounts 99_000_000 buy_data chain bought_chain
      bought_event bought config chain-Inv tokens-IsWide refl (omega arith)

execute_buy_skims_example :
    (skimmed : Tokens) × (route : Route) × (route.swap_program ≡ buy_ctx.swap_program)
    × (route.remaining_accounts ≡ buy_accounts)
    × (route.swap_data ≡ buy_data)
    × (invoke_venue runtime route skimmed ≡ ok bought_chain.tokens)
    × (balance skimmed buy_ctx.transient_usdc.key ≡ 10_000_000 - 20_000)
    × (balance skimmed buy_ctx.fee_ata.key ≡ balance tokens buy_ctx.fee_ata.key + 20_000)
execute_buy_skims_example =
    execute_buy_skims runtime buy_ctx buy_accounts 99_000_000 buy_data chain bought_chain
      bought_event bought ledger_laws chain-Inv tokens-IsWide (λ e. ground arith)

abbrev target_pool : TokenAccount
target_pool = record {
  mint = target_mint;
  owner = pool_authority;
  delegate = none;
  amount = 1_000_000_000_000;
}

pool_paid : balance bought_chain.tokens pool_target < 1_000_000_000_000
unfolding execute_buy validate_buy check_buy check_buy_bindings is_whitelisted execution_fee
    net_input price_floor swap_and_verify skim_fee invoke_venue account_metas verify_outcome swap
    validate_swap
pool_paid = omega arith

execute_buy_custody_example : CanSpend Foreign buy_auth_key buy_accounts target_pool
execute_buy_custody_example =
    execute_buy_custody runtime buy_ctx buy_accounts 99_000_000 buy_data chain bought_chain
      bought_event bought Foreign pool_target target_pool ledger_laws call_laws (λ e. ground arith)
      refl pool_paid

execute_sell_refines_example :
    (execute_sell runtime sell_ctx sell_accounts clock 9_900_000 sell_data chain
      ≡ ok (sold_chain, sold_event))
    ↔ SellContract runtime sell_ctx sell_accounts clock 9_900_000 sell_data chain sold_chain
        sold_event
execute_sell_refines_example =
    execute_sell_refines runtime sell_ctx sell_accounts clock 9_900_000 sell_data chain chain-Inv
      tokens-IsWide clock-IsTime sold_chain sold_event

execute_sell_delivers_example :
    SellDelivery.Delivered runtime sell_ctx sell_accounts clock 9_900_000 sell_data chain sold_chain
      sold_event
execute_sell_delivers_example =
    execute_sell_delivers runtime sell_ctx sell_accounts clock 9_900_000 sell_data chain sold_chain
      sold_event sold chain-Inv tokens-IsWide

execute_sell_price_example :
    (100_000_000 - 200_000) * 100_000_000 * (10_000 - 100) < 10 ^ 9 * (10_000 * (9_950_000 + 2))
execute_sell_price_example =
    execute_sell_price runtime sell_ctx sell_accounts clock 9_900_000 sell_data chain sold_chain
      sold_event sold config chain-Inv tokens-IsWide refl (omega arith)

execute_sell_skims_example :
    (skimmed : Tokens) × (route : Route) × (route.swap_program ≡ sell_ctx.swap_program)
    × (route.remaining_accounts ≡ sell_accounts)
    × (route.swap_data ≡ sell_data)
    × (invoke_venue runtime route skimmed ≡ ok sold_chain.tokens)
    × (balance skimmed sell_ctx.transient_target.key ≡ 100_000_000 - 200_000)
    × (balance skimmed sell_ctx.fee_ata.key ≡ balance tokens sell_ctx.fee_ata.key + 200_000)
execute_sell_skims_example =
    execute_sell_skims runtime sell_ctx sell_accounts clock 9_900_000 sell_data chain sold_chain
      sold_event sold ledger_laws chain-Inv tokens-IsWide (λ e. ground arith)

abbrev usdc_pool : TokenAccount
usdc_pool = record {
  mint = usdc_mint;
  owner = pool_authority;
  delegate = none;
  amount = 1_000_000_000_000;
}

pool_paid_back : balance sold_chain.tokens pool_usdc < 1_000_000_000_000
unfolding execute_sell validate_sell check_due check_sell check_sell_bindings check_cap
    remaining_periods is_whitelisted execution_fee net_input sell_floor swap_and_verify skim_fee
    invoke_venue account_metas verify_outcome swap validate_swap advance ◌+ℤ◌ ◌-ℤ◌ ◌*ℤ◌ ◌/ℤ◌
pool_paid_back = omega arith

execute_sell_custody_example : CanSpend Foreign buy_auth_key sell_accounts usdc_pool
execute_sell_custody_example =
    execute_sell_custody runtime sell_ctx sell_accounts clock 9_900_000 sell_data chain sold_chain
      sold_event sold Foreign pool_usdc usdc_pool ledger_laws call_laws (λ e. ground arith) refl
      pool_paid_back

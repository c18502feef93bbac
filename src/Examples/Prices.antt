-- ===== src/Examples/Prices.antt =====
-- The theorems on the price that the admin has set, applied to a buy and a sell that follow.
use solana_recurring_buy.Prelude.{ℕ, ◌+◌, ◌-◌, ◌*◌, ◌^◌, ◌<◌, ◌≡◌, refl, arith, List, [], ◌∷◌}
use solana_recurring_buy.Prelude.Int.{ℤ, pos, ◌+ℤ◌, ◌-ℤ◌, ◌*ℤ◌, ◌/ℤ◌}
use solana_recurring_buy.Errors.{Result, ok, err}
use solana_recurring_buy.State.{is_whitelisted, remaining_periods}
use solana_recurring_buy.State.Valid.{IsTime}
use solana_recurring_buy.Fee.{execution_fee, net_input}
use solana_recurring_buy.Floor.{price_floor, sell_floor}
use solana_recurring_buy.Schedule.{check_cap, advance}
use solana_recurring_buy.Chain.{ProgramAccount, Chain, store}
use solana_recurring_buy.Chain.Laws.{IsWide}
use solana_recurring_buy.Admin.{AdminOnly, set_params}
use solana_recurring_buy.Swap.{
  account_metas, skim_fee, invoke_venue, verify_outcome, swap_and_verify,
}
use solana_recurring_buy.MockSwap.{validate_swap, swap}
use solana_recurring_buy.Buy.{BuyExecuted, validate_buy, check_buy, check_buy_bindings, execute_buy}
use solana_recurring_buy.Sell.{
  SellExecuted, validate_sell, check_due, check_sell, check_sell_bindings, execute_sell,
}
use solana_recurring_buy.Router.{Call, buy_executed, process}
use solana_recurring_buy.Router.Authority.{SignedAs}
use solana_recurring_buy.Router.Completed.{Unattended, alone, call}
use solana_recurring_buy.Router.PriceStanding.{set_params_protect_buys, set_params_protect_sells}
use solana_recurring_buy.Examples.Ledger.{runtime}
use solana_recurring_buy.Examples.World.{
  admin, user, venue, config_key, config, writable, signer, now, chain, chain-Inv, tokens-IsWide,
  update-IsWide, buy_ctx, buy_accounts, sell_ctx, sell_accounts,
}

abbrev params_ctx : AdminOnly
params_ctx = record { admin = signer admin; config = writable config_key }

abbrev params_chain : Chain
params_chain =
    store config_key
      (ProgramAccount.config
        (record config { price_ref_micros = 101_000_000; max_slippage_bps = 50 }))
      chain

params_set : set_params runtime params_ctx 101_000_000 50 chain ≡ ok params_chain
unfolding set_params
params_set = refl

abbrev chain_of : {E : Type 0} → Result (Chain × E) → Chain
chain_of (ok (c, e)) = c
chain_of (err e) = chain

abbrev buy_data : List ℕ
buy_data = 9_980_000 ∷ 99_500_000 ∷ []

abbrev bought : Result (Chain × BuyExecuted)
bought = execute_buy runtime buy_ctx buy_accounts 99_000_000 buy_data params_chain

abbrev buy_event : BuyExecuted
buy_event = record {
  user = user;
  amount_in = 10_000_000;
  amount_out = 99_500_000;
  fee = 20_000;
  venue = venue;
}

buys : bought ≡ ok (chain_of bought, buy_event)
unfolding execute_buy validate_buy check_buy check_buy_bindings is_whitelisted execution_fee
    net_input price_floor swap_and_verify skim_fee invoke_venue account_metas verify_outcome swap
    validate_swap
buys = refl

set_params_protect_buys_example :
    (10_000_000 - 20_000) * 10 ^ 9 * (10_000 - 50) < 101_000_000 * (10_000 * (99_500_000 + 2))
set_params_protect_buys_example =
    set_params_protect_buys runtime params_ctx 101_000_000 50 config chain params_chain params_chain
      chain-Inv (omega arith) refl params_set alone tokens-IsWide buy_ctx buy_accounts 99_000_000
      buy_data (chain_of bought) buy_event buys refl (omega arith)

-- The sell comes after the buy.
abbrev clock : Result ℤ
clock = ok (pos (now + 100))

clock-IsTime : IsTime (pos (now + 100))
clock-IsTime = ground arith

abbrev buy_call : Call
buy_call = Call.execute_buy buy_ctx buy_accounts 99_000_000 buy_data

buy_processed :
    process runtime buy_call clock params_chain ≡ ok (chain_of bought, buy_executed buy_event)
unfolding process execute_buy validate_buy check_buy check_buy_bindings is_whitelisted execution_fee
    net_input price_floor swap_and_verify skim_fee invoke_venue account_metas verify_outcome swap
    validate_swap
buy_processed = refl

keeper_is_not_admin : ¬ (SignedAs buy_call admin)
keeper_is_not_admin signed = ground arith

after_a_buy : Unattended runtime admin params_chain (chain_of bought)
after_a_buy =
    call buy_call clock (buy_executed buy_event) alone tt clock-IsTime buy_processed
      keeper_is_not_admin

abbrev sell_data : List ℕ
sell_data = 99_800_000 ∷ 10_050_000 ∷ []

abbrev sold : Result (Chain × SellExecuted)
sold = execute_sell runtime sell_ctx sell_accounts clock 10_040_000 sell_data (chain_of bought)

abbrev sell_event : SellExecuted
sell_event = record {
  user = user;
  amount_in = 100_000_000;
  amount_out = 10_050_000;
  fee = 200_000;
  venue = venue;
}

sells : sold ≡ ok (chain_of sold, sell_event)
unfolding execute_buy validate_buy check_buy check_buy_bindings price_floor execute_sell
    validate_sell check_due check_sell check_sell_bindings check_cap remaining_periods
    is_whitelisted execution_fee net_input sell_floor swap_and_verify skim_fee invoke_venue
    account_metas verify_outcome swap validate_swap advance ◌+ℤ◌ ◌-ℤ◌ ◌*ℤ◌ ◌/ℤ◌
sells = refl

bought-IsWide : IsWide (chain_of bought).tokens
unfolding execute_buy validate_buy check_buy check_buy_bindings is_whitelisted execution_fee
    net_input price_floor swap_and_verify skim_fee invoke_venue account_metas verify_outcome swap
    validate_swap
bought-IsWide =
    update-IsWide _ _ _
      (update-IsWide _ _ _
        (update-IsWide _ _ _
          (update-IsWide _ _ _
            (update-IsWide _ _ _ (update-IsWide _ _ _ tokens-IsWide (omega arith)) (omega arith))
            (omega arith))
          (omega arith))
        (omega arith))
      (omega arith)

set_params_protect_sells_example :
    (100_000_000 - 200_000) * 101_000_000 * (10_000 - 50) < 10 ^ 9 * (10_000 * (10_050_000 + 2))
set_params_protect_sells_example =
    set_params_protect_sells runtime params_ctx 101_000_000 50 config chain params_chain
      (chain_of bought) chain-Inv (omega arith) refl params_set after_a_buy bought-IsWide sell_ctx
      sell_accounts clock 10_040_000 sell_data (chain_of sold) sell_event sells refl (omega arith)

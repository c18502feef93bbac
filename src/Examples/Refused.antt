-- ===== src/Examples/Refused.antt =====
-- A buy whose `min_out` lies below the floor, and a sell of more than a period's share.
use solana_recurring_buy.Prelude.{◌+◌, ◌-◌, ◌*◌, ◌<◌, ◌≡◌, refl, arith, none}
use solana_recurring_buy.Prelude.Int.{pos, ◌-ℤ◌, ◌/ℤ◌}
use solana_recurring_buy.Errors.{ok, err, buy, min_out_too_low, overdraw_schedule}
use solana_recurring_buy.State.{is_whitelisted, remaining_periods}
use solana_recurring_buy.State.Valid.{IsValidConfig, IsValidFeeConfig, IsValidSellPlan, IsTime}
use solana_recurring_buy.Fee.{execution_fee, net_input}
use solana_recurring_buy.Floor.{price_floor, sell_floor}
use solana_recurring_buy.Schedule.{check_cap}
use solana_recurring_buy.Buy.{BuyAccounts, check_buy_bindings, check_buy}
use solana_recurring_buy.Buy.Guards.{buy_floor}
use solana_recurring_buy.Buy.Refusals.{check_buy_reasons}
use solana_recurring_buy.Sell.{SellAccounts, check_due, check_sell_bindings, check_sell}
use solana_recurring_buy.Sell.Refusals.{check_sell_reasons}
use solana_recurring_buy.Examples.Ledger.{runtime}
use solana_recurring_buy.Examples.World.{
  user, usdc_mint, target_mint, buy_auth_key, config, fee_config, plan, now, buy_ctx, sell_ctx,
}

config-IsValidConfig : IsValidConfig config
config-IsValidConfig = ground arith

fee_config-IsValidFeeConfig : IsValidFeeConfig fee_config
fee_config-IsValidFeeConfig = ground arith

plan-IsValidSellPlan : IsValidSellPlan plan
plan-IsValidSellPlan = ground arith

now-IsTime : IsTime (pos now)
now-IsTime = ground arith

abbrev buy_acc : BuyAccounts
buy_acc = record {
  config = config;
  transient_usdc = record {
    mint = usdc_mint;
    owner = buy_auth_key;
    delegate = none;
    amount = 10_000_000;
  };
  dest_ata = record { mint = target_mint; owner = user; delegate = none; amount = 0 };
  fee_config = fee_config;
  bump = 255;
}

too_low : check_buy runtime buy_ctx buy_acc 98_801_999 ≡ err (buy min_out_too_low)
unfolding check_buy check_buy_bindings is_whitelisted execution_fee net_input price_floor
too_low = refl

check_buy_reasons_example : 98_801_999 < buy_floor buy_acc (10_000_000 - 20_000)
check_buy_reasons_example =
    check_buy_reasons runtime buy_ctx buy_acc 98_801_999 (buy min_out_too_low) config-IsValidConfig
      fee_config-IsValidFeeConfig (omega arith) too_low

-- Ten periods are left, and the pot is one unit short of ten draws.
abbrev sell_acc : SellAccounts
sell_acc = record {
  config = config;
  sell_plan = plan;
  transient_target = record {
    mint = target_mint;
    owner = buy_auth_key;
    delegate = none;
    amount = 100_000_000;
  };
  user_target_ata = record {
    mint = target_mint;
    owner = user;
    delegate = none;
    amount = 899_999_999;
  };
  dest_usdc = record { mint = usdc_mint; owner = user; delegate = none; amount = 0 };
  fee_config = fee_config;
  bump = 255;
}

overdrawn :
    check_sell runtime sell_ctx sell_acc (ok (pos now)) 9_900_000 ≡ err (buy overdraw_schedule)
unfolding check_sell check_due check_sell_bindings check_cap remaining_periods is_whitelisted
    execution_fee net_input sell_floor ◌-ℤ◌ ◌/ℤ◌
overdrawn = refl

check_sell_reasons_example : 899_999_999 + 100_000_000 < 100_000_000 * 10
check_sell_reasons_example =
    check_sell_reasons runtime sell_ctx sell_acc (pos now) 9_900_000 (buy overdraw_schedule)
      config-IsValidConfig fee_config-IsValidFeeConfig plan-IsValidSellPlan now-IsTime (omega arith)
      (omega arith) overdrawn

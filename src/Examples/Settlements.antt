-- ===== src/Examples/Settlements.antt =====
-- The daemon's buy and sell, from the transaction to the tokens, in the world of Examples/KeeperWorld.
use solana_recurring_buy.Prelude.{◌+◌, refl, arith}
use solana_recurring_buy.Prelude.Int.{pos, ◌+ℤ◌}
use solana_recurring_buy.State.Valid.{IsTime}
use solana_recurring_buy.Keeper.Amounts.{available}
use solana_recurring_buy.Keeper.Sells.{pulled_by}
use solana_recurring_buy.Keeper.BuySettles.{BuyFunded, BuySettled, crank_buy-BuySettled}
use solana_recurring_buy.Keeper.SellSettles.{SellFunded, SellSettled, crank_sell-SellSettled}
use solana_recurring_buy.Examples.Bytes.{
  byte_runtime, fixtures, mock-Sound, byte-Sound, byte-RunsMockSwap,
}
use solana_recurring_buy.Examples.Ledger.{mock_runtime}
use solana_recurring_buy.Examples.World.{keeper, user, fee_config, now, plan}
use solana_recurring_buy.Examples.KeeperWorld.{
  client, buy_delegation, sell_delegation, view, dollar_config, dollar_chain, dollar-Inv, serves,
  buy_landed,
}
use solana_recurring_buy.Examples.Keepers.{plan-IsValidSellPlan, seen, sell_landed}

buy_funded :
    BuyFunded byte_runtime fixtures client buy_delegation
      (pos now)
      dollar_chain
      fee_config
      buy_landed
buy_funded = record {
  source_pool = _;
  target_pool = _;
  transient_at = refl;
  dest_at = refl;
  fee_ata_at = refl;
  source_pool_at = refl;
  target_pool_at = refl;
  transient_owner = refl;
  pool_owner = refl;
  fee_mint = refl;
  mint_in = refl;
  mint_out = refl;
  stock = omega arith;
  room_fee = omega arith;
  room_in = omega arith;
  room_out = omega arith;
  apart = record {
    source_pool = λ e. omega arith;
    source_target = λ e. omega arith;
    source_dest = λ e. omega arith;
    pool_target = λ e. omega arith;
    pool_dest = λ e. omega arith;
    target_dest = λ e. omega arith;
  };
  fee_apart_transient = λ e. omega arith;
  fee_apart_source = λ e. omega arith;
  fee_apart_target = λ e. omega arith;
  fee_apart_dest = λ e. omega arith;
}

crank_buy-BuySettled_example :
    BuySettled byte_runtime fixtures client keeper buy_delegation
      (pos now)
      400
      view
      dollar_chain
      fee_config
      buy_landed
unfolding available ◌+ℤ◌
crank_buy-BuySettled_example =
    crank_buy-BuySettled byte_runtime mock_runtime fixtures client keeper buy_delegation (pos now)
      400 view dollar_chain dollar_config fee_config dollar-Inv serves buy_landed byte-Sound
      mock-Sound byte-RunsMockSwap buy_funded (omega arith)

sell_funded :
    SellFunded byte_runtime fixtures user fee_config plan 1_100_000_000 0
      (pulled_by plan sell_delegation now 1_100_000_000 0)
      dollar_chain
      sell_landed
sell_funded = record {
  source_pool = _;
  target_pool = _;
  transient_at = refl;
  dest_at = refl;
  fee_ata_at = refl;
  source_pool_at = refl;
  target_pool_at = refl;
  transient_owner = refl;
  pool_owner = refl;
  fee_mint = refl;
  mint_in = refl;
  mint_out = refl;
  stock = omega arith;
  room_fee = omega arith;
  room_in = omega arith;
  room_out = omega arith;
  apart = record {
    source_pool = λ e. omega arith;
    source_target = λ e. omega arith;
    source_dest = λ e. omega arith;
    pool_target = λ e. omega arith;
    pool_dest = λ e. omega arith;
    target_dest = λ e. omega arith;
  };
  fee_apart_transient = λ e. omega arith;
  fee_apart_source = λ e. omega arith;
  fee_apart_target = λ e. omega arith;
  fee_apart_dest = λ e. omega arith;
}

later-IsTime : IsTime (pos (now + 5))
later-IsTime = ground arith

crank_sell-SellSettled_example :
    SellSettled byte_runtime fixtures client keeper sell_delegation 400 view fee_config plan now
      1_100_000_000 0
      (now + 5)
      dollar_chain
      sell_landed
crank_sell-SellSettled_example =
    crank_sell-SellSettled byte_runtime mock_runtime fixtures client keeper sell_delegation 400 view
      dollar_config fee_config plan plan-IsValidSellPlan now 1_100_000_000 0 seen byte-Sound
      mock-Sound byte-RunsMockSwap (now + 5) dollar_chain dollar-Inv serves sell_landed sell_funded
      (omega arith) later-IsTime

-- ===== src/Examples/KeeperWorld.antt =====
-- A daemon with a buy and a sell delegation, over a router at one dollar and six decimals.
use solana_recurring_buy.Prelude.{
  ℕ, ◌+◌, ◌-◌, ◌≡◌, refl, arith, none, some, List, [], ◌∷◌, ◌++◌, ◌==◌, if◌then◌else◌, replicate,
}
use solana_recurring_buy.Prelude.Int.{pos, ◌+ℤ◌}
use solana_recurring_buy.State.{Config, is_whitelisted}
use solana_recurring_buy.Chain.{ProgramAccount, Chain, store}
use solana_recurring_buy.Chain.Account.{Inv}
use solana_recurring_buy.Router.Invariant.{store-Inv}
use solana_recurring_buy.Keeper.{Client, Delegation, FeeView}
use solana_recurring_buy.Keeper.Numbers.{low_bytes, le_value, u64}
use solana_recurring_buy.Keeper.Amounts.{available}
use solana_recurring_buy.Keeper.Daemon.{bal, ata, buy_auth_pda}
use solana_recurring_buy.Keeper.Accepted.{Serves}
use solana_recurring_buy.Keeper.Buys.{BuyLanded}
use solana_recurring_buy.Examples.Ledger.{ata_of}
use solana_recurring_buy.Examples.Bytes.{byte_runtime, fixtures}
use solana_recurring_buy.Examples.World.{
  user, usdc_mint, target_mint, treasury, config_key, fee_config_key, plan_key, config, fee_config,
  now, plan, chain, chain-Inv,
}

abbrev pub plan_bytes : List ℕ
plan_bytes =
    replicate 8 4
    ++ low_bytes 32 (pos user)
    ++ u64 plan.end_ts
    ++ u64 plan.period_secs
    ++ u64 plan.next_due_ts
    ++ plan.bump ∷ []

abbrev pub fee_bytes : List ℕ
fee_bytes =
    replicate 8 5
    ++ low_bytes 2 (pos fee_config.fee_bps)
    ++ low_bytes 32 (pos treasury)
    ++ fee_config.bump ∷ []

-- Before the pulls, the pot holds 1.1 units and the transient accounts nothing.
abbrev pub client : Client
client = record {
  account_data = λ k.
      if k == plan_key
      then some plan_bytes
      else if k == fee_config_key
      then some fee_bytes
      else none;
  token_balance = λ k. if k == ata_of user target_mint then some 1_100_000_000 else none;
  subscription_authority = λ owner mint. owner + mint;
  base58_decode = le_value;
}

abbrev pub buy_delegation : Delegation
buy_delegation = record {
  address = 300;
  delegator = user;
  mint = usdc_mint;
  amount_per_period = 10_000_000;
  amount_pulled_in_period = 4_000_000;
  current_period_start_ts = pos (now - 90_000);
  period_length_s = 86_400;
  expiry_ts = pos (now + 1_000_000);
}

abbrev pub sell_delegation : Delegation
sell_delegation = record buy_delegation {
  address = 301;
  mint = target_mint;
  amount_per_period = 100_000_000;
}

abbrev pub old_delegation : Delegation
old_delegation = record buy_delegation { address = 302; expiry_ts = pos (now + 10) }

abbrev pub view : FeeView
view = record { pda = fee_config_key; bps = pos 20; destination = some treasury }

abbrev pub dollar_config : Config
dollar_config = record config { price_ref_micros = 1_000_000; target_decimals = 6 }

abbrev pub dollar_chain : Chain
dollar_chain = store config_key (ProgramAccount.config dollar_config) chain

pub dollar-Inv : Inv byte_runtime dollar_chain
dollar-Inv =
    store-Inv byte_runtime chain chain-Inv config_key (ProgramAccount.config dollar_config)
      (refl, ground arith)

abbrev pub serves : Serves byte_runtime fixtures view dollar_chain dollar_config fee_config
unfolding is_whitelisted
serves = record {
  config_at = refl;
  usdc = refl;
  target = refl;
  dollar = refl;
  scale = refl;
  slippage = refl;
  running = refl;
  listed = refl;
  fee_at = refl;
  view_pda = refl;
  view_bps = refl;
  view_destination = refl;
}

pub buy_pulled :
    available buy_delegation (pos now)
      +ℤ bal client (ata byte_runtime (buy_auth_pda byte_runtime user) usdc_mint)
    ≡ pos 10_000_000
unfolding available ◌+ℤ◌
buy_pulled = refl

abbrev pub buy_landed :
    BuyLanded byte_runtime fixtures client buy_delegation (pos now) fee_config dollar_chain
buy_landed = record {
  transient = _;
  dest = _;
  fee_ata = _;
  transient_at = refl;
  dest_at = refl;
  fee_ata_at = refl;
  transient_mint = refl;
  dest_mint = refl;
  pulled = buy_pulled;
  fits = omega arith;
}

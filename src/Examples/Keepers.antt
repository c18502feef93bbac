-- ===== src/Examples/Keepers.antt =====
-- The daemon's cranks, readings and selection in that world.
use solana_recurring_buy.Prelude.{
  ℕ, ◌+◌, ◌-◌, ◌*◌, ◌≤◌, ◌≡◌, ◌↔◌, refl, arith, none, some, ◌==◌, if◌then◌else◌, List, [], ◌∷◌,
  replicate,
}
use solana_recurring_buy.Prelude.Int.{ℤ, pos, ◌+ℤ◌, ◌-ℤ◌}
use solana_recurring_buy.Errors.{ok}
use solana_recurring_buy.State.Valid.{IsValidSellPlan}
use solana_recurring_buy.Schedule.{check_cap}
use solana_recurring_buy.Keeper.{Client, Delegation, Ix, sent}
use solana_recurring_buy.Keeper.Numbers.{low_bytes, le_value, at_least_one}
use solana_recurring_buy.Keeper.Amounts.{available, sell_pull, amortized_draw}
use solana_recurring_buy.Keeper.Values.{least}
use solana_recurring_buy.Keeper.Cranks.{create_transient, sell_ix, draw_plan}
use solana_recurring_buy.State.Periods.{periods_left}
use solana_recurring_buy.Keeper.Daemon.{fetch_sell_plan, load_fee_config}
use solana_recurring_buy.Keeper.Tick.{consider, select}
use solana_recurring_buy.Keeper.Draws.{pull_is_largest, residue_blocks}
use solana_recurring_buy.Keeper.Layout.{
  PlanData, FeeData, view_of, fetch_sell_plan_reads, load_fee_config_reads,
}
use solana_recurring_buy.Keeper.Consider.{OnePerKey}
use solana_recurring_buy.Keeper.Selection.{ListedIn, AllCovered, select_latest}
use solana_recurring_buy.Keeper.Sells.{pulled_by, SellSeen, SellLanded}
use solana_recurring_buy.Examples.Ledger.{ata_of}
use solana_recurring_buy.Examples.Bytes.{byte_runtime, fixtures}
use solana_recurring_buy.Examples.World.{
  keeper, user, usdc_mint, target_mint, buy_auth_key, treasury, fee_config, now, plan,
}
use solana_recurring_buy.Examples.KeeperWorld.{
  plan_bytes, fee_bytes, client, buy_delegation, sell_delegation, old_delegation, view,
  dollar_chain,
}

pub plan-IsValidSellPlan : IsValidSellPlan plan
plan-IsValidSellPlan = ground arith

pub plan_data : PlanData plan plan_bytes
unfolding low_bytes
plan_data = record {
  disc = replicate 8 4;
  user_key = low_bytes 32 (pos user);
  disc_length = refl;
  key_length = refl;
  layout = refl;
}

abbrev pub seen : SellSeen byte_runtime fixtures client user plan now 1_100_000_000 0
unfolding ◌-ℤ◌
seen = record {
  plan_bytes = plan_bytes;
  plan_seen = refl;
  plan_data = plan_data;
  pot_seen = refl;
  residue_seen = refl;
  owner = refl;
  unfinished = omega arith;
  due = omega arith;
  end_safe = omega arith;
  now_safe = omega arith;
  share = omega arith;
}

pub sell_pulled : 100_000_000 ≡ pulled_by plan sell_delegation now 1_100_000_000 0 + 0
unfolding available ◌+ℤ◌
sell_pulled = refl

pub pot_left : 1_000_000_000 + pulled_by plan sell_delegation now 1_100_000_000 0 ≡ 1_100_000_000
unfolding available ◌+ℤ◌
pot_left = refl

abbrev pub sell_landed :
    SellLanded byte_runtime fixtures user fee_config plan 1_100_000_000 0
      (pulled_by plan sell_delegation now 1_100_000_000 0)
      dollar_chain
sell_landed = record {
  transient = _;
  wallet = _;
  dest = _;
  fee_ata = _;
  plan_at = refl;
  transient_at = refl;
  wallet_at = refl;
  dest_at = refl;
  fee_ata_at = refl;
  arrived = sell_pulled;
  left = pot_left;
  some_in = omega arith;
  fits = omega arith;
}

fetch_sell_plan_reads_example :
    fetch_sell_plan byte_runtime client user ≡ some (some (view_of byte_runtime plan))
fetch_sell_plan_reads_example =
    fetch_sell_plan_reads byte_runtime client plan plan_bytes plan_data plan-IsValidSellPlan
      (omega arith) (omega arith) refl

fee_data : FeeData le_value fee_config fee_bytes
unfolding low_bytes le_value
fee_data = record {
  disc = replicate 8 5;
  destination_key = low_bytes 32 (pos treasury);
  disc_length = refl;
  key_length = refl;
  decoded = refl;
  layout = refl;
}

load_fee_config_reads_example : load_fee_config byte_runtime client ≡ some view
load_fee_config_reads_example =
    load_fee_config_reads byte_runtime client fee_config fee_bytes fee_data (omega arith) refl

pull_is_largest_example :
    (periods : ℤ) × (m : ℕ) × (avail : ℕ) × (at_least_one (plan.end_ts -ℤ pos now) plan.period_secs
      ≡ some periods)
    × (available sell_delegation (pos now) ≡ pos avail)
    × (sell_pull (pos 1_100_000_000) (pos 7) periods (available sell_delegation (pos now))
        ≡ pos (least m avail))
    × (amortized_draw (pos 1_100_000_000) plan.end_ts plan.period_secs (pos now) (pos 7)
        ≡ some (pos m))
    × ((check_cap plan (pos now) (1_100_000_000 - 100) (100 + 7) ≡ ok tt)
        ↔ ((7 * periods_left (now + 864_000) now 86_400 ≤ 1_100_000_000 + 7) × (100 ≤ m)))
pull_is_largest_example =
    pull_is_largest plan (now + 864_000) now 86_400 1_100_000_000 7 100 refl refl (omega arith)
      (omega arith) (omega arith) (omega arith) (omega arith) sell_delegation

-- The daemon sees a pot of 1000 and a residue of 200, above the tenth part of 1200.
abbrev blocked_client : Client
blocked_client = record client {
  token_balance = λ k.
      if k == ata_of user target_mint
      then some 1000
      else if k == ata_of buy_auth_key target_mint
      then some 200
      else none;
}

residue_blocks_example :
    (amortized_draw (pos 1000) plan.end_ts plan.period_secs (pos now) (pos 200) ≡ some (pos 0))
    × (draw_plan byte_runtime fixtures blocked_client keeper sell_delegation
          (pos now)
          400
          view
          (view_of byte_runtime plan)
        ≡ some (
            sent (
              create_transient byte_runtime fixtures user target_mint
              ∷ Ix.create_ata (ata_of user usdc_mint) user usdc_mint
              ∷ sell_ix byte_runtime fixtures keeper user (view_of byte_runtime plan) view (pos 200)
              ∷ [])))
    × ¬ (check_cap plan (pos now) (1000 - 10) (10 + 200) ≡ ok tt)
residue_blocks_example =
    residue_blocks plan (now + 864_000) now 86_400 1000 200 10 refl refl (omega arith) (omega arith)
      (omega arith) (omega arith) (omega arith) (omega arith) byte_runtime fixtures blocked_client
      keeper sell_delegation 400 view refl refl

abbrev listed : List Delegation
listed = old_delegation ∷ sell_delegation ∷ buy_delegation ∷ []

-- The newer buy delegation takes the place of the older one.
selected : select fixtures [] listed ≡ buy_delegation ∷ sell_delegation ∷ []
unfolding select consider
selected = refl

select_latest_example :
    OnePerKey (select fixtures [] listed)
    × ListedIn fixtures listed (select fixtures [] listed)
    × AllCovered fixtures (select fixtures [] listed) listed
select_latest_example = select_latest fixtures listed

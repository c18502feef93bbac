-- ===== src/Router.antt =====
-- programs/recurring-buy/src/lib.rs, `mod recurring_buy`: the instructions as one data type, and the
-- step of the program on each. A step that fails changes nothing.
pub mod Results
pub mod Invariant
pub mod Reach
pub mod Authority
pub mod Plans
pub mod Fees
pub mod Spec
pub mod FeeFate
pub mod Standing
pub mod Liveness
pub mod Charges
pub mod FeeStanding
pub mod PriceStanding
pub mod Moves
pub mod Stages
pub mod Panics
pub mod Completed
use solana_recurring_buy.Prelude.{ℕ, Bool, List}
use solana_recurring_buy.Prelude.Int.{ℤ}
use solana_recurring_buy.Errors.{Result, ok, ◌>>=◌}
use solana_recurring_buy.State.{Pubkey}
use solana_recurring_buy.Chain.{AccountInfo, Chain, Runtime}
use solana_recurring_buy.Admin
use solana_recurring_buy.Admin.{InitConfig, AdminOnly, InitFeeConfig, SetFee}
use solana_recurring_buy.Plan
use solana_recurring_buy.Plan.{OpenSellPlan, CloseSellPlan}
use solana_recurring_buy.Buy
use solana_recurring_buy.Buy.{ExecuteBuy, BuyExecuted}
use solana_recurring_buy.Sell
use solana_recurring_buy.Sell.{ExecuteSell, SellExecuted}

pub data Call : Type 0 where
  init_config : InitConfig → List Pubkey → ℕ → ℕ → Call
  set_pause : AdminOnly → Bool → Call
  set_params : AdminOnly → ℕ → ℕ → Call
  set_whitelist : AdminOnly → List Pubkey → Call
  init_fee_config : InitFeeConfig → ℕ → Pubkey → Call
  set_fee : SetFee → ℕ → Pubkey → Call
  open_sell_plan : OpenSellPlan → ℤ → ℤ → Call
  close_sell_plan : CloseSellPlan → Call
  execute_buy : ExecuteBuy → List AccountInfo → ℕ → List ℕ → Call
  execute_sell : ExecuteSell → List AccountInfo → ℕ → List ℕ → Call

pub data Event : Type 0 where
  silent : Event
  buy_executed : BuyExecuted → Event
  sell_executed : SellExecuted → Event

module _ (rt : Runtime) where
  unfoldable pub process : Call → Result ℤ → Chain → Result (Chain × Event)
  process (Call.init_config ctx ps price slip) clock c = do
    c' ← Admin.init_config rt ctx ps price slip c
    ok (c', silent)
  process (Call.set_pause ctx paused) clock c = do
    c' ← Admin.set_pause rt ctx paused c
    ok (c', silent)
  process (Call.set_params ctx price slip) clock c = do
    c' ← Admin.set_params rt ctx price slip c
    ok (c', silent)
  process (Call.set_whitelist ctx ps) clock c = do
    c' ← Admin.set_whitelist rt ctx ps c
    ok (c', silent)
  process (Call.init_fee_config ctx fee_bps destination) clock c = do
    c' ← Admin.init_fee_config rt ctx fee_bps destination c
    ok (c', silent)
  process (Call.set_fee ctx fee_bps destination) clock c = do
    c' ← Admin.set_fee rt ctx fee_bps destination c
    ok (c', silent)
  process (Call.open_sell_plan ctx end_ts period_secs) clock c = do
    c' ← Plan.open_sell_plan rt ctx clock end_ts period_secs c
    ok (c', silent)
  process (Call.close_sell_plan ctx) clock c = do
    c' ← Plan.close_sell_plan rt ctx c
    ok (c', silent)
  process (Call.execute_buy ctx remaining min_out swap_data) clock c = do
    (c', e) ← Buy.execute_buy rt ctx remaining min_out swap_data c
    ok (c', buy_executed e)
  process (Call.execute_sell ctx remaining min_out swap_data) clock c = do
    (c', e) ← Sell.execute_sell rt ctx remaining clock min_out swap_data c
    ok (c', sell_executed e)

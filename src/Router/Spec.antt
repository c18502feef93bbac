-- ===== src/Router/Spec.antt =====
-- programs/recurring-buy/src/lib.rs, the ten instructions as a step relation: for each, the
-- conditions on the accounts and arguments, and the one change that it makes. It names no handler.
pub mod Admin
pub mod Plan
pub mod Refinement
use solana_recurring_buy.Prelude.{
  ℕ, ◌≤◌, ◌≡◌, ◌≢◌, Bool, true, false, none, some, List, [], ◌∷◌, ◌++◌, length, take, replicate,
}
use solana_recurring_buy.Prelude.Int.{ℤ, ◌≤ℤ◌, ◌<ℤ◌}
use solana_recurring_buy.Errors.{Result, ok}
use solana_recurring_buy.Word.{saturating_add_i64}
use solana_recurring_buy.State.{
  Pubkey, Config, FeeConfig, SellPlan, default_pubkey, max_swap_programs, max_fee_bps,
  min_period_secs, max_period_secs,
}
use solana_recurring_buy.Chain.{
  AccountInfo, Mint, ProgramAccount, Chain, Runtime, bytes, store, remove,
}
use solana_recurring_buy.Chain.Constraints.{config_seeds, fee_config_seeds, sell_plan_seeds}
use solana_recurring_buy.Admin.{InitConfig, AdminOnly, InitFeeConfig, SetFee}
use solana_recurring_buy.Admin.Effects.{AdminSigned}
use solana_recurring_buy.Plan.{OpenSellPlan, CloseSellPlan}
use solana_recurring_buy.Buy.{ExecuteBuy, BuyExecuted}
use solana_recurring_buy.Buy.Refinement.{Bought}
use solana_recurring_buy.Buy.Contract.{BuyContract}
use solana_recurring_buy.Sell.{ExecuteSell, SellExecuted}
use solana_recurring_buy.Sell.Refinement.{Sold}
use solana_recurring_buy.Sell.Contract.{SellContract}
use solana_recurring_buy.Router.{Call, Event, silent, buy_executed, sell_executed}

-- A list of venues in the slots of the array, the free ones with the default key.
abbrev pub padded : List Pubkey → List Pubkey
padded ps = take max_swap_programs (ps ++ replicate max_swap_programs default_pubkey)

abbrev pub with_venues : List Pubkey → Config → Config
with_venues ps cfg = record cfg { swap_programs = padded ps; swap_program_count = length ps }

pub record ConfigCreated (rt : Runtime) (ctx : InitConfig) (ps : List Pubkey) (price slip : ℕ)
    (c c' : Chain) : Type 0 where
  pub bump : ℕ
  pub target : Mint
  pub quote : Mint
  pub signed : ctx.admin.is_signer ≡ true
  pub pays : ctx.admin.is_writable ≡ true
  pub program : ctx.system_program.key ≡ rt.system_program_id
  pub address : rt.find_program_address config_seeds ≡ (ctx.config.key, bump)
  pub writable : ctx.config.is_writable ≡ true
  pub vacant : c.accounts ctx.config.key ≡ none
  pub target_at : c.mints ctx.target_mint.key ≡ some target
  pub quote_at : c.mints ctx.usdc_mint.key ≡ some quote
  pub scale : target.decimals ≤ 12
  pub quote_scale : quote.decimals ≡ 6
  pub few : length ps ≤ max_swap_programs
  pub band : slip ≤ 10_000
  pub written :
      c'
      ≡ store ctx.config.key
          (ProgramAccount.config (record {
            admin = ctx.admin.key;
            target_mint = ctx.target_mint.key;
            usdc_mint = ctx.usdc_mint.key;
            swap_programs = padded ps;
            swap_program_count = length ps;
            price_ref_micros = price;
            target_decimals = target.decimals;
            max_slippage_bps = slip;
            paused = false;
            bump = bump;
          }))
          c

-- The admin of the configuration changes it.
pub record ConfigChanged (rt : Runtime) (ctx : AdminOnly) (change : Config → Config) (c c' : Chain)
    : Type 0 where
  pub cfg : Config
  pub access : AdminSigned rt ctx.admin ctx.config c cfg
  pub writable : ctx.config.is_writable ≡ true
  pub written : c' ≡ store ctx.config.key (ProgramAccount.config (change cfg)) c

pub record FeeCreated (rt : Runtime) (ctx : InitFeeConfig) (fee_bps : ℕ) (destination : Pubkey)
    (c c' : Chain) : Type 0 where
  pub cfg : Config
  pub bump : ℕ
  pub access : AdminSigned rt ctx.admin ctx.config c cfg
  pub pays : ctx.admin.is_writable ≡ true
  pub program : ctx.system_program.key ≡ rt.system_program_id
  pub address : rt.find_program_address fee_config_seeds ≡ (ctx.fee_config.key, bump)
  pub writable : ctx.fee_config.is_writable ≡ true
  pub vacant : c.accounts ctx.fee_config.key ≡ none
  pub capped : fee_bps ≤ max_fee_bps
  pub written :
      c'
      ≡ store ctx.fee_config.key
          (ProgramAccount.fee_config
            (record { fee_bps = fee_bps; destination = destination; bump = bump }))
          c

pub record FeeChanged (rt : Runtime) (ctx : SetFee) (fee_bps : ℕ) (destination : Pubkey)
    (c c' : Chain) : Type 0 where
  pub cfg : Config
  pub fc : FeeConfig
  pub access : AdminSigned rt ctx.admin ctx.config c cfg
  pub fee_at : c.accounts ctx.fee_config.key ≡ some (ProgramAccount.fee_config fc)
  pub fee_pda :
      rt.create_program_address (fee_config_seeds ++ bytes (fc.bump ∷ []) ∷ [])
      ≡ some ctx.fee_config.key
  pub writable : ctx.fee_config.is_writable ≡ true
  pub capped : fee_bps ≤ max_fee_bps
  pub written :
      c'
      ≡ store ctx.fee_config.key
          (ProgramAccount.fee_config
            (record { fee_bps = fee_bps; destination = destination; bump = fc.bump }))
          c

pub record PlanOpened (rt : Runtime) (ctx : OpenSellPlan) (clock : Result ℤ)
    (end_ts period_secs : ℤ) (c c' : Chain) : Type 0 where
  pub now : ℤ
  pub bump : ℕ
  pub read : clock ≡ ok now
  pub signed : ctx.user.is_signer ≡ true
  pub pays : ctx.user.is_writable ≡ true
  pub program : ctx.system_program.key ≡ rt.system_program_id
  pub address : rt.find_program_address (sell_plan_seeds ctx.user.key) ≡ (ctx.sell_plan.key, bump)
  pub writable : ctx.sell_plan.is_writable ≡ true
  pub vacant : c.accounts ctx.sell_plan.key ≡ none
  pub period_min : min_period_secs ≤ℤ period_secs
  pub period_max : period_secs ≤ℤ max_period_secs
  pub horizon : saturating_add_i64 now period_secs <ℤ end_ts
  pub written :
      c'
      ≡ store ctx.sell_plan.key
          (ProgramAccount.sell_plan (record {
            user = ctx.user.key;
            end_ts = end_ts;
            period_secs = period_secs;
            next_due_ts = now;
            bump = bump;
          }))
          c

pub record PlanClosed (rt : Runtime) (ctx : CloseSellPlan) (c c' : Chain) : Type 0 where
  pub plan : SellPlan
  pub plan_at : c.accounts ctx.sell_plan.key ≡ some (ProgramAccount.sell_plan plan)
  pub signed : ctx.user.is_signer ≡ true
  pub paid : ctx.user.is_writable ≡ true
  pub writable : ctx.sell_plan.is_writable ≡ true
  pub plan_pda :
      rt.create_program_address (sell_plan_seeds ctx.user.key ++ bytes (plan.bump ∷ []) ∷ [])
      ≡ some ctx.sell_plan.key
  pub owner : plan.user ≡ ctx.user.key
  pub apart : ctx.sell_plan.key ≢ ctx.user.key
  pub written : c' ≡ remove ctx.sell_plan.key c

-- What each instruction may do, given what a buy and a sell may do.
pub data TransitionOf (rt : Runtime) (clock : Result ℤ) (c c' : Chain)
    (Buys : ExecuteBuy → List AccountInfo → ℕ → List ℕ → BuyExecuted → Type 0)
    (Sells : ExecuteSell → List AccountInfo → ℕ → List ℕ → SellExecuted → Type 0)
    : Call → Event → Type 0 where
  creates_config :
      {ctx : InitConfig} {ps : List Pubkey} {price slip : ℕ}
      → ConfigCreated rt ctx ps price slip c c'
      → TransitionOf rt clock c c' Buys Sells (Call.init_config ctx ps price slip) silent
  pauses :
      {ctx : AdminOnly} {paused : Bool}
      → ConfigChanged rt ctx (λ cfg. record cfg { paused = paused }) c c'
      → TransitionOf rt clock c c' Buys Sells (Call.set_pause ctx paused) silent
  reprices :
      {ctx : AdminOnly} {price slip : ℕ}
      → slip ≤ 10_000
      → ConfigChanged rt ctx
          (λ cfg. record cfg { price_ref_micros = price; max_slippage_bps = slip })
          c
          c'
      → TransitionOf rt clock c c' Buys Sells (Call.set_params ctx price slip) silent
  relists :
      {ctx : AdminOnly} {ps : List Pubkey}
      → length ps ≤ max_swap_programs
      → ConfigChanged rt ctx (with_venues ps) c c'
      → TransitionOf rt clock c c' Buys Sells (Call.set_whitelist ctx ps) silent
  creates_fee :
      {ctx : InitFeeConfig} {fee_bps : ℕ} {destination : Pubkey}
      → FeeCreated rt ctx fee_bps destination c c'
      → TransitionOf rt clock c c' Buys Sells (Call.init_fee_config ctx fee_bps destination) silent
  changes_fee :
      {ctx : SetFee} {fee_bps : ℕ} {destination : Pubkey}
      → FeeChanged rt ctx fee_bps destination c c'
      → TransitionOf rt clock c c' Buys Sells (Call.set_fee ctx fee_bps destination) silent
  opens :
      {ctx : OpenSellPlan} {end_ts period_secs : ℤ}
      → PlanOpened rt ctx clock end_ts period_secs c c'
      → TransitionOf rt clock c c' Buys Sells (Call.open_sell_plan ctx end_ts period_secs) silent
  closes :
      {ctx : CloseSellPlan}
      → PlanClosed rt ctx c c'
      → TransitionOf rt clock c c' Buys Sells (Call.close_sell_plan ctx) silent
  buys :
      {ctx : ExecuteBuy} {remaining : List AccountInfo} {min_out : ℕ} {swap_data : List ℕ}
      {event : BuyExecuted}
      → Buys ctx remaining min_out swap_data event
      → TransitionOf rt clock c c' Buys Sells
          (Call.execute_buy ctx remaining min_out swap_data)
          (buy_executed event)
  sells :
      {ctx : ExecuteSell} {remaining : List AccountInfo} {min_out : ℕ} {swap_data : List ℕ}
      {event : SellExecuted}
      → Sells ctx remaining min_out swap_data event
      → TransitionOf rt clock c c' Buys Sells
          (Call.execute_sell ctx remaining min_out swap_data)
          (sell_executed event)

-- The step relation: a buy and a sell meet their contracts.
abbrev pub Transition : Runtime → Result ℤ → Chain → Chain → Call → Event → Type 0
Transition rt clock c c' =
    TransitionOf rt clock c c'
      (λ ctx remaining min_out swap_data event.
        BuyContract rt ctx remaining min_out swap_data c c' event)
      (λ ctx remaining min_out swap_data event.
        SellContract rt ctx remaining clock min_out swap_data c c' event)

-- The same with the steps that a buy and a sell went through.
abbrev pub Trace : Runtime → Result ℤ → Chain → Chain → Call → Event → Type 0
Trace rt clock c c' =
    TransitionOf rt clock c c'
      (λ ctx remaining min_out swap_data event.
        Bought rt ctx remaining min_out swap_data c c' event)
      (λ ctx remaining min_out swap_data event.
        Sold rt ctx remaining clock min_out swap_data c c' event)

-- ===== src/Router/Authority.antt =====
-- programs/recurring-buy/src/lib.rs, the tokens and the configuration under each instruction: who
-- can change them.
use solana_recurring_buy.Prelude.{◌≡◌, ap, arith, Bool, true, false, Option, some, ◌⊎◌}
use solana_recurring_buy.Prelude.Int.{ℤ}
use solana_recurring_buy.Errors.{Result, ok}
use solana_recurring_buy.State.{Pubkey, Config}
use solana_recurring_buy.Chain.{AccountInfo, ProgramAccount, Chain, Runtime}
use solana_recurring_buy.Admin.Effects.{
  set_pause_writes, set_params_writes, set_whitelist_writes, init_config_writes,
  init_fee_config_writes, set_fee_writes, config_of,
}
use solana_recurring_buy.Admin.Venues.{set_swap_programs-Listed}
use solana_recurring_buy.Plan.Effects.{open_sell_plan_writes, close_sell_plan_writes}
use solana_recurring_buy.Buy.Refinement.{execute_buy-Bought}
use solana_recurring_buy.Sell.Refinement.{execute_sell-Sold}
use solana_recurring_buy.Router.{Call, Event, process}
use solana_recurring_buy.Router.Results.{silenced, bought, sold}

-- The account that a call's struct declares as its signer.
abbrev pub signer_of : Call → AccountInfo
signer_of (Call.init_config ctx ps price slip) = ctx.admin
signer_of (Call.set_pause ctx paused) = ctx.admin
signer_of (Call.set_params ctx price slip) = ctx.admin
signer_of (Call.set_whitelist ctx ps) = ctx.admin
signer_of (Call.init_fee_config ctx fee_bps destination) = ctx.admin
signer_of (Call.set_fee ctx fee_bps destination) = ctx.admin
signer_of (Call.open_sell_plan ctx end_ts period_secs) = ctx.user
signer_of (Call.close_sell_plan ctx) = ctx.user
signer_of (Call.execute_buy ctx remaining min_out swap_data) = ctx.keeper
signer_of (Call.execute_sell ctx remaining min_out swap_data) = ctx.keeper

abbrev pub SignedAs : Call → Pubkey → Type 0
SignedAs x k = ((signer_of x).is_signer ≡ true) × (k ≡ (signer_of x).key)

abbrev pub is_execute : Call → Bool
is_execute (Call.execute_buy ctx remaining min_out swap_data) = true
is_execute (Call.execute_sell ctx remaining min_out swap_data) = true
is_execute _ = false

-- What no call changes of a configuration.
pub record SameIdentity (a b : Config) : Type 0 where
  pub admin : b.admin ≡ a.admin
  pub target_mint : b.target_mint ≡ a.target_mint
  pub usdc_mint : b.usdc_mint ≡ a.usdc_mint
  pub target_decimals : b.target_decimals ≡ a.target_decimals
  pub bump : b.bump ≡ a.bump

abbrev pub ConfigFate : Call → Config → Option ProgramAccount → Type 0
ConfigFate x cfg after =
    (after ≡ some (ProgramAccount.config (config_of after)))
    × SameIdentity cfg (config_of after)
    × ((config_of after ≡ cfg) ⊎ SignedAs x cfg.admin)

module _ (rt : Runtime) (c c' : Chain) (e : Event) (clock : Result ℤ) where
  -- No successful call but `execute_buy` and `execute_sell` changes a token account.
  process_tokens_kept :
      (x : Call) → is_execute x ≡ false → process rt x clock c ≡ ok (c', e) → c'.tokens ≡ c.tokens
  unfolding process
  process_tokens_kept (Call.init_config ctx ps price slip) n h =
      ap (λ (d : Chain). d.tokens) (init_config_writes rt c ctx ps price slip (silenced _ h)).9
  process_tokens_kept (Call.set_pause ctx paused) n h =
      ap (λ (d : Chain). d.tokens) (set_pause_writes rt c ctx paused (silenced _ h)).2
  process_tokens_kept (Call.set_params ctx price slip) n h =
      ap (λ (d : Chain). d.tokens) (set_params_writes rt c ctx price slip (silenced _ h)).3
  process_tokens_kept (Call.set_whitelist ctx ps) n h =
      ap (λ (d : Chain). d.tokens) (set_whitelist_writes rt c ctx ps (silenced _ h)).5
  process_tokens_kept (Call.init_fee_config ctx fee_bps destination) n h =
      ap (λ (d : Chain). d.tokens)
        (init_fee_config_writes rt c ctx fee_bps destination (silenced _ h)).4
  process_tokens_kept (Call.set_fee ctx fee_bps destination) n h =
      ap (λ (d : Chain). d.tokens) (set_fee_writes rt c ctx fee_bps destination (silenced _ h)).3
  process_tokens_kept (Call.open_sell_plan ctx end_ts period_secs) n h =
      ap (λ (d : Chain). d.tokens)
        (open_sell_plan_writes rt c ctx clock end_ts period_secs (silenced _ h)).8
  process_tokens_kept (Call.close_sell_plan ctx) n h =
      ap (λ (d : Chain). d.tokens) (close_sell_plan_writes rt c ctx (silenced _ h)).4
  process_tokens_kept (Call.execute_buy ctx remaining min_out swap_data) n h = cc
  process_tokens_kept (Call.execute_sell ctx remaining min_out swap_data) n h = cc

  module _ (k : Pubkey) (cfg : Config) (at : c.accounts k ≡ some (ProgramAccount.config cfg)) where
    -- After any successful call, a configuration that was there is still there; its admin, mints,
    -- decimals and bump are the same, and if anything else of it has changed then its admin signed
    -- the call.
    pub process-ConfigFate :
        (x : Call) → process rt x clock c ≡ ok (c', e) → ConfigFate x cfg (c'.accounts k)
    unfolding process
    process-ConfigFate (Call.init_config ctx ps price slip) h =
        let w = init_config_writes rt c ctx ps price slip (silenced _ h) in ground (arith, w.8, w.9)
    process-ConfigFate (Call.set_pause ctx paused) h =
        let w = set_pause_writes rt c ctx paused (silenced _ h) in ground (arith, w.1, w.2)
    process-ConfigFate (Call.set_params ctx price slip) h =
        let w = set_params_writes rt c ctx price slip (silenced _ h) in ground (arith, w.1, w.3)
    process-ConfigFate (Call.set_whitelist ctx ps) h =
        let w = set_whitelist_writes rt c ctx ps (silenced _ h) in
        let l = set_swap_programs-Listed ps w.0 w.1 w.3 w.4 in ground (arith, w.2, w.5, l.rest)
    process-ConfigFate (Call.init_fee_config ctx fee_bps destination) h =
        let w = init_fee_config_writes rt c ctx fee_bps destination (silenced _ h) in
        ground (arith, w.3, w.4)
    process-ConfigFate (Call.set_fee ctx fee_bps destination) h =
        let w = set_fee_writes rt c ctx fee_bps destination (silenced _ h) in
        ground (arith, w.2, w.3)
    process-ConfigFate (Call.open_sell_plan ctx end_ts period_secs) h =
        let w = open_sell_plan_writes rt c ctx clock end_ts period_secs (silenced _ h) in
        ground (arith, w.7, w.8)
    process-ConfigFate (Call.close_sell_plan ctx) h =
        let w = close_sell_plan_writes rt c ctx (silenced _ h) in ground (arith, w.2, w.4)
    process-ConfigFate (Call.execute_buy ctx remaining min_out swap_data) h =
        let b = execute_buy-Bought rt ctx remaining min_out swap_data c c' _ (bought _ h) in
        ground (arith, b.accounts_kept)
    process-ConfigFate (Call.execute_sell ctx remaining min_out swap_data) h =
        let s = execute_sell-Sold rt ctx remaining clock min_out swap_data c c' _ (sold _ h) in
        ground (arith, s.accounts_set, s.validated.sell_plan_at)

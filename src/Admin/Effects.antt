-- ===== src/Admin/Effects.antt =====
-- What each admin handler has checked and written when it succeeds.
use solana_recurring_buy.Prelude.{
  ℕ, ◌≤◌, ◌≡◌, sym, arith, Bool, true, false, Option, none, some, List, [], ◌∷◌, ◌++◌, leb, length,
}
use solana_recurring_buy.Errors.{Result, ok, err, >>=-eq-ok, require-eq-ok, ok-injective}
use solana_recurring_buy.State.{Pubkey, Config, FeeConfig, max_swap_programs, max_fee_bps}
use solana_recurring_buy.Chain.{AccountInfo, Mint, ProgramAccount, Chain, Runtime, store, bytes}
use solana_recurring_buy.Chain.Constraints.{config_seeds, fee_config_seeds}
use solana_recurring_buy.Admin.{
  InitConfig, AdminOnly, InitFeeConfig, SetFee, zeroed_config, admin_only, set_swap_programs,
  init_config, set_pause, set_params, set_whitelist, init_fee_config, set_fee,
}

-- The admin that the config at its address records has signed.
pub record AdminSigned (rt : Runtime) (admin config : AccountInfo) (chain : Chain) (cfg : Config)
    : Type 0 where
  pub signed : admin.is_signer ≡ true
  pub is_admin : cfg.admin ≡ admin.key
  pub config_at : chain.accounts config.key ≡ some (ProgramAccount.config cfg)
  pub config_pda :
      rt.create_program_address (config_seeds ++ bytes (cfg.bump ∷ []) ∷ []) ≡ some config.key

abbrev pub config_of : Option ProgramAccount → Config
config_of (some (ProgramAccount.config c)) = c
config_of _ = zeroed_config

abbrev pub fee_config_of : Option ProgramAccount → FeeConfig
fee_config_of (some (ProgramAccount.fee_config c)) = c
fee_config_of _ = record { fee_bps = 0; destination = 0; bump = 0 }

abbrev pub decimals_of : Option Mint → ℕ
decimals_of (some m) = m.decimals
decimals_of none = 0

abbrev pub config_value : Result Config → Config
config_value (ok c) = c
config_value (err e) = zeroed_config

-- The configuration before its parameters are written.
abbrev pub initial_config : InitConfig → Config
initial_config ctx = record zeroed_config {
  admin = ctx.admin.key;
  target_mint = ctx.target_mint.key;
  usdc_mint = ctx.usdc_mint.key;
}

module _ (rt : Runtime) (chain : Chain) where
  admin_only-AdminSigned :
      (ctx : AdminOnly) {cfg : Config}
      → admin_only rt ctx chain ≡ ok cfg
      → AdminSigned rt ctx.admin ctx.config chain cfg
  unfolding admin_only
  admin_only-AdminSigned ctx h = ground arith

  pub set_pause_writes :
      (ctx : AdminOnly) (paused : Bool) {chain' : Chain}
      → set_pause rt ctx paused chain ≡ ok chain'
      → (cfg : Config) × AdminSigned rt ctx.admin ctx.config chain cfg
        × (chain'
            ≡ store ctx.config.key (ProgramAccount.config (record cfg { paused = paused })) chain)
  unfolding set_pause
  set_pause_writes ctx paused h =
      let (cfg, e, r) = >>=-eq-ok (admin_only rt ctx chain) _ h in
      (cfg, admin_only-AdminSigned ctx e, sym (ok-injective r))

  pub set_params_writes :
      (ctx : AdminOnly) (price slip : ℕ) {chain' : Chain}
      → set_params rt ctx price slip chain ≡ ok chain'
      → (cfg : Config) × AdminSigned rt ctx.admin ctx.config chain cfg
        × (slip ≤ 10_000)
        × (chain'
            ≡ store ctx.config.key
                (ProgramAccount.config
                  (record cfg { price_ref_micros = price; max_slippage_bps = slip }))
                chain)
  unfolding set_params
  set_params_writes ctx price slip h =
      let (cfg, e, r) = >>=-eq-ok (admin_only rt ctx chain) _ h in
      let (le, r') = require-eq-ok (leb slip 10_000) _ _ r in
      (cfg, admin_only-AdminSigned ctx e, ground arith, sym (ok-injective r'))

  pub set_whitelist_writes :
      (ctx : AdminOnly) (ps : List Pubkey) {chain' : Chain}
      → set_whitelist rt ctx ps chain ≡ ok chain'
      → (cfg : Config) × (cfg' : Config) × AdminSigned rt ctx.admin ctx.config chain cfg
        × (length ps ≤ max_swap_programs)
        × (set_swap_programs ps cfg ≡ ok cfg')
        × (chain' ≡ store ctx.config.key (ProgramAccount.config cfg') chain)
  unfolding set_whitelist
  set_whitelist_writes ctx ps h =
      let (cfg, e, r) = >>=-eq-ok (admin_only rt ctx chain) _ h in
      let (le, r') = require-eq-ok (leb (length ps) max_swap_programs) _ _ r in
      let (cfg', e', r'') = >>=-eq-ok (set_swap_programs ps cfg) _ r' in
      (cfg, cfg', admin_only-AdminSigned ctx e, ground arith, e', sym (ok-injective r''))

  pub init_fee_config_writes :
      (ctx : InitFeeConfig) (fee_bps : ℕ) (destination : Pubkey) {chain' : Chain}
      → init_fee_config rt ctx fee_bps destination chain ≡ ok chain'
      → AdminSigned rt ctx.admin ctx.config chain (config_of (chain.accounts ctx.config.key))
        × (fee_bps ≤ max_fee_bps)
        × (rt.find_program_address fee_config_seeds).0 ≡ ctx.fee_config.key
        × (chain.accounts ctx.fee_config.key ≡ none)
        × (chain'
            ≡ store ctx.fee_config.key
                (ProgramAccount.fee_config (record {
                  fee_bps = fee_bps;
                  destination = destination;
                  bump = (rt.find_program_address fee_config_seeds).1;
                }))
                chain)
  unfolding init_fee_config
  init_fee_config_writes ctx fee_bps destination h = ground arith

  pub set_fee_writes :
      (ctx : SetFee) (fee_bps : ℕ) (destination : Pubkey) {chain' : Chain}
      → set_fee rt ctx fee_bps destination chain ≡ ok chain'
      → AdminSigned rt ctx.admin ctx.config chain (config_of (chain.accounts ctx.config.key))
        × (fee_bps ≤ max_fee_bps)
        × (chain.accounts ctx.fee_config.key
            ≡ some (ProgramAccount.fee_config (fee_config_of (chain.accounts ctx.fee_config.key))))
        × (chain'
            ≡ store ctx.fee_config.key
                (ProgramAccount.fee_config
                  (record (fee_config_of (chain.accounts ctx.fee_config.key)) {
                    fee_bps = fee_bps;
                    destination = destination;
                  }))
                chain)
  unfolding set_fee
  set_fee_writes ctx fee_bps destination h = ground arith

  pub init_config_writes :
      (ctx : InitConfig) (ps : List Pubkey) (price slip : ℕ) {chain' : Chain}
      → init_config rt ctx ps price slip chain ≡ ok chain'
      → (cfg : Config) × (set_swap_programs ps (initial_config ctx) ≡ ok cfg)
        × (ctx.admin.is_signer ≡ true)
        × (length ps ≤ max_swap_programs)
        × (slip ≤ 10_000)
        × (decimals_of (chain.mints ctx.target_mint.key) ≤ 12)
        × (decimals_of (chain.mints ctx.usdc_mint.key) ≡ 6)
        × ((rt.find_program_address config_seeds).0 ≡ ctx.config.key)
        × (chain.accounts ctx.config.key ≡ none)
        × (chain'
            ≡ store ctx.config.key
                (ProgramAccount.config (record cfg {
                  price_ref_micros = price;
                  target_decimals = decimals_of (chain.mints ctx.target_mint.key);
                  max_slippage_bps = slip;
                  paused = false;
                  bump = (rt.find_program_address config_seeds).1;
                }))
                chain)
  unfolding init_config
  init_config_writes ctx ps price slip h = (
    config_value (set_swap_programs ps (initial_config ctx)),
    ground arith,
    ground arith,
    ground arith,
    ground arith,
    ground arith,
    ground arith,
    ground arith,
    ground arith,
    ground arith,
  )

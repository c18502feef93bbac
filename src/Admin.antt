-- ===== src/Admin.antt =====
-- programs/recurring-buy/src/lib.rs: the handlers that only the admin can call, with their
-- `Accounts` structs. An account struct is what the caller passes; each handler first validates it
-- as Anchor does, fields in order and then constraints.
pub mod Venues
pub mod Effects
use solana_recurring_buy.Prelude.{
  ℕ, ◌+◌, Bool, false, List, [], ◌∷◌, ltb, leb, ◌==◌, if◌then◌else◌, length, set, replicate,
}
use solana_recurring_buy.Errors.{
  Result, ok, err, panicked, ◌>>=◌, ◌>>◌, require, too_many_venues, bad_param, fee_too_high,
}
use solana_recurring_buy.Word.{as_u8}
use solana_recurring_buy.State.{Pubkey, default_pubkey, max_swap_programs, max_fee_bps, Config}
use solana_recurring_buy.Chain.{AccountInfo, ProgramAccount, Chain, Runtime, store}
use solana_recurring_buy.Chain.Constraints.{
  check_signer, check_mut, check_has_one, check_program, as_config, as_fee_config, load_mint,
  config_seeds, fee_config_seeds, check_seeds, check_init,
}

pub record InitConfig : Type 0 where
  pub admin : AccountInfo
  pub config : AccountInfo
  pub target_mint : AccountInfo
  pub usdc_mint : AccountInfo
  pub system_program : AccountInfo

pub record AdminOnly : Type 0 where
  pub admin : AccountInfo
  pub config : AccountInfo

pub record InitFeeConfig : Type 0 where
  pub admin : AccountInfo
  pub config : AccountInfo
  pub fee_config : AccountInfo
  pub system_program : AccountInfo

pub record SetFee : Type 0 where
  pub admin : AccountInfo
  pub config : AccountInfo
  pub fee_config : AccountInfo

-- `for (i, p) in swap_programs.iter().enumerate() { cfg.swap_programs[i] = *p; }` from index `i`
-- on; a write past the array's end panics.
unfoldable pub fill_from : ℕ → List Pubkey → List Pubkey → Result (List Pubkey)
fill_from i [] slots = ok slots
fill_from i (p ∷ ps) slots =
    let rest = fill_from (i + 1) ps (set slots i p) in
    if ltb i (length slots) then rest else err panicked

-- The array and its count for a list of venues.
unfoldable pub set_swap_programs : List Pubkey → Config → Result Config
unfolding fill_from
set_swap_programs swap_programs cfg = do
  slots ← fill_from 0 swap_programs (replicate max_swap_programs default_pubkey)
  ok (record cfg { swap_programs = slots; swap_program_count = as_u8 (length swap_programs) })

-- `init` yields an account of zero bytes.
abbrev pub zeroed_config : Config
zeroed_config = record {
  admin = default_pubkey;
  target_mint = default_pubkey;
  usdc_mint = default_pubkey;
  swap_programs = replicate max_swap_programs default_pubkey;
  swap_program_count = 0;
  price_ref_micros = 0;
  target_decimals = 0;
  max_slippage_bps = 0;
  paused = false;
  bump = 0;
}

module _ (rt : Runtime) where
  unfoldable pub init_config : InitConfig → List Pubkey → ℕ → ℕ → Chain → Result Chain
  init_config ctx swap_programs price_ref_micros max_slippage_bps chain = do
    check_signer ctx.admin
    target_mint ← load_mint chain ctx.target_mint
    usdc_mint ← load_mint chain ctx.usdc_mint
    check_program rt.system_program_id ctx.system_program
    bump ← check_init rt config_seeds ctx.config chain
    check_mut ctx.admin
    require (leb (length swap_programs) max_swap_programs) too_many_venues
    require (leb max_slippage_bps 10_000) bad_param
    require (leb target_mint.decimals 12) bad_param
    require (usdc_mint.decimals == 6) bad_param
    cfg ← set_swap_programs swap_programs (record zeroed_config {
      admin = ctx.admin.key;
      target_mint = ctx.target_mint.key;
      usdc_mint = ctx.usdc_mint.key;
    })
    ok (
        store ctx.config.key
          (ProgramAccount.config (record cfg {
            price_ref_micros = price_ref_micros;
            target_decimals = target_mint.decimals;
            max_slippage_bps = max_slippage_bps;
            paused = false;
            bump = bump;
          }))
          chain)

  -- `AdminOnly`: the config at its address, signed for by the admin that it records.
  unfoldable pub admin_only : AdminOnly → Chain → Result Config
  admin_only ctx chain = do
    check_signer ctx.admin
    cfg ← as_config (chain.accounts ctx.config.key)
    check_seeds rt config_seeds cfg.bump ctx.config
    check_mut ctx.config
    check_has_one cfg.admin ctx.admin.key
    ok cfg

  unfoldable pub set_pause : AdminOnly → Bool → Chain → Result Chain
  unfolding admin_only
  set_pause ctx paused chain = do
    cfg ← admin_only ctx chain
    ok (store ctx.config.key (ProgramAccount.config (record cfg { paused = paused })) chain)

  unfoldable pub set_params : AdminOnly → ℕ → ℕ → Chain → Result Chain
  unfolding admin_only
  set_params ctx price_ref_micros max_slippage_bps chain = do
    cfg ← admin_only ctx chain
    require (leb max_slippage_bps 10_000) bad_param
    ok (
        store ctx.config.key
          (ProgramAccount.config (record cfg {
            price_ref_micros = price_ref_micros;
            max_slippage_bps = max_slippage_bps;
          }))
          chain)

  unfoldable pub set_whitelist : AdminOnly → List Pubkey → Chain → Result Chain
  unfolding admin_only
  set_whitelist ctx swap_programs chain = do
    cfg ← admin_only ctx chain
    require (leb (length swap_programs) max_swap_programs) too_many_venues
    cfg' ← set_swap_programs swap_programs cfg
    ok (store ctx.config.key (ProgramAccount.config cfg') chain)

  unfoldable pub init_fee_config : InitFeeConfig → ℕ → Pubkey → Chain → Result Chain
  init_fee_config ctx fee_bps destination chain = do
    check_signer ctx.admin
    cfg ← as_config (chain.accounts ctx.config.key)
    check_program rt.system_program_id ctx.system_program
    bump ← check_init rt fee_config_seeds ctx.fee_config chain
    check_mut ctx.admin
    check_seeds rt config_seeds cfg.bump ctx.config
    check_has_one cfg.admin ctx.admin.key
    require (leb fee_bps max_fee_bps) fee_too_high
    ok (
        store ctx.fee_config.key
          (ProgramAccount.fee_config
            (record { fee_bps = fee_bps; destination = destination; bump = bump }))
          chain)

  unfoldable pub set_fee : SetFee → ℕ → Pubkey → Chain → Result Chain
  set_fee ctx fee_bps destination chain = do
    check_signer ctx.admin
    cfg ← as_config (chain.accounts ctx.config.key)
    fc ← as_fee_config (chain.accounts ctx.fee_config.key)
    check_seeds rt config_seeds cfg.bump ctx.config
    check_has_one cfg.admin ctx.admin.key
    check_seeds rt fee_config_seeds fc.bump ctx.fee_config
    check_mut ctx.fee_config
    require (leb fee_bps max_fee_bps) fee_too_high
    ok (
        store ctx.fee_config.key
          (ProgramAccount.fee_config (record fc { fee_bps = fee_bps; destination = destination }))
          chain)

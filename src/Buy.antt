-- ===== src/Buy.antt =====
-- programs/recurring-buy/src/lib.rs: `execute_buy` and its accounts.
pub mod Guards
pub mod Refinement
pub mod Validated
pub mod Delivery
pub mod Safety
pub mod Refusals
pub mod Terms
pub mod Contract
use solana_recurring_buy.Prelude.{ℕ, not, List, ltb, leb, ◌==◌}
use solana_recurring_buy.Errors.{
  Result, ok, ◌>>=◌, ◌>>◌, require, paused, wrong_target_mint, destination_not_owner, bad_transient,
  nothing_pulled, venue_not_whitelisted, bad_fee_account, floor_not_configured, min_out_too_low,
}
use solana_recurring_buy.State.{Pubkey, Config, FeeConfig, is_whitelisted}
use solana_recurring_buy.Floor.{price_floor}
use solana_recurring_buy.Fee.{execution_fee, net_input}
use solana_recurring_buy.Chain.{AccountInfo, TokenAccount, Tokens, Chain, Runtime}
use solana_recurring_buy.Chain.Constraints.{
  check_signer, check_mut, check_program, as_config, as_fee_config, load_token, config_seeds,
  fee_config_seeds, buy_auth_seeds, check_seeds, find_seeds,
}
use solana_recurring_buy.Swap.{Route, swap_and_verify}

pub record ExecuteBuy : Type 0 where
  pub keeper : AccountInfo
  pub config : AccountInfo
  pub user : AccountInfo
  pub buy_authority : AccountInfo
  pub transient_usdc : AccountInfo
  pub dest_ata : AccountInfo
  pub swap_program : AccountInfo
  pub token_program : AccountInfo
  pub fee_config : AccountInfo
  pub fee_ata : AccountInfo

-- What the validated accounts hold on entry.
pub record BuyAccounts : Type 0 where
  pub config : Config
  pub transient_usdc : TokenAccount
  pub dest_ata : TokenAccount
  pub fee_config : FeeConfig
  pub bump : ℕ

pub record BuyExecuted : Type 0 where
  pub user : Pubkey
  pub amount_in : ℕ
  pub amount_out : ℕ
  pub fee : ℕ
  pub venue : Pubkey

-- The event, and the chain with the tokens as the venue left them.
abbrev pub conclude_buy :
    ExecuteBuy → BuyAccounts → ℕ → Chain → Tokens × ℕ → Result (Chain × BuyExecuted)
conclude_buy ctx acc fee chain (tokens, out) = ok (
  record chain { tokens = tokens },
  record {
    user = ctx.user.key;
    amount_in = acc.transient_usdc.amount;
    amount_out = out;
    fee = fee;
    venue = ctx.swap_program.key;
  },
)

module _ (rt : Runtime) where
  unfoldable pub validate_buy : ExecuteBuy → Chain → Result BuyAccounts
  validate_buy ctx chain = do
    check_signer ctx.keeper
    config ← as_config (chain.accounts ctx.config.key)
    transient_usdc ← load_token chain.tokens ctx.transient_usdc
    dest_ata ← load_token chain.tokens ctx.dest_ata
    check_program rt.token_program_id ctx.token_program
    fee_config ← as_fee_config (chain.accounts ctx.fee_config.key)
    fee_ata ← load_token chain.tokens ctx.fee_ata
    check_seeds rt config_seeds config.bump ctx.config
    bump ← find_seeds rt (buy_auth_seeds ctx.user.key) ctx.buy_authority
    check_mut ctx.transient_usdc
    check_mut ctx.dest_ata
    check_seeds rt fee_config_seeds fee_config.bump ctx.fee_config
    check_mut ctx.fee_ata
    ok (record {
      config = config;
      transient_usdc = transient_usdc;
      dest_ata = dest_ata;
      fee_config = fee_config;
      bump = bump;
    })

  -- The destination and the transient: canonical accounts that the user and the PDA own.
  unfoldable pub check_buy_bindings : ExecuteBuy → BuyAccounts → Result (Unit {0})
  check_buy_bindings ctx acc = do
    require (acc.dest_ata.mint == acc.config.target_mint) wrong_target_mint
    require
        (ctx.dest_ata.key == rt.get_associated_token_address ctx.user.key acc.config.target_mint)
        destination_not_owner
    require (acc.transient_usdc.mint == acc.config.usdc_mint) bad_transient
    require
        (ctx.transient_usdc.key
          == rt.get_associated_token_address ctx.buy_authority.key acc.config.usdc_mint)
        bad_transient

  -- The guards up to the venue call; the result is the fee and the net input.
  unfoldable pub check_buy : ExecuteBuy → BuyAccounts → ℕ → Result (ℕ × ℕ)
  unfolding check_buy_bindings
  check_buy ctx acc min_out = do
    require (not acc.config.paused) paused
    check_buy_bindings ctx acc
    let amount_in = acc.transient_usdc.amount
    require (ltb 0 amount_in) nothing_pulled
    listed ← is_whitelisted acc.config ctx.swap_program.key
    require listed venue_not_whitelisted
    fee ← execution_fee amount_in acc.fee_config.fee_bps
    net_in ← net_input amount_in fee
    require
        (ctx.fee_ata.key
          == rt.get_associated_token_address acc.fee_config.destination acc.config.usdc_mint)
        bad_fee_account
    require (ltb 0 acc.config.price_ref_micros) floor_not_configured
    floor ←
        price_floor net_in acc.config.price_ref_micros acc.config.target_decimals
          acc.config.max_slippage_bps
    require (leb floor min_out) min_out_too_low
    ok (fee, net_in)

  abbrev pub buy_route : ExecuteBuy → BuyAccounts → List AccountInfo → List ℕ → Route
  buy_route ctx acc remaining_accounts swap_data = record {
    user = ctx.user.key;
    buy_authority = ctx.buy_authority;
    bump = acc.bump;
    transient = ctx.transient_usdc;
    dest = ctx.dest_ata;
    fee_ata = ctx.fee_ata;
    swap_program = ctx.swap_program;
    remaining_accounts = remaining_accounts;
    swap_data = swap_data;
  }

  unfoldable pub execute_buy :
      ExecuteBuy → List AccountInfo → ℕ → List ℕ → Chain → Result (Chain × BuyExecuted)
  execute_buy ctx remaining_accounts min_out swap_data chain = do
    acc ← validate_buy ctx chain
    (fee, net_in) ← check_buy ctx acc min_out
    swapped ←
        swap_and_verify rt (buy_route ctx acc remaining_accounts swap_data) fee acc.dest_ata.amount
          min_out chain.tokens
    conclude_buy ctx acc fee chain swapped

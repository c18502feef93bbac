-- ===== src/Sell.antt =====
-- programs/recurring-buy/src/lib.rs: `execute_sell` and its accounts.
pub mod Guards
pub mod Validated
pub mod Refinement
pub mod Delivery
pub mod Safety
pub mod Refusals
pub mod Progress
pub mod Runway
pub mod Run
pub mod Terms
pub mod Contract
use solana_recurring_buy.Prelude.{ℕ, not, List, ltb, leb, ◌==◌}
use solana_recurring_buy.Prelude.Int.{ℤ, leb_ℤ}
use solana_recurring_buy.Errors.{
  Result, ok, ◌>>=◌, ◌>>◌, require, paused, plan_completed, not_due, destination_not_owner,
  bad_transient, bad_pot_account, nothing_pulled, venue_not_whitelisted, bad_fee_account,
  floor_not_configured, min_out_too_low,
}
use solana_recurring_buy.State.{Pubkey, Config, FeeConfig, SellPlan, is_whitelisted}
use solana_recurring_buy.Floor.{sell_floor}
use solana_recurring_buy.Fee.{execution_fee, net_input}
use solana_recurring_buy.Schedule.{check_cap, advance}
use solana_recurring_buy.Chain.{
  AccountInfo, TokenAccount, Tokens, ProgramAccount, Chain, Runtime, store,
}
use solana_recurring_buy.Chain.Constraints.{
  check_signer, check_mut, check_has_one, check_program, as_config, as_fee_config, as_sell_plan,
  load_token, config_seeds, fee_config_seeds, sell_plan_seeds, buy_auth_seeds, check_seeds,
  find_seeds,
}
use solana_recurring_buy.Swap.{Route, swap_and_verify}

pub record ExecuteSell : Type 0 where
  pub keeper : AccountInfo
  pub config : AccountInfo
  pub user : AccountInfo
  pub sell_plan : AccountInfo
  pub buy_authority : AccountInfo
  pub transient_target : AccountInfo
  pub user_target_ata : AccountInfo
  pub dest_usdc : AccountInfo
  pub swap_program : AccountInfo
  pub token_program : AccountInfo
  pub fee_config : AccountInfo
  pub fee_ata : AccountInfo

-- What the validated accounts hold on entry.
pub record SellAccounts : Type 0 where
  pub config : Config
  pub sell_plan : SellPlan
  pub transient_target : TokenAccount
  pub user_target_ata : TokenAccount
  pub dest_usdc : TokenAccount
  pub fee_config : FeeConfig
  pub bump : ℕ

pub record SellExecuted : Type 0 where
  pub user : Pubkey
  pub amount_in : ℕ
  pub amount_out : ℕ
  pub fee : ℕ
  pub venue : Pubkey

-- The gate advances; then the event, and the chain with the tokens as the venue left them.
abbrev pub conclude_sell :
    ExecuteSell → SellAccounts → ℤ → ℕ → Chain → Tokens × ℕ → Result (Chain × SellExecuted)
conclude_sell ctx acc now fee chain (tokens, out) = do
  plan ← advance acc.sell_plan now
  ok (
    store ctx.sell_plan.key (ProgramAccount.sell_plan plan) (record chain { tokens = tokens }),
    record {
      user = ctx.user.key;
      amount_in = acc.transient_target.amount;
      amount_out = out;
      fee = fee;
      venue = ctx.swap_program.key;
    },
  )

module _ (rt : Runtime) where
  unfoldable pub validate_sell : ExecuteSell → Chain → Result SellAccounts
  validate_sell ctx chain = do
    check_signer ctx.keeper
    config ← as_config (chain.accounts ctx.config.key)
    sell_plan ← as_sell_plan (chain.accounts ctx.sell_plan.key)
    transient_target ← load_token chain.tokens ctx.transient_target
    user_target_ata ← load_token chain.tokens ctx.user_target_ata
    dest_usdc ← load_token chain.tokens ctx.dest_usdc
    check_program rt.token_program_id ctx.token_program
    fee_config ← as_fee_config (chain.accounts ctx.fee_config.key)
    fee_ata ← load_token chain.tokens ctx.fee_ata
    check_seeds rt config_seeds config.bump ctx.config
    check_seeds rt (sell_plan_seeds ctx.user.key) sell_plan.bump ctx.sell_plan
    check_mut ctx.sell_plan
    check_has_one sell_plan.user ctx.user.key
    bump ← find_seeds rt (buy_auth_seeds ctx.user.key) ctx.buy_authority
    check_mut ctx.transient_target
    check_mut ctx.dest_usdc
    check_seeds rt fee_config_seeds fee_config.bump ctx.fee_config
    check_mut ctx.fee_ata
    ok (record {
      config = config;
      sell_plan = sell_plan;
      transient_target = transient_target;
      user_target_ata = user_target_ata;
      dest_usdc = dest_usdc;
      fee_config = fee_config;
      bump = bump;
    })

  -- The terminal state comes before the clock gate.
  unfoldable pub check_due : SellPlan → Result ℤ → Result ℤ
  check_due plan clock = do
    require (leb_ℤ plan.next_due_ts plan.end_ts) plan_completed
    now ← clock
    require (leb_ℤ plan.next_due_ts now) not_due
    ok now

  -- The user's own USDC account, the PDA's canonical transient and the user's canonical pot.
  unfoldable pub check_sell_bindings : ExecuteSell → SellAccounts → Result (Unit {0})
  check_sell_bindings ctx acc = do
    require (ctx.dest_usdc.key == rt.get_associated_token_address ctx.user.key acc.config.usdc_mint)
        destination_not_owner
    require
        (ctx.transient_target.key
          == rt.get_associated_token_address ctx.buy_authority.key acc.config.target_mint)
        bad_transient
    require
        (ctx.user_target_ata.key
          == rt.get_associated_token_address ctx.user.key acc.config.target_mint)
        bad_pot_account

  -- The guards up to the venue call; the result is the time, the fee and the net input.
  unfoldable pub check_sell : ExecuteSell → SellAccounts → Result ℤ → ℕ → Result (ℤ × ℕ × ℕ)
  unfolding check_due check_sell_bindings
  check_sell ctx acc clock min_out = do
    require (not acc.config.paused) paused
    now ← check_due acc.sell_plan clock
    check_sell_bindings ctx acc
    let amount_in = acc.transient_target.amount
    require (ltb 0 amount_in) nothing_pulled
    check_cap acc.sell_plan now acc.user_target_ata.amount amount_in
    listed ← is_whitelisted acc.config ctx.swap_program.key
    require listed venue_not_whitelisted
    fee ← execution_fee amount_in acc.fee_config.fee_bps
    net_in ← net_input amount_in fee
    require
        (ctx.fee_ata.key
          == rt.get_associated_token_address acc.fee_config.destination acc.config.target_mint)
        bad_fee_account
    require (ltb 0 acc.config.price_ref_micros) floor_not_configured
    floor ←
        sell_floor net_in acc.config.price_ref_micros acc.config.target_decimals
          acc.config.max_slippage_bps
    require (leb floor min_out) min_out_too_low
    ok (now, fee, net_in)

  abbrev pub sell_route : ExecuteSell → SellAccounts → List AccountInfo → List ℕ → Route
  sell_route ctx acc remaining_accounts swap_data = record {
    user = ctx.user.key;
    buy_authority = ctx.buy_authority;
    bump = acc.bump;
    transient = ctx.transient_target;
    dest = ctx.dest_usdc;
    fee_ata = ctx.fee_ata;
    swap_program = ctx.swap_program;
    remaining_accounts = remaining_accounts;
    swap_data = swap_data;
  }

  unfoldable pub execute_sell :
      ExecuteSell → List AccountInfo → Result ℤ → ℕ → List ℕ → Chain → Result (Chain × SellExecuted)
  execute_sell ctx remaining_accounts clock min_out swap_data chain = do
    acc ← validate_sell ctx chain
    (now, fee, net_in) ← check_sell ctx acc clock min_out
    swapped ←
        swap_and_verify rt (sell_route ctx acc remaining_accounts swap_data) fee
          acc.dest_usdc.amount min_out chain.tokens
    conclude_sell ctx acc now fee chain swapped

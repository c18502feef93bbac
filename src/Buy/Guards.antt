-- ===== src/Buy/Guards.antt =====
-- The guards of `execute_buy` as one record, which `check_buy` decides.
use solana_recurring_buy.Prelude.{ℕ, ◌≤◌, ◌<◌, ◌≡◌, arith, true, false}
use solana_recurring_buy.Errors.{ok, value_of}
use solana_recurring_buy.State.{is_whitelisted}
use solana_recurring_buy.Floor.{price_floor}
use solana_recurring_buy.Fee.{execution_fee, net_input}
use solana_recurring_buy.Chain.{Runtime}
use solana_recurring_buy.Buy.{ExecuteBuy, BuyAccounts, check_buy}

pub record BuyGuards (rt : Runtime) (ctx : ExecuteBuy) (acc : BuyAccounts)
    (min_out fee net floor : ℕ) : Type 0 where
  pub running : acc.config.paused ≡ false
  pub dest_mint : acc.dest_ata.mint ≡ acc.config.target_mint
  pub dest_canonical :
      ctx.dest_ata.key ≡ rt.get_associated_token_address ctx.user.key acc.config.target_mint
  pub transient_mint : acc.transient_usdc.mint ≡ acc.config.usdc_mint
  pub transient_canonical :
      ctx.transient_usdc.key
      ≡ rt.get_associated_token_address ctx.buy_authority.key acc.config.usdc_mint
  pub pulled : 0 < acc.transient_usdc.amount
  pub listed : is_whitelisted acc.config ctx.swap_program.key ≡ ok true
  pub fee_due : execution_fee acc.transient_usdc.amount acc.fee_config.fee_bps ≡ ok fee
  pub net_due : net_input acc.transient_usdc.amount fee ≡ ok net
  pub fee_canonical :
      ctx.fee_ata.key
      ≡ rt.get_associated_token_address acc.fee_config.destination acc.config.usdc_mint
  pub priced : 0 < acc.config.price_ref_micros
  pub floor_due :
      price_floor net acc.config.price_ref_micros acc.config.target_decimals
        acc.config.max_slippage_bps
      ≡ ok floor
  pub floor_met : floor ≤ min_out

-- The floor that the configuration sets for a net input.
abbrev pub buy_floor : BuyAccounts → ℕ → ℕ
buy_floor acc net = value_of (
    price_floor net acc.config.price_ref_micros acc.config.target_decimals
      acc.config.max_slippage_bps)

module _ (rt : Runtime) (ctx : ExecuteBuy) (acc : BuyAccounts) (min_out : ℕ) where
  pub check_buy-BuyGuards :
      {fee net : ℕ}
      → check_buy rt ctx acc min_out ≡ ok (fee, net)
      → BuyGuards rt ctx acc min_out fee net (buy_floor acc net)
  unfolding check_buy
  check_buy-BuyGuards h = ground arith

  pub BuyGuards-check_buy :
      {fee net floor : ℕ}
      → BuyGuards rt ctx acc min_out fee net floor
      → check_buy rt ctx acc min_out ≡ ok (fee, net)
  unfolding check_buy
  BuyGuards-check_buy g = ground arith

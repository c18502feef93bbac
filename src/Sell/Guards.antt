-- ===== src/Sell/Guards.antt =====
-- The guards of `execute_sell` as one record, which `check_sell` decides.
use solana_recurring_buy.Prelude.{ℕ, ◌≤◌, ◌<◌, ◌≡◌, arith, true, false}
use solana_recurring_buy.Prelude.Int.{ℤ, ◌≤ℤ◌}
use solana_recurring_buy.Errors.{Result, ok, value_of}
use solana_recurring_buy.State.{is_whitelisted}
use solana_recurring_buy.Floor.{sell_floor}
use solana_recurring_buy.Fee.{execution_fee, net_input}
use solana_recurring_buy.Schedule.{check_cap}
use solana_recurring_buy.Chain.{Runtime}
use solana_recurring_buy.Sell.{ExecuteSell, SellAccounts, check_sell}

pub record SellGuards (rt : Runtime) (ctx : ExecuteSell) (acc : SellAccounts) (clock : Result ℤ)
    (min_out : ℕ) (now : ℤ) (fee net floor : ℕ) : Type 0 where
  pub running : acc.config.paused ≡ false
  pub unfinished : acc.sell_plan.next_due_ts ≤ℤ acc.sell_plan.end_ts
  pub clock_read : clock ≡ ok now
  pub due : acc.sell_plan.next_due_ts ≤ℤ now
  pub dest_canonical :
      ctx.dest_usdc.key ≡ rt.get_associated_token_address ctx.user.key acc.config.usdc_mint
  pub transient_canonical :
      ctx.transient_target.key
      ≡ rt.get_associated_token_address ctx.buy_authority.key acc.config.target_mint
  pub pot_canonical :
      ctx.user_target_ata.key ≡ rt.get_associated_token_address ctx.user.key acc.config.target_mint
  pub pulled : 0 < acc.transient_target.amount
  pub amortized :
      check_cap acc.sell_plan now acc.user_target_ata.amount acc.transient_target.amount ≡ ok tt
  pub listed : is_whitelisted acc.config ctx.swap_program.key ≡ ok true
  pub fee_due : execution_fee acc.transient_target.amount acc.fee_config.fee_bps ≡ ok fee
  pub net_due : net_input acc.transient_target.amount fee ≡ ok net
  pub fee_canonical :
      ctx.fee_ata.key
      ≡ rt.get_associated_token_address acc.fee_config.destination acc.config.target_mint
  pub priced : 0 < acc.config.price_ref_micros
  pub floor_due :
      sell_floor net acc.config.price_ref_micros acc.config.target_decimals
        acc.config.max_slippage_bps
      ≡ ok floor
  pub floor_met : floor ≤ min_out

-- The floor that the configuration sets for a net input.
abbrev pub usdc_floor : SellAccounts → ℕ → ℕ
usdc_floor acc net = value_of (
    sell_floor net acc.config.price_ref_micros acc.config.target_decimals
      acc.config.max_slippage_bps)

module _ (rt : Runtime) (ctx : ExecuteSell) (acc : SellAccounts) (clock : Result ℤ)
    (min_out : ℕ) where
  pub check_sell-SellGuards :
      {now : ℤ} {fee net : ℕ}
      → check_sell rt ctx acc clock min_out ≡ ok (now, fee, net)
      → SellGuards rt ctx acc clock min_out now fee net (usdc_floor acc net)
  unfolding check_sell
  check_sell-SellGuards h = ground arith

  pub SellGuards-check_sell :
      {now : ℤ} {fee net floor : ℕ}
      → SellGuards rt ctx acc clock min_out now fee net floor
      → check_sell rt ctx acc clock min_out ≡ ok (now, fee, net)
  unfolding check_sell
  SellGuards-check_sell g = ground arith

-- ===== src/Buy/Refusals.antt =====
-- programs/recurring-buy/src/lib.rs: the errors of the guards of `execute_buy`.
use native.Mathlib.Nat.{mul-le-mul_left}
use solana_recurring_buy.Prelude.{
  ℕ, ◌-◌, ◌*◌, ◌/◌, ◌≤◌, ◌<◌, ◌≡◌, ◌≢◌, ◌⊎◌, arith, Bool, true, false,
}
use solana_recurring_buy.Errors.{
  ok, err, Error, buy, paused, wrong_target_mint, destination_not_owner, bad_transient,
  nothing_pulled, venue_not_whitelisted, bad_fee_account, floor_not_configured, min_out_too_low,
}
use solana_recurring_buy.Word.{u64_mod}
use solana_recurring_buy.State.{is_whitelisted}
use solana_recurring_buy.State.Valid.{IsValidConfig, IsValidFeeConfig}
use solana_recurring_buy.Admin.Venues.{is_whitelisted_total}
use solana_recurring_buy.Fee.{execution_fee, net_input}
use solana_recurring_buy.Fee.Bounds.{execution_fee_exact}
use solana_recurring_buy.Floor.{price_floor}
use solana_recurring_buy.Floor.Exact.{price_floor_exact}
use solana_recurring_buy.Chain.{Runtime}
use solana_recurring_buy.Buy.{ExecuteBuy, BuyAccounts, check_buy}
use solana_recurring_buy.Buy.Guards.{buy_floor}

-- The fee and the net input of a buy, and what its guards promise of each error.
module _ (rt : Runtime) (ctx : ExecuteBuy) (acc : BuyAccounts) (min_out : ℕ) where
  abbrev pub buy_fee : ℕ
  buy_fee = acc.transient_usdc.amount * acc.fee_config.fee_bps / 10_000

  abbrev pub Reason : Error → Type 0
  Reason (buy paused) = acc.config.paused ≡ true
  Reason (buy wrong_target_mint) = acc.dest_ata.mint ≢ acc.config.target_mint
  Reason (buy destination_not_owner) =
      ctx.dest_ata.key ≢ rt.get_associated_token_address ctx.user.key acc.config.target_mint
  Reason (buy bad_transient) =
      (acc.transient_usdc.mint ≢ acc.config.usdc_mint)
      ⊎ (ctx.transient_usdc.key
          ≢ rt.get_associated_token_address ctx.buy_authority.key acc.config.usdc_mint)
  Reason (buy nothing_pulled) = acc.transient_usdc.amount ≡ 0
  Reason (buy venue_not_whitelisted) = is_whitelisted acc.config ctx.swap_program.key ≡ ok false
  Reason (buy bad_fee_account) =
      ctx.fee_ata.key
      ≢ rt.get_associated_token_address acc.fee_config.destination acc.config.usdc_mint
  Reason (buy floor_not_configured) = acc.config.price_ref_micros ≡ 0
  Reason (buy min_out_too_low) = min_out < buy_floor acc (acc.transient_usdc.amount - buy_fee)
  Reason _ = ⊥

  reasons :
      (listed : Bool) (floor : ℕ) (e : Error)
      → is_whitelisted acc.config ctx.swap_program.key ≡ ok listed
      → execution_fee acc.transient_usdc.amount acc.fee_config.fee_bps ≡ ok buy_fee
      → (0 < acc.transient_usdc.amount
          → net_input acc.transient_usdc.amount buy_fee ≡ ok (acc.transient_usdc.amount - buy_fee))
      → (0 < acc.config.price_ref_micros
          → price_floor
              (acc.transient_usdc.amount - buy_fee)
              acc.config.price_ref_micros
              acc.config.target_decimals
              acc.config.max_slippage_bps
            ≡ ok floor)
      → check_buy rt ctx acc min_out ≡ err e
      → Reason e
  unfolding check_buy
  reasons listed floor e hl hf hn hp h = ground arith

  -- When the configuration and the fee configuration are well formed and the input is a 64-bit word,
  -- the guards of `execute_buy` never overflow and never panic: each error that they return names a
  -- condition that fails, and the ones for a complete, a not yet due or an overdrawn schedule and for
  -- the pot account do not occur.
  pub check_buy_reasons :
      (e : Error)
      → IsValidConfig acc.config
      → IsValidFeeConfig acc.fee_config
      → acc.transient_usdc.amount < u64_mod
      → check_buy rt ctx acc min_out ≡ err e
      → Reason e
  unfolding net_input
  check_buy_reasons e v fv small h =
      let a = acc.transient_usdc.amount in
      let most : a * acc.fee_config.fee_bps ≤ a * 100 = mul-le-mul_left a fv.capped in
      reasons _ _ e (is_whitelisted_total acc.config ctx.swap_program.key v)
        (execution_fee_exact a acc.fee_config.fee_bps small fv.capped) (λ some_input. ground arith)
        (λ priced.
          price_floor_exact (a - buy_fee) acc.config.price_ref_micros acc.config.target_decimals
            acc.config.max_slippage_bps (omega arith) priced v.scale v.slippage)
        h

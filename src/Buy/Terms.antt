-- ===== src/Buy/Terms.antt =====
-- programs/recurring-buy/src/lib.rs: the conditions under which `execute_buy` swaps, in numbers, and the
-- guards of the code that decide them.
use native.Mathlib.Nat.{mul-le-mul_left}
use solana_recurring_buy.Prelude.{
  ℕ, ◌-◌, ◌*◌, ◌/◌, ◌%◌, ◌^◌, ◌≤◌, ◌<◌, ◌≡◌, sym, ◌∙◌, ap, arith, true, false, take, contains,
}
use solana_recurring_buy.Errors.{ok, ok-injective}
use solana_recurring_buy.Word.{u64_mod}
use solana_recurring_buy.State.Valid.{IsValidConfig, IsValidFeeConfig}
use solana_recurring_buy.Admin.Venues.{is_whitelisted_total}
use solana_recurring_buy.Fee.{net_input}
use solana_recurring_buy.Fee.Bounds.{execution_fee_exact, execution_fee_results}
use solana_recurring_buy.Floor.{price_floor}
use solana_recurring_buy.Floor.Exact.{price_floor_exact}
use solana_recurring_buy.Chain.{Runtime}
use solana_recurring_buy.Buy.{ExecuteBuy, BuyAccounts}
use solana_recurring_buy.Buy.Guards.{BuyGuards}

-- The conditions of a buy with a fee.
pub record BuyTerms (rt : Runtime) (ctx : ExecuteBuy) (acc : BuyAccounts) (min_out fee : ℕ)
    : Type 0 where
  pub running : acc.config.paused ≡ false
  pub dest_mint : acc.dest_ata.mint ≡ acc.config.target_mint
  pub dest_canonical :
      ctx.dest_ata.key ≡ rt.get_associated_token_address ctx.user.key acc.config.target_mint
  pub transient_mint : acc.transient_usdc.mint ≡ acc.config.usdc_mint
  pub transient_canonical :
      ctx.transient_usdc.key
      ≡ rt.get_associated_token_address ctx.buy_authority.key acc.config.usdc_mint
  pub pulled : 0 < acc.transient_usdc.amount
  pub listed :
      contains (take acc.config.swap_program_count acc.config.swap_programs) ctx.swap_program.key
      ≡ true
  pub fee_rate : fee ≡ acc.transient_usdc.amount * acc.fee_config.fee_bps / 10_000
  pub fee_canonical :
      ctx.fee_ata.key
      ≡ rt.get_associated_token_address acc.fee_config.destination acc.config.usdc_mint
  pub priced : 0 < acc.config.price_ref_micros
  pub floor_met :
      (acc.transient_usdc.amount - fee)
        * 10 ^ acc.config.target_decimals
        / acc.config.price_ref_micros
        * (10_000 - acc.config.max_slippage_bps)
        / 10_000
        % u64_mod
      ≤ min_out

module _ (rt : Runtime) (ctx : ExecuteBuy) (acc : BuyAccounts) (min_out fee : ℕ)
    (v : IsValidConfig acc.config) (fv : IsValidFeeConfig acc.fee_config)
    (small : acc.transient_usdc.amount < u64_mod) where
  floor_in_words :
      (net : ℕ)
      → net < u64_mod
      → 0 < acc.config.price_ref_micros
      → price_floor net acc.config.price_ref_micros acc.config.target_decimals
          acc.config.max_slippage_bps
        ≡ ok (
            net
            * 10 ^ acc.config.target_decimals
            / acc.config.price_ref_micros
            * (10_000 - acc.config.max_slippage_bps)
            / 10_000
            % u64_mod)
  floor_in_words net fits priced =
      price_floor_exact net acc.config.price_ref_micros acc.config.target_decimals
        acc.config.max_slippage_bps fits priced v.scale v.slippage

  pub BuyGuards-BuyTerms :
      (net floor : ℕ) → BuyGuards rt ctx acc min_out fee net floor → BuyTerms rt ctx acc min_out fee
  BuyGuards-BuyTerms net floor g =
      let (rate, most, split, some_net) =
        execution_fee_results acc.transient_usdc.amount acc.fee_config.fee_bps small fv.capped
          g.fee_due g.net_due in
      let rest : net ≡ acc.transient_usdc.amount - fee = omega arith in
      let floor_is = ok-injective (sym (floor_in_words net (omega arith) g.priced) ∙ g.floor_due) in
      record {
        running = g.running;
        dest_mint = g.dest_mint;
        dest_canonical = g.dest_canonical;
        transient_mint = g.transient_mint;
        transient_canonical = g.transient_canonical;
        pulled = g.pulled;
        listed =
            ok-injective (sym (is_whitelisted_total acc.config ctx.swap_program.key v) ∙ g.listed);
        fee_rate = rate;
        fee_canonical = g.fee_canonical;
        priced = g.priced;
        floor_met = rw (← rest, floor_is) g.floor_met;
      }

  module _ (t : BuyTerms rt ctx acc min_out fee) where
    net_of_terms : net_input acc.transient_usdc.amount fee ≡ ok (acc.transient_usdc.amount - fee)
    unfolding net_input
    net_of_terms =
        let most : acc.transient_usdc.amount * acc.fee_config.fee_bps
            ≤ acc.transient_usdc.amount * 100 =
          mul-le-mul_left acc.transient_usdc.amount fv.capped in
        ground (arith, t.pulled, t.fee_rate)

    pub BuyTerms-BuyGuards : BuyGuards rt ctx acc min_out fee (acc.transient_usdc.amount - fee) (
        (acc.transient_usdc.amount - fee)
        * 10 ^ acc.config.target_decimals
        / acc.config.price_ref_micros
        * (10_000 - acc.config.max_slippage_bps)
        / 10_000
        % u64_mod)
    BuyTerms-BuyGuards = record {
      running = t.running;
      dest_mint = t.dest_mint;
      dest_canonical = t.dest_canonical;
      transient_mint = t.transient_mint;
      transient_canonical = t.transient_canonical;
      pulled = t.pulled;
      listed = is_whitelisted_total acc.config ctx.swap_program.key v ∙ ap ok t.listed;
      fee_due =
          execution_fee_exact acc.transient_usdc.amount acc.fee_config.fee_bps small fv.capped
          ∙ ap ok (sym t.fee_rate);
      net_due = net_of_terms;
      fee_canonical = t.fee_canonical;
      priced = t.priced;
      floor_due = floor_in_words _ (omega arith) t.priced;
      floor_met = t.floor_met;
    }

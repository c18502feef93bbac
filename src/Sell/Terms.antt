-- ===== src/Sell/Terms.antt =====
-- programs/recurring-buy/src/lib.rs: the conditions under which `execute_sell` swaps, in numbers, and
-- the guards of the code that decide them.
use native.Mathlib.Nat.{mul-le-mul_left}
use solana_recurring_buy.Prelude.{
  ℕ, ◌+◌, ◌-◌, ◌*◌, ◌/◌, ◌%◌, ◌^◌, ◌≤◌, ◌<◌, ◌≡◌, ◌↔◌, refl, sym, ◌∙◌, ap, arith, true, false, take,
  contains,
}
use solana_recurring_buy.Prelude.Int.{ℤ, ◌≤ℤ◌, pos_part}
use solana_recurring_buy.Errors.{Result, ok, ok-injective}
use solana_recurring_buy.Word.{u64_mod, u128_mod}
use solana_recurring_buy.State.Valid.{
  IsValidConfig, IsValidFeeConfig, IsValidSellPlan, IsTime, eq-pos,
}
use solana_recurring_buy.Admin.Venues.{is_whitelisted_total}
use solana_recurring_buy.Fee.{net_input}
use solana_recurring_buy.Fee.Bounds.{execution_fee_exact, execution_fee_results}
use solana_recurring_buy.Floor.{sell_floor}
use solana_recurring_buy.Floor.Exact.{sell_floor_exact}
use solana_recurring_buy.Schedule.{check_cap}
use solana_recurring_buy.Schedule.Cap.{check_cap_iff}
use solana_recurring_buy.Chain.{Runtime}
use solana_recurring_buy.Sell.{ExecuteSell, SellAccounts}
use solana_recurring_buy.Sell.Guards.{SellGuards}
use solana_recurring_buy.Sell.Progress.{periods_at}

-- The value of a net input at the reference price less the slippage, before its last division.
abbrev weighted : SellAccounts → ℕ → ℕ
weighted acc net =
    net
    * acc.config.price_ref_micros
    / 10 ^ acc.config.target_decimals
    * (10_000 - acc.config.max_slippage_bps)

-- The conditions of a sell with a fee at a time.
pub record SellTerms (rt : Runtime) (ctx : ExecuteSell) (acc : SellAccounts) (clock : Result ℤ)
    (min_out : ℕ) (now : ℤ) (fee : ℕ) : Type 0 where
  pub running : acc.config.paused ≡ false
  pub unfinished : acc.sell_plan.next_due_ts ≤ℤ acc.sell_plan.end_ts
  pub clock_read : clock ≡ ok now
  pub due : acc.sell_plan.next_due_ts ≤ℤ now
  pub dest_canonical :
      ctx.dest_usdc.key ≡ rt.get_associated_token_address ctx.user.key acc.config.usdc_mint
  pub transient_canonical :
      ctx.transient_target.key
      ≡ rt.get_associated_token_address ctx.buy_authority.key acc.config.target_mint
  pub pot_canonical :
      ctx.user_target_ata.key ≡ rt.get_associated_token_address ctx.user.key acc.config.target_mint
  pub pulled : 0 < acc.transient_target.amount
  pub amortized :
      acc.transient_target.amount * periods_at acc.sell_plan now
      ≤ acc.user_target_ata.amount + acc.transient_target.amount
  pub listed :
      contains (take acc.config.swap_program_count acc.config.swap_programs) ctx.swap_program.key
      ≡ true
  pub fee_rate : fee ≡ acc.transient_target.amount * acc.fee_config.fee_bps / 10_000
  pub fee_canonical :
      ctx.fee_ata.key
      ≡ rt.get_associated_token_address acc.fee_config.destination acc.config.target_mint
  pub priced : 0 < acc.config.price_ref_micros
  pub fits : weighted acc (acc.transient_target.amount - fee) < u128_mod
  pub floor_met : weighted acc (acc.transient_target.amount - fee) / 10_000 % u64_mod ≤ min_out

module _ (rt : Runtime) (ctx : ExecuteSell) (acc : SellAccounts) (clock : Result ℤ) (min_out : ℕ)
    (now : ℤ) (fee : ℕ) (v : IsValidConfig acc.config) (fv : IsValidFeeConfig acc.fee_config)
    (pv : IsValidSellPlan acc.sell_plan) (timely : IsTime now)
    (small : acc.transient_target.amount < u64_mod)
    (pot : acc.user_target_ata.amount < u64_mod) where
  floor_in_words :
      (net floor : ℕ)
      → net < u64_mod
      → (sell_floor net acc.config.price_ref_micros acc.config.target_decimals
            acc.config.max_slippage_bps
          ≡ ok floor)
        ↔ ((weighted acc net < u128_mod) × (weighted acc net / 10_000 % u64_mod ≡ floor))
  floor_in_words net floor small_net =
      let exact =
        sell_floor_exact net acc.config.price_ref_micros acc.config.target_decimals
          acc.config.max_slippage_bps small_net v.price v.scale v.slippage in
      (λ h. ground (arith, exact), λ h. ground (arith, exact))

  cap_in_numbers :
      (check_cap acc.sell_plan now acc.user_target_ata.amount acc.transient_target.amount ≡ ok tt)
      ↔ (acc.transient_target.amount * periods_at acc.sell_plan now
          ≤ acc.user_target_ata.amount + acc.transient_target.amount)
  cap_in_numbers =
      let i =
        check_cap_iff acc.sell_plan (pos_part acc.sell_plan.end_ts) (pos_part now)
          (pos_part acc.sell_plan.period_secs) acc.user_target_ata.amount
          acc.transient_target.amount (eq-pos acc.sell_plan.end_ts pv.end_nonneg)
          (eq-pos acc.sell_plan.period_secs (omega (arith, pv.period_min)))
          (ground (arith, pv.period_min)) (ground (arith, pv.end_range))
          (ground (arith, timely.room)) pot small in
      let here =
        ap (λ z. check_cap acc.sell_plan z acc.user_target_ata.amount acc.transient_target.amount)
          (eq-pos now timely.nonneg) in
      (λ h. i.0 (sym here ∙ h), λ h. here ∙ i.1 h)

  pub SellGuards-SellTerms :
      (net floor : ℕ)
      → SellGuards rt ctx acc clock min_out now fee net floor
      → SellTerms rt ctx acc clock min_out now fee
  SellGuards-SellTerms net floor g =
      let (rate, most, split, some_net) =
        execution_fee_results acc.transient_target.amount acc.fee_config.fee_bps small fv.capped
          g.fee_due g.net_due in
      let rest : net ≡ acc.transient_target.amount - fee = omega arith in
      let (fits, floor_is) = (floor_in_words net floor (omega arith)).0 g.floor_due in
      record {
        running = g.running;
        unfinished = g.unfinished;
        clock_read = g.clock_read;
        due = g.due;
        dest_canonical = g.dest_canonical;
        transient_canonical = g.transient_canonical;
        pot_canonical = g.pot_canonical;
        pulled = g.pulled;
        amortized = cap_in_numbers.0 g.amortized;
        listed =
            ok-injective (sym (is_whitelisted_total acc.config ctx.swap_program.key v) ∙ g.listed);
        fee_rate = rate;
        fee_canonical = g.fee_canonical;
        priced = g.priced;
        fits = rw (← rest) fits;
        floor_met = rw (← rest, floor_is) g.floor_met;
      }

  module _ (t : SellTerms rt ctx acc clock min_out now fee) where
    net_of_terms :
        net_input acc.transient_target.amount fee ≡ ok (acc.transient_target.amount - fee)
    unfolding net_input
    net_of_terms =
        let most : acc.transient_target.amount * acc.fee_config.fee_bps
            ≤ acc.transient_target.amount * 100 =
          mul-le-mul_left acc.transient_target.amount fv.capped in
        ground (arith, t.pulled, t.fee_rate)

    pub SellTerms-SellGuards :
        SellGuards rt ctx acc clock min_out now fee
          (acc.transient_target.amount - fee)
          (weighted acc (acc.transient_target.amount - fee) / 10_000 % u64_mod)
    SellTerms-SellGuards = record {
      running = t.running;
      unfinished = t.unfinished;
      clock_read = t.clock_read;
      due = t.due;
      dest_canonical = t.dest_canonical;
      transient_canonical = t.transient_canonical;
      pot_canonical = t.pot_canonical;
      pulled = t.pulled;
      amortized = cap_in_numbers.1 t.amortized;
      listed = is_whitelisted_total acc.config ctx.swap_program.key v ∙ ap ok t.listed;
      fee_due =
          execution_fee_exact acc.transient_target.amount acc.fee_config.fee_bps small fv.capped
          ∙ ap ok (sym t.fee_rate);
      net_due = net_of_terms;
      fee_canonical = t.fee_canonical;
      priced = t.priced;
      floor_due = (floor_in_words _ _ (omega arith)).1 (t.fits, refl);
      floor_met = t.floor_met;
    }

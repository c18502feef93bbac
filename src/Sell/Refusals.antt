-- ===== src/Sell/Refusals.antt =====
-- programs/recurring-buy/src/lib.rs: the errors of the guards of `execute_sell`.
use native.Mathlib.Nat.{mul-le-mul_left, div-lt_iff_lt-mul}
use solana_recurring_buy.Prelude.{
  ℕ, ◌+◌, ◌-◌, ◌*◌, ◌/◌, ◌^◌, ◌≤◌, ◌<◌, ◌≡◌, ◌≢◌, ◌∙◌, ap, arith, Bool, true, false, ltb, leb,
  if◌then◌else◌,
}
use solana_recurring_buy.Prelude.Int.{ℤ, pos_part, ◌<ℤ◌}
use solana_recurring_buy.Errors.{
  ok, err, Error, buy, require, paused, plan_completed, not_due, destination_not_owner,
  bad_transient, bad_pot_account, nothing_pulled, overdraw_schedule, venue_not_whitelisted,
  bad_fee_account, floor_not_configured, min_out_too_low, overflow,
}
use solana_recurring_buy.Word.{u64_mod, u128_mod}
use solana_recurring_buy.State.{SellPlan, is_whitelisted}
use solana_recurring_buy.State.Valid.{
  IsValidConfig, IsValidFeeConfig, IsValidSellPlan, IsTime, eq-pos,
}
use solana_recurring_buy.Admin.Venues.{is_whitelisted_total}
use solana_recurring_buy.Fee.{execution_fee, net_input}
use solana_recurring_buy.Fee.Bounds.{execution_fee_exact}
use solana_recurring_buy.Floor.{sell_floor}
use solana_recurring_buy.Floor.Exact.{sell_floor_exact}
use solana_recurring_buy.Schedule.{check_cap}
use solana_recurring_buy.Schedule.Cap.{check_cap_exact, periods_left_pos}
use solana_recurring_buy.Chain.{Runtime}
use solana_recurring_buy.Sell.{ExecuteSell, SellAccounts, check_due, check_sell}
use solana_recurring_buy.Sell.Guards.{usdc_floor}
use solana_recurring_buy.Sell.Progress.{periods_at}

-- The cap check of a valid plan in closed form.
cap_exact :
    (p : SellPlan) (now : ℤ) (wallet amount : ℕ)
    → IsValidSellPlan p
    → IsTime now
    → wallet < u64_mod
    → amount < u64_mod
    → check_cap p now wallet amount
      ≡ require (leb amount ((wallet + amount) / periods_at p now)) overdraw_schedule
cap_exact p now wallet amount v t hw ha =
    ap (λ z. check_cap p z wallet amount) (eq-pos now t.nonneg)
    ∙ check_cap_exact p (pos_part p.end_ts) (pos_part now) (pos_part p.period_secs) wallet amount
        (eq-pos p.end_ts v.end_nonneg) (eq-pos p.period_secs (omega (arith, v.period_min)))
        (ground (arith, v.period_min)) (ground (arith, v.end_range)) (ground (arith, t.room)) hw ha

-- A draw that is not within the cap is not covered.
not_capped :
    (wallet amount q : ℕ)
    → 0 < q
    → leb amount ((wallet + amount) / q) ≡ false
    → wallet + amount < amount * q
not_capped wallet amount q hq h =
    let above : (wallet + amount) / q < amount = ground arith in
    ground (arith, (div-lt_iff_lt-mul {x = wallet + amount} {y = amount} hq).0 above)

-- The fee of a sell, and what its guards promise of each error.
module _ (rt : Runtime) (ctx : ExecuteSell) (acc : SellAccounts) (now : ℤ) (min_out : ℕ) where
  abbrev pub sell_fee : ℕ
  sell_fee = acc.transient_target.amount * acc.fee_config.fee_bps / 10_000

  -- The value of the net input at the reference price, before its last division.
  abbrev pub weighted : ℕ
  weighted =
      (acc.transient_target.amount - sell_fee)
      * acc.config.price_ref_micros
      / 10 ^ acc.config.target_decimals
      * (10_000 - acc.config.max_slippage_bps)

  abbrev pub Reason : Error → Type 0
  Reason (buy paused) = acc.config.paused ≡ true
  Reason (buy plan_completed) = acc.sell_plan.end_ts <ℤ acc.sell_plan.next_due_ts
  Reason (buy not_due) = now <ℤ acc.sell_plan.next_due_ts
  Reason (buy destination_not_owner) =
      ctx.dest_usdc.key ≢ rt.get_associated_token_address ctx.user.key acc.config.usdc_mint
  Reason (buy bad_transient) =
      ctx.transient_target.key
      ≢ rt.get_associated_token_address ctx.buy_authority.key acc.config.target_mint
  Reason (buy bad_pot_account) =
      ctx.user_target_ata.key ≢ rt.get_associated_token_address ctx.user.key acc.config.target_mint
  Reason (buy nothing_pulled) = acc.transient_target.amount ≡ 0
  Reason (buy overdraw_schedule) =
      acc.user_target_ata.amount + acc.transient_target.amount
      < acc.transient_target.amount * periods_at acc.sell_plan now
  Reason (buy venue_not_whitelisted) = is_whitelisted acc.config ctx.swap_program.key ≡ ok false
  Reason (buy bad_fee_account) =
      ctx.fee_ata.key
      ≢ rt.get_associated_token_address acc.fee_config.destination acc.config.target_mint
  Reason (buy floor_not_configured) = acc.config.price_ref_micros ≡ 0
  Reason (buy overflow) = u128_mod ≤ weighted
  Reason (buy min_out_too_low) = min_out < usdc_floor acc (acc.transient_target.amount - sell_fee)
  Reason _ = ⊥

  reasons :
      (listed capped fits : Bool) (floor : ℕ) (e : Error)
      → is_whitelisted acc.config ctx.swap_program.key ≡ ok listed
      → execution_fee acc.transient_target.amount acc.fee_config.fee_bps ≡ ok sell_fee
      → (0 < acc.transient_target.amount
          → net_input acc.transient_target.amount sell_fee
            ≡ ok (acc.transient_target.amount - sell_fee))
      → check_cap acc.sell_plan now acc.user_target_ata.amount acc.transient_target.amount
        ≡ require capped overdraw_schedule
      → (capped ≡ false
          → acc.user_target_ata.amount + acc.transient_target.amount
            < acc.transient_target.amount * periods_at acc.sell_plan now)
      → sell_floor
          (acc.transient_target.amount - sell_fee)
          acc.config.price_ref_micros
          acc.config.target_decimals
          acc.config.max_slippage_bps
        ≡ (if fits then ok floor else err (buy overflow))
      → (fits ≡ false → u128_mod ≤ weighted)
      → check_sell rt ctx acc (ok now) min_out ≡ err e
      → Reason e
  unfolding check_sell check_due
  reasons listed capped fits floor e hl hf hn hc over hp big h = ground arith steps 40_000_000

  -- When the configuration, the fee configuration and the plan are well formed, the time is in range,
  -- and the amounts are 64-bit words, the guards of `execute_sell` never panic: each error that they
  -- return names a condition that fails, and an overflow is one of the price arithmetic, where the
  -- value of the input at the reference price leaves u128.
  pub check_sell_reasons :
      (e : Error)
      → IsValidConfig acc.config
      → IsValidFeeConfig acc.fee_config
      → IsValidSellPlan acc.sell_plan
      → IsTime now
      → acc.transient_target.amount < u64_mod
      → acc.user_target_ata.amount < u64_mod
      → check_sell rt ctx acc (ok now) min_out ≡ err e
      → Reason e
  unfolding net_input
  check_sell_reasons e v fv pv t small pot h =
      let a = acc.transient_target.amount in
      let w = acc.user_target_ata.amount in
      let most : a * acc.fee_config.fee_bps ≤ a * 100 = mul-le-mul_left a fv.capped in
      let q = periods_at acc.sell_plan now in
      reasons _ (leb a ((w + a) / q)) (ltb weighted u128_mod) _ e
        (is_whitelisted_total acc.config ctx.swap_program.key v)
        (execution_fee_exact a acc.fee_config.fee_bps small fv.capped) (λ some_input. ground arith)
        (cap_exact acc.sell_plan now w a pv t pot small) (not_capped w a q (periods_left_pos _ _ _))
        (sell_floor_exact (a - sell_fee) acc.config.price_ref_micros acc.config.target_decimals
          acc.config.max_slippage_bps (omega arith) v.price v.scale v.slippage)
        (λ too_big. ground arith) h

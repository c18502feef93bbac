-- ===== src/Floor.antt =====
-- programs/recurring-buy/src/lib.rs, `price_floor` and `sell_floor`: the least output that the
-- reference price and the slippage band allow, in u128 arithmetic with a final `as u64`.
-- Each proof about them stands in a child module.
pub mod Exact
pub mod Band
use solana_recurring_buy.Prelude.{ℕ, ◌%◌}
use solana_recurring_buy.Errors.{Result, ok, ◌>>=◌, ok_or, or_panic, overflow}
use solana_recurring_buy.Word.{as_u64, checked_mul_u128, checked_pow_u128, checked_div, checked_sub}

unfoldable pub price_floor : ℕ → ℕ → ℕ → ℕ → Result ℕ
price_floor amount_in price_ref_micros target_decimals max_slippage_bps = do
  scale ← ok_or (checked_pow_u128 10 target_decimals) overflow
  product ← ok_or (checked_mul_u128 amount_in scale) overflow
  ideal ← ok_or (checked_div product price_ref_micros) overflow
  kept_bps ← or_panic (checked_sub 10_000 max_slippage_bps)
  weighted ← ok_or (checked_mul_u128 ideal kept_bps) overflow
  floor ← ok_or (checked_div weighted 10_000) overflow
  ok (as_u64 floor)

unfoldable pub sell_floor : ℕ → ℕ → ℕ → ℕ → Result ℕ
sell_floor amount_in price_ref_micros target_decimals max_slippage_bps = do
  scale ← ok_or (checked_pow_u128 10 target_decimals) overflow
  product ← ok_or (checked_mul_u128 amount_in price_ref_micros) overflow
  ideal ← ok_or (checked_div product scale) overflow
  kept_bps ← or_panic (checked_sub 10_000 max_slippage_bps)
  weighted ← ok_or (checked_mul_u128 ideal kept_bps) overflow
  floor ← ok_or (checked_div weighted 10_000) overflow
  ok (as_u64 floor)

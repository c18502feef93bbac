-- ===== src/Fee.antt =====
-- programs/recurring-buy/src/lib.rs, the execution fee of `execute_buy` and `execute_sell`.
pub mod Bounds
use solana_recurring_buy.Prelude.{ℕ, ◌%◌, ◌<◌, ltb}
use solana_recurring_buy.Errors.{Result, ok, ◌>>=◌, ◌>>◌, ok_or, require, overflow, nothing_pulled}
use solana_recurring_buy.Word.{as_u64, checked_mul_u128, checked_div, checked_sub}

-- The fee on an input amount: a fixed number of basis points, rounded down.
unfoldable pub execution_fee : ℕ → ℕ → Result ℕ
execution_fee amount_in fee_bps = do
  product ← ok_or (checked_mul_u128 amount_in fee_bps) overflow
  fee ← ok_or (checked_div product 10_000) overflow
  ok (as_u64 fee)

-- What is left of the input for the venue; it may not be nothing.
unfoldable pub net_input : ℕ → ℕ → Result ℕ
net_input amount_in fee = do
  net_in ← ok_or (checked_sub amount_in fee) overflow
  require (ltb 0 net_in) nothing_pulled
  ok net_in

-- ===== src/Keeper/Amounts.antt =====
-- The arithmetic of keeper/native/daemon.mjs and keeper/keeper.ts: what to pull, the fee, the net
-- input and the least output of a crank.
use solana_recurring_buy.Prelude.{ℕ, Option, some, List, ◌++◌, if◌then◌else◌, length}
use solana_recurring_buy.Prelude.Int.{ℤ, pos, ◌+ℤ◌, ◌-ℤ◌, ◌*ℤ◌, ◌/ℤ◌, leb_ℤ, ltb_ℤ}
use solana_recurring_buy.Keeper.{Delegation}
use solana_recurring_buy.Keeper.Numbers.{◌>>=◌, u64, u32, max_number, at_least_one}

-- The pullable amount of a delegation, with the roll of its period.
unfoldable pub available : Delegation → ℤ → ℤ
available del now =
    if leb_ℤ (del.current_period_start_ts +ℤ pos del.period_length_s) now
    then pos del.amount_per_period
    else let left = pos del.amount_per_period -ℤ pos del.amount_pulled_in_period in
      if ltb_ℤ (pos 0) left then left else pos 0

-- The least output for an input, at one dollar and six decimals on both sides.
unfoldable pub floor_out : ℤ → ℤ → ℤ
floor_out slippage_bps amount_in = (amount_in *ℤ (pos 10_000 -ℤ slippage_bps)) /ℤ pos 10_000

unfoldable pub keeper_fee : ℤ → ℤ → ℤ
keeper_fee fee_bps amount_in = (amount_in *ℤ fee_bps) /ℤ pos 10_000

-- What is pulled for a sell: the rest of the cap that the residue leaves, as far as it is available.
unfoldable pub capped_pull : ℤ → ℤ → ℤ → ℤ
capped_pull pot residue periods =
    let cap = (pot +ℤ residue) /ℤ periods in if ltb_ℤ residue cap then cap -ℤ residue else pos 0

unfoldable pub sell_pull : ℤ → ℤ → ℤ → ℤ → ℤ
unfolding capped_pull
sell_pull pot residue periods avail =
    let pull = capped_pull pot residue periods in if ltb_ℤ avail pull then avail else pull

-- The method `amortizedDraw` of the client in keeper/keeper.ts.
unfoldable pub amortized_draw : ℤ → ℤ → ℤ → ℤ → ℤ → Option ℤ
unfolding at_least_one
amortized_draw wallet_balance end_ts period_secs now_ts residue = do
  let remaining = max_number (end_ts -ℤ now_ts) (pos 0)
  periods ← at_least_one remaining period_secs
  let cap = (wallet_balance +ℤ residue) /ℤ periods
  some (if ltb_ℤ residue cap then cap -ℤ residue else pos 0)

-- The data of `execute_buy` and `execute_sell`: discriminator, `min_out`, and the route with its
-- length.
unfoldable pub exec_data : List ℕ → ℤ → List ℕ → List ℕ
exec_data disc min_out swap_data = disc ++ u64 min_out ++ u32 (length swap_data) ++ swap_data

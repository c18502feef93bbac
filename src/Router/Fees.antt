-- ===== src/Router/Fees.antt =====
-- programs/recurring-buy/src/lib.rs: `set_fee` and the fee that the two swaps charge after it.
use solana_recurring_buy.Prelude.{ℕ, ◌*◌, ◌/◌, ◌≤◌, ◌<◌, ◌≡◌, arith, List}
use solana_recurring_buy.Prelude.Int.{ℤ}
use solana_recurring_buy.Errors.{Result, ok}
use solana_recurring_buy.State.{Pubkey, max_fee_bps}
use solana_recurring_buy.Word.{u64_mod}
use solana_recurring_buy.Fee.{execution_fee, net_input}
use solana_recurring_buy.Fee.Bounds.{execution_fee_results}
use solana_recurring_buy.Chain.{AccountInfo, Chain, Runtime}
use solana_recurring_buy.Chain.Laws.{IsWide}
use solana_recurring_buy.Admin.{SetFee, set_fee}
use solana_recurring_buy.Admin.Effects.{set_fee_writes}
use solana_recurring_buy.Buy.{ExecuteBuy, BuyExecuted, execute_buy}
use solana_recurring_buy.Buy.Refinement.{execute_buy-Bought}
use solana_recurring_buy.Sell.{ExecuteSell, SellExecuted, execute_sell}
use solana_recurring_buy.Sell.Refinement.{execute_sell-Sold}

pub charged :
    (a amount b fee_bps : ℕ) {fee net : ℕ}
    → amount ≡ a
    → b ≡ fee_bps
    → a < u64_mod
    → fee_bps ≤ max_fee_bps
    → execution_fee a b ≡ ok fee
    → net_input a fee ≡ ok net
    → fee ≡ amount * fee_bps / 10_000
charged a amount b fee_bps {fee} ea eb ha hb e1 e2 =
    rw (ea, ← eb) (execution_fee_results a b ha (rw eb hb) e1 e2).0

module _ (rt : Runtime) (c c' : Chain) (x : ExecuteBuy) (remaining : List AccountInfo) (min_out : ℕ)
    (swap_data : List ℕ) (d : Chain) (event : BuyExecuted) where
  -- After the admin has set the fee, and with 64-bit token amounts, a buy that succeeds under that fee
  -- account has charged exactly that share of its input, rounded down.
  set_fee_charges_buy :
      (admin : SetFee) (fee_bps : ℕ) (destination : Pubkey)
      → set_fee rt admin fee_bps destination c ≡ ok c'
      → IsWide c'.tokens
      → x.fee_config.key ≡ admin.fee_config.key
      → execute_buy rt x remaining min_out swap_data c' ≡ ok (d, event)
      → event.fee ≡ event.amount_in * fee_bps / 10_000
  set_fee_charges_buy admin fee_bps destination set wide same h =
      let (access, le, at, e) = set_fee_writes rt c admin fee_bps destination set in
      let done = execute_buy-Bought rt x remaining min_out swap_data c' d event h in
      let rate : done.acc.fee_config.fee_bps ≡ fee_bps =
        ground (arith, done.validated.fee_config_at) in
      charged done.acc.transient_usdc.amount event.amount_in done.acc.fee_config.fee_bps fee_bps
        done.event_amount_in rate
        (wide x.transient_usdc.key done.acc.transient_usdc done.validated.transient_at) le
        done.guards.fee_due done.guards.net_due

module _ (rt : Runtime) (c c' : Chain) (x : ExecuteSell) (remaining : List AccountInfo)
    (clock : Result ℤ) (min_out : ℕ) (swap_data : List ℕ) (d : Chain) (event : SellExecuted) where
  -- After the admin has set the fee, and with 64-bit token amounts, a sell that succeeds under that fee
  -- account has charged exactly that share of its input, rounded down.
  set_fee_charges_sell :
      (admin : SetFee) (fee_bps : ℕ) (destination : Pubkey)
      → set_fee rt admin fee_bps destination c ≡ ok c'
      → IsWide c'.tokens
      → x.fee_config.key ≡ admin.fee_config.key
      → execute_sell rt x remaining clock min_out swap_data c' ≡ ok (d, event)
      → event.fee ≡ event.amount_in * fee_bps / 10_000
  set_fee_charges_sell admin fee_bps destination set wide same h =
      let (access, le, at, e) = set_fee_writes rt c admin fee_bps destination set in
      let done = execute_sell-Sold rt x remaining clock min_out swap_data c' d event h in
      let rate : done.acc.fee_config.fee_bps ≡ fee_bps =
        ground (arith, done.validated.fee_config_at) in
      charged done.acc.transient_target.amount event.amount_in done.acc.fee_config.fee_bps fee_bps
        done.event_amount_in rate
        (wide x.transient_target.key done.acc.transient_target done.validated.transient_at) le
        done.guards.fee_due done.guards.net_due

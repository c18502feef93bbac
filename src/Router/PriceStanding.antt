-- ===== src/Router/PriceStanding.antt =====
-- programs/recurring-buy/src/lib.rs: `set_params`, and the price of the swaps that follow after other
-- calls.
use solana_recurring_buy.Prelude.{
  ℕ, ◌+◌, ◌-◌, ◌*◌, ◌/◌, ◌^◌, ◌<◌, ◌≡◌, sym, ◌∙◌, ap, subst, arith, some, List,
}
use solana_recurring_buy.Prelude.Int.{ℤ}
use solana_recurring_buy.Errors.{Result, ok}
use solana_recurring_buy.Word.{u64_mod}
use solana_recurring_buy.State.{Pubkey, Config}
use solana_recurring_buy.Chain.{AccountInfo, ProgramAccount, Chain, Runtime}
use solana_recurring_buy.Chain.Account.{Inv}
use solana_recurring_buy.Chain.Laws.{IsWide}
use solana_recurring_buy.Admin.{AdminOnly, set_params}
use solana_recurring_buy.Admin.Effects.{set_params_writes}
use solana_recurring_buy.Buy.{ExecuteBuy, BuyExecuted, execute_buy}
use solana_recurring_buy.Buy.Safety.{execute_buy_price}
use solana_recurring_buy.Sell.{ExecuteSell, SellExecuted, execute_sell}
use solana_recurring_buy.Sell.Safety.{execute_sell_price}
use solana_recurring_buy.Router.Invariant.{set_params-Inv}
use solana_recurring_buy.Router.Reach.{process-Inv}
use solana_recurring_buy.Router.Standing.{Calm, still, Calm-config}
use solana_recurring_buy.Router.Standing as Standing
use solana_recurring_buy.Router.Completed.{Unattended, alone, call, outside}

module _ (rt : Runtime) where
  Unattended-Inv : (admin : Pubkey) {c d : Chain} → Inv rt c → Unattended rt admin c d → Inv rt d
  Unattended-Inv admin inv alone = inv
  Unattended-Inv admin inv (call x clock e before typed timely h unsigned) =
      process-Inv rt x clock _ _ e typed timely (Unattended-Inv admin inv before) h
  Unattended-Inv admin inv (outside before kept) =
      λ k a at. Unattended-Inv admin inv before k a (rw kept at at)

  Unattended-Calm : (admin : Pubkey) {c d : Chain} → Unattended rt admin c d → Calm rt admin c d
  Unattended-Calm admin alone = still
  Unattended-Calm admin (call x clock e before typed timely h unsigned) =
      Standing.call x clock e (Unattended-Calm admin before) h unsigned
  Unattended-Calm admin (outside before kept) = Standing.outside (Unattended-Calm admin before) kept

module _ (rt : Runtime) (admin : AdminOnly) (price slip : ℕ) (cfg : Config) (c c' d : Chain)
    (inv : Inv rt c) (typed : price < u64_mod)
    (at : c.accounts admin.config.key ≡ some (ProgramAccount.config cfg))
    (set : set_params rt admin price slip c ≡ ok c') (run : Unattended rt admin.admin.key c' d)
    (wide : IsWide d.tokens) where
  -- The parameters stand on the later chain.
  params_stand :
      Inv rt d
      × (d.accounts admin.config.key
          ≡ some (
              ProgramAccount.config
                (record cfg { price_ref_micros = price; max_slippage_bps = slip })))
  params_stand =
      let (old, access, le, stored) = set_params_writes rt c admin price slip set in
      let same : old ≡ cfg = ground (arith, access.config_at, at) in
      let stands =
        Calm-config rt admin.config.key
          (record old { price_ref_micros = price; max_slippage_bps = slip }) (ground arith)
          (subst (λ a. Calm rt a c' d) (sym access.is_admin)
            (Unattended-Calm rt admin.admin.key run)) in
      (
        Unattended-Inv rt admin.admin.key (set_params-Inv rt c inv admin price slip typed set) run,
        rw (← same) stands,
      )

  -- Once the admin has set the reference price and the slippage, on a chain where the accounts of the
  -- program are well formed, and after any calls with arguments and clocks in range that the admin
  -- did not sign, every buy under that configuration that succeeds on 64-bit token amounts, and whose
  -- ideal output fits u64, gives less than two base units below what the net input is worth at that
  -- price less that slippage.
  pub set_params_protect_buys :
      (ctx : ExecuteBuy) (remaining : List AccountInfo) (min_out : ℕ) (swap_data : List ℕ)
      (d' : Chain) (event : BuyExecuted)
      → execute_buy rt ctx remaining min_out swap_data d ≡ ok (d', event)
      → ctx.config.key ≡ admin.config.key
      → (event.amount_in - event.fee) * 10 ^ cfg.target_decimals / price < u64_mod
      → (event.amount_in - event.fee) * 10 ^ cfg.target_decimals * (10_000 - slip)
        < price * (10_000 * (event.amount_out + 2))
  set_params_protect_buys ctx remaining min_out swap_data d' event h same fits =
      let (inv_d, stands) = params_stand in
      execute_buy_price rt ctx remaining min_out swap_data d d' event h _ inv_d wide
        (ap d.accounts same ∙ stands) fits

  -- Once the admin has set the reference price and the slippage, on a chain where the accounts of the
  -- program are well formed, and after any calls with arguments and clocks in range that the admin
  -- did not sign, every sell under that configuration that succeeds on 64-bit token amounts, and
  -- whose ideal output fits u64, gives less than two base units below what the net input is worth at
  -- that price less that slippage.
  pub set_params_protect_sells :
      (ctx : ExecuteSell) (remaining : List AccountInfo) (clock : Result ℤ) (min_out : ℕ)
      (swap_data : List ℕ) (d' : Chain) (event : SellExecuted)
      → execute_sell rt ctx remaining clock min_out swap_data d ≡ ok (d', event)
      → ctx.config.key ≡ admin.config.key
      → (event.amount_in - event.fee) * price / 10 ^ cfg.target_decimals < u64_mod
      → (event.amount_in - event.fee) * price * (10_000 - slip)
        < 10 ^ cfg.target_decimals * (10_000 * (event.amount_out + 2))
  set_params_protect_sells ctx remaining clock min_out swap_data d' event h same fits =
      let (inv_d, stands) = params_stand in
      execute_sell_price rt ctx remaining clock min_out swap_data d d' event h _ inv_d wide
        (ap d.accounts same ∙ stands) fits

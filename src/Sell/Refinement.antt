-- ===== src/Sell/Refinement.antt =====
-- programs/recurring-buy/src/lib.rs: the steps of a successful `execute_sell`, as one record.
use solana_recurring_buy.Prelude.{ℕ, ◌≡◌, refl, subst, arith, some, List, update}
use solana_recurring_buy.Prelude.Int.{ℤ}
use solana_recurring_buy.Errors.{Result, ok, ◌>>=◌, >>=-eq-ok, ok-injective}
use solana_recurring_buy.State.{SellPlan}
use solana_recurring_buy.Schedule.{advance}
use solana_recurring_buy.Chain.{AccountInfo, ProgramAccount, Tokens, Chain, Runtime, store}
use solana_recurring_buy.Swap.{Route, swap_and_verify}
use solana_recurring_buy.Swap.Outcome.{Swapped, swap_and_verify-Swapped, Swapped-swap_and_verify}
use solana_recurring_buy.Sell.{
  ExecuteSell, SellAccounts, SellExecuted, validate_sell, check_sell, sell_route, conclude_sell,
  execute_sell,
}
use solana_recurring_buy.Sell.Guards.{
  SellGuards, usdc_floor, check_sell-SellGuards, SellGuards-check_sell,
}
use solana_recurring_buy.Sell.Validated.{
  SellValidated, validate_sell-SellValidated, SellValidated-validate_sell,
}

module _ (rt : Runtime) (ctx : ExecuteSell) (remaining : List AccountInfo) (clock : Result ℤ)
    (min_out : ℕ) (swap_data : List ℕ) (chain : Chain) where
  pub record Sold (chain' : Chain) (event : SellExecuted) : Type 0 where
    pub acc : SellAccounts
    pub now : ℤ
    pub net : ℕ
    pub floor : ℕ
    pub plan : SellPlan
    pub validated : SellValidated rt ctx chain acc
    pub guards : SellGuards rt ctx acc clock min_out now event.fee net floor
    pub swapped :
        Swapped rt
          (sell_route rt ctx acc remaining swap_data)
          event.fee
          acc.dest_usdc.amount
          min_out
          chain.tokens
          chain'.tokens
          event.amount_out
    pub advanced : advance acc.sell_plan now ≡ ok plan
    pub accounts_set :
        chain'.accounts
        ≡ update chain.accounts ctx.sell_plan.key (some (ProgramAccount.sell_plan plan))
    pub mints_kept : chain'.mints ≡ chain.mints
    pub event_user : event.user ≡ ctx.user.key
    pub event_amount_in : event.amount_in ≡ acc.transient_target.amount
    pub event_venue : event.venue ≡ ctx.swap_program.key

  module _ (acc : SellAccounts) (valid : validate_sell rt ctx chain ≡ ok acc) (now : ℤ)
      (fee net : ℕ) (checked : check_sell rt ctx acc clock min_out ≡ ok (now, fee, net)) where
    route : Route
    route = sell_route rt ctx acc remaining swap_data

    settled :
        (tokens : Tokens) (out : ℕ) (plan : SellPlan)
        → swap_and_verify rt route fee acc.dest_usdc.amount min_out chain.tokens ≡ ok (tokens, out)
        → advance acc.sell_plan now ≡ ok plan
        → Sold
            (store ctx.sell_plan.key
              (ProgramAccount.sell_plan plan)
              (record chain { tokens = tokens }))
            (record {
              user = ctx.user.key;
              amount_in = acc.transient_target.amount;
              amount_out = out;
              fee = fee;
              venue = ctx.swap_program.key;
            })
    unfolding route
    settled tokens out plan swapped advanced = record {
      acc = acc;
      now = now;
      net = net;
      floor = usdc_floor acc net;
      plan = plan;
      validated = validate_sell-SellValidated rt ctx chain valid;
      guards = check_sell-SellGuards rt ctx acc clock min_out checked;
      swapped =
          swap_and_verify-Swapped rt route fee acc.dest_usdc.amount min_out chain.tokens tokens
            swapped;
      advanced = advanced;
      accounts_set = refl;
      mints_kept = refl;
      event_user = refl;
      event_amount_in = refl;
      event_venue = refl;
    }

    finish :
        (chain' : Chain) (event : SellExecuted) (tokens : Tokens) (out : ℕ)
        → swap_and_verify rt route fee acc.dest_usdc.amount min_out chain.tokens ≡ ok (tokens, out)
        → conclude_sell ctx acc now fee chain (tokens, out) ≡ ok (chain', event)
        → Sold chain' event
    finish chain' event tokens out swapped h =
        let (plan, advanced, e) = >>=-eq-ok (advance acc.sell_plan now) _ h in
        subst (λ x. Sold x.0 x.1) (ok-injective e) (settled tokens out plan swapped advanced)

    finish_swap :
        (chain' : Chain) (event : SellExecuted)
        → (swap_and_verify rt route fee acc.dest_usdc.amount min_out chain.tokens
            >>= conclude_sell ctx acc now fee chain)
          ≡ ok (chain', event)
        → Sold chain' event
    finish_swap chain' event h =
        let ((tokens, out), swapped, r) =
          >>=-eq-ok (swap_and_verify rt route fee acc.dest_usdc.amount min_out chain.tokens) _ h in
        finish chain' event tokens out swapped r

  pub execute_sell-Sold :
      (chain' : Chain) (event : SellExecuted)
      → execute_sell rt ctx remaining clock min_out swap_data chain ≡ ok (chain', event)
      → Sold chain' event
  unfolding execute_sell route
  execute_sell-Sold chain' event h =
      let (acc, valid, r1) = >>=-eq-ok (validate_sell rt ctx chain) _ h in
      let ((now, fee, net), checked, r2) = >>=-eq-ok (check_sell rt ctx acc clock min_out) _ r1 in
      finish_swap acc valid now fee net checked chain' event r2

  pub Sold-execute_sell :
      (chain' : Chain) (event : SellExecuted)
      → Sold chain' event
      → execute_sell rt ctx remaining clock min_out swap_data chain ≡ ok (chain', event)
  unfolding execute_sell
  Sold-execute_sell chain' event b =
      rw
        (
          SellValidated-validate_sell rt ctx chain b.validated,
          SellGuards-check_sell rt ctx b.acc clock min_out b.guards,
          Swapped-swap_and_verify rt _ _ _ _ _ _ b.swapped,
          b.advanced,
        )
        (ground arith)

-- ===== src/Buy/Refinement.antt =====
-- programs/recurring-buy/src/lib.rs: the steps of a successful `execute_buy`, as one record.
use solana_recurring_buy.Prelude.{ℕ, ◌≡◌, refl, subst, arith, List}
use solana_recurring_buy.Errors.{ok, ◌>>=◌, >>=-eq-ok, ok-injective}
use solana_recurring_buy.Chain.{AccountInfo, Tokens, Chain, Runtime}
use solana_recurring_buy.Swap.{Route, swap_and_verify}
use solana_recurring_buy.Swap.Outcome.{Swapped, swap_and_verify-Swapped, Swapped-swap_and_verify}
use solana_recurring_buy.Buy.{
  ExecuteBuy, BuyAccounts, BuyExecuted, validate_buy, check_buy, buy_route, conclude_buy,
  execute_buy,
}
use solana_recurring_buy.Buy.Guards.{BuyGuards, buy_floor, check_buy-BuyGuards, BuyGuards-check_buy}
use solana_recurring_buy.Buy.Validated.{
  BuyValidated, validate_buy-BuyValidated, BuyValidated-validate_buy,
}

module _ (rt : Runtime) (ctx : ExecuteBuy) (remaining : List AccountInfo) (min_out : ℕ)
    (swap_data : List ℕ) (chain : Chain) where
  pub record Bought (chain' : Chain) (event : BuyExecuted) : Type 0 where
    pub acc : BuyAccounts
    pub net : ℕ
    pub floor : ℕ
    pub validated : BuyValidated rt ctx chain acc
    pub guards : BuyGuards rt ctx acc min_out event.fee net floor
    pub swapped :
        Swapped rt
          (buy_route rt ctx acc remaining swap_data)
          event.fee
          acc.dest_ata.amount
          min_out
          chain.tokens
          chain'.tokens
          event.amount_out
    pub accounts_kept : chain'.accounts ≡ chain.accounts
    pub mints_kept : chain'.mints ≡ chain.mints
    pub event_user : event.user ≡ ctx.user.key
    pub event_amount_in : event.amount_in ≡ acc.transient_usdc.amount
    pub event_venue : event.venue ≡ ctx.swap_program.key

  module _ (acc : BuyAccounts) (valid : validate_buy rt ctx chain ≡ ok acc) where
    route : Route
    route = buy_route rt ctx acc remaining swap_data

    settled :
        (fee net : ℕ) (tokens : Tokens) (out : ℕ)
        → check_buy rt ctx acc min_out ≡ ok (fee, net)
        → swap_and_verify rt route fee acc.dest_ata.amount min_out chain.tokens ≡ ok (tokens, out)
        → Bought
            (record chain { tokens = tokens })
            (record {
              user = ctx.user.key;
              amount_in = acc.transient_usdc.amount;
              amount_out = out;
              fee = fee;
              venue = ctx.swap_program.key;
            })
    unfolding route
    settled fee net tokens out checked swapped = record {
      acc = acc;
      net = net;
      floor = buy_floor acc net;
      validated = validate_buy-BuyValidated rt ctx chain valid;
      guards = check_buy-BuyGuards rt ctx acc min_out checked;
      swapped =
          swap_and_verify-Swapped rt route fee acc.dest_ata.amount min_out chain.tokens tokens
            swapped;
      accounts_kept = refl;
      mints_kept = refl;
      event_user = refl;
      event_amount_in = refl;
      event_venue = refl;
    }

    finish :
        (chain' : Chain) (event : BuyExecuted) (fee net : ℕ)
        → check_buy rt ctx acc min_out ≡ ok (fee, net)
        → (swap_and_verify rt route fee acc.dest_ata.amount min_out chain.tokens
            >>= conclude_buy ctx acc fee chain)
          ≡ ok (chain', event)
        → Bought chain' event
    finish chain' event fee net checked h =
        let ((tokens, out), swapped, e) =
          >>=-eq-ok (swap_and_verify rt route fee acc.dest_ata.amount min_out chain.tokens) _ h in
        subst (λ x. Bought x.0 x.1) (ok-injective e) (settled fee net tokens out checked swapped)

  pub execute_buy-Bought :
      (chain' : Chain) (event : BuyExecuted)
      → execute_buy rt ctx remaining min_out swap_data chain ≡ ok (chain', event)
      → Bought chain' event
  unfolding execute_buy route
  execute_buy-Bought chain' event h =
      let (acc, valid, r1) = >>=-eq-ok (validate_buy rt ctx chain) _ h in
      let ((fee, net), checked, r2) = >>=-eq-ok (check_buy rt ctx acc min_out) _ r1 in
      finish acc valid chain' event fee net checked r2

  pub Bought-execute_buy :
      (chain' : Chain) (event : BuyExecuted)
      → Bought chain' event
      → execute_buy rt ctx remaining min_out swap_data chain ≡ ok (chain', event)
  unfolding execute_buy
  Bought-execute_buy chain' event b =
      rw
        (
          BuyValidated-validate_buy rt ctx chain b.validated,
          BuyGuards-check_buy rt ctx b.acc min_out b.guards,
          Swapped-swap_and_verify rt _ _ _ _ _ _ b.swapped,
        )
        (ground arith)

-- ===== src/Examples/Panics.antt =====
-- The theorem on panics, applied to a sell with the ledger and the venue of Examples/Ledger.
use solana_recurring_buy.Prelude.{ℕ, ◌≢◌, arith, List, [], ◌∷◌}
use solana_recurring_buy.Errors.{err, panicked}
use solana_recurring_buy.Chain.{AccountMeta, Tokens, Seed, bytes, Transfer}
use solana_recurring_buy.MockSwap.{pool_seed, MockAccounts, validate_swap, swap}
use solana_recurring_buy.Router.{Call, process}
use solana_recurring_buy.Router.Panics.{process_safe}
use solana_recurring_buy.Router.Panics.Execute.{ReturnsErrors, bind_safe}
use solana_recurring_buy.Examples.Ledger.{ledger_transfer, mock_runtime, venue_swap, runtime}
use solana_recurring_buy.Examples.Calls.{pay_in, pay_out}
use solana_recurring_buy.Examples.World.{chain, chain-Inv, tokens-IsWide, sell_ctx, sell_accounts}
use solana_recurring_buy.Examples.Draws.{sell_data, clock, clock-IsTime}

ledger_transfer_safe :
    (t : Transfer) (seeds : List (List Seed)) (n : ℕ) (ts : Tokens)
    → ledger_transfer t seeds n ts ≢ err panicked
ledger_transfer_safe t seeds n ts h = ground arith

validate_swap_safe :
    (ctx : MockAccounts) (ts : Tokens) → validate_swap mock_runtime ctx ts ≢ err panicked
unfolding validate_swap
validate_swap_safe ctx ts h = ground arith

swap_safe :
    (ctx : MockAccounts) (amount_in out_amount : ℕ) (ts : Tokens)
    → swap mock_runtime ctx amount_in out_amount ts ≢ err panicked
unfolding swap
swap_safe ctx amount_in out_amount ts =
    bind_safe (validate_swap mock_runtime ctx ts) _ (validate_swap_safe ctx ts) (λ bump e.
      bind_safe (ledger_transfer (pay_in ctx) [] amount_in ts) _
        (ledger_transfer_safe (pay_in ctx) [] amount_in ts)
        (λ paid e'.
          ledger_transfer_safe (pay_out ctx) ((bytes pool_seed ∷ bytes (bump ∷ []) ∷ []) ∷ [])
            out_amount paid))

venue_swap_safe :
    (ms : List AccountMeta) (swap_data : List ℕ) (ts : Tokens)
    → venue_swap ms swap_data ts ≢ err panicked
venue_swap_safe (m0 ∷ m1 ∷ m2 ∷ m3 ∷ m4 ∷ m5 ∷ m6 ∷ []) (x ∷ y ∷ []) ts = swap_safe _ x y ts
venue_swap_safe _ _ ts = λ h. ground arith

runtime-ReturnsErrors : ReturnsErrors runtime
runtime-ReturnsErrors = record {
  transfer_fails = ledger_transfer_safe;
  call_fails = λ ix infos seeds ts. venue_swap_safe ix.accounts ix.swap_data ts;
}

process_safe_example :
    process runtime (Call.execute_sell sell_ctx sell_accounts 9_900_000 sell_data) clock chain
    ≢ err panicked
process_safe_example =
    process_safe runtime chain clock chain-Inv tokens-IsWide clock-IsTime (λ h. ground arith)
      runtime-ReturnsErrors (Call.execute_sell sell_ctx sell_accounts 9_900_000 sell_data)

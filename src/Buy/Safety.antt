-- ===== src/Buy/Safety.antt =====
-- programs/recurring-buy/src/lib.rs: what a successful `execute_buy` means to the user.
use solana_recurring_buy.Prelude.{ℕ, ◌+◌, ◌-◌, ◌*◌, ◌/◌, ◌^◌, ◌<◌, ◌≡◌, ◌≢◌, some, List}
use solana_recurring_buy.Errors.{ok}
use solana_recurring_buy.Word.{u64_mod}
use solana_recurring_buy.State.{Pubkey, Config}
use solana_recurring_buy.Chain.{AccountInfo, TokenAccount, ProgramAccount, Tokens, Chain, Runtime}
use solana_recurring_buy.Chain.Laws.{balance, IsWide, TransferLaws, CallLaws}
use solana_recurring_buy.Chain.Account.{Inv}
use solana_recurring_buy.Swap.{Route, invoke_venue}
use solana_recurring_buy.Swap.Custody.{Swapped-custody}
use solana_recurring_buy.Swap.Signers.{CanSpend}
use solana_recurring_buy.Buy.{ExecuteBuy, BuyExecuted, buy_route, execute_buy}
use solana_recurring_buy.Buy.Refinement.{execute_buy-Bought}
use solana_recurring_buy.Buy.Delivery.{Delivered, Bought-Delivered, Bought-Skimmed, price_parts}

module _ (rt : Runtime) (ctx : ExecuteBuy) (remaining : List AccountInfo) (min_out : ℕ)
    (swap_data : List ℕ) (chain chain' : Chain) (event : BuyExecuted)
    (h : execute_buy rt ctx remaining min_out swap_data chain ≡ ok (chain', event)) where
  -- When every account of the program is well formed and token amounts are 64-bit, a buy that
  -- succeeds has emptied the transient account of the amount that the event reports, has added
  -- what the event reports, at least `min_out`, to the user's canonical account for the target
  -- mint, and has charged a fee of at most a hundredth of the input, less than all of it.
  pub execute_buy_delivers :
      Inv rt chain
      → IsWide chain.tokens
      → Delivered rt ctx remaining min_out swap_data chain chain' event
  execute_buy_delivers inv wide =
      Bought-Delivered rt ctx remaining min_out swap_data chain chain' event inv wide
        (execute_buy-Bought rt ctx remaining min_out swap_data chain chain' event h)

  -- When every account of the program is well formed, token amounts are 64-bit and the ideal output
  -- at the reference price fits u64, the output of a successful buy is less than two base units below
  -- the value of the net input at the reference price less the slippage band.
  pub execute_buy_price :
      (cfg : Config)
      → Inv rt chain
      → IsWide chain.tokens
      → chain.accounts ctx.config.key ≡ some (ProgramAccount.config cfg)
      → (event.amount_in - event.fee) * 10 ^ cfg.target_decimals / cfg.price_ref_micros < u64_mod
      → (event.amount_in - event.fee) * 10 ^ cfg.target_decimals * (10_000 - cfg.max_slippage_bps)
        < cfg.price_ref_micros * (10_000 * (event.amount_out + 2))
  execute_buy_price cfg inv wide at fits =
      price_parts rt ctx remaining min_out swap_data chain chain' event inv wide
        (execute_buy-Bought rt ctx remaining min_out swap_data chain chain' event h) cfg at fits

  -- Given the rules of token transfers, well-formed accounts, 64-bit amounts, and a fee account
  -- other than the transient, a successful buy has called the venue of the caller's choice, with the
  -- caller's accounts and data, at a moment when the transient held exactly the input less the fee
  -- and the fee account had been credited by exactly the fee.
  pub execute_buy_skims :
      TransferLaws rt
      → Inv rt chain
      → IsWide chain.tokens
      → ctx.transient_usdc.key ≢ ctx.fee_ata.key
      → (skimmed : Tokens) × (route : Route) × (route.swap_program ≡ ctx.swap_program)
        × (route.remaining_accounts ≡ remaining)
        × (route.swap_data ≡ swap_data)
        × (invoke_venue rt route skimmed ≡ ok chain'.tokens)
        × (balance skimmed ctx.transient_usdc.key ≡ event.amount_in - event.fee)
        × (balance skimmed ctx.fee_ata.key ≡ balance chain.tokens ctx.fee_ata.key + event.fee)
  execute_buy_skims laws inv wide apart =
      Bought-Skimmed rt ctx remaining min_out swap_data chain chain' event inv wide
        (execute_buy-Bought rt ctx remaining min_out swap_data chain chain' event h) laws apart

  -- Given the rules of the token program and of cross-program calls, a token account other than the
  -- transient has lost tokens in a successful buy only if its owner or delegate is the user's
  -- transient PDA, signed the transaction among the remaining accounts, or is an address for which
  -- the called programs sign themselves: nothing else of a user who does not sign can be taken.
  pub execute_buy_custody :
      (foreign : Pubkey → Type 0) (k : Pubkey) (a : TokenAccount)
      → TransferLaws rt
      → CallLaws rt foreign
      → k ≢ ctx.transient_usdc.key
      → chain.tokens k ≡ some a
      → balance chain'.tokens k < a.amount
      → CanSpend foreign ctx.buy_authority.key remaining a
  execute_buy_custody foreign k a laws calls apart at less =
      let b = execute_buy-Bought rt ctx remaining min_out swap_data chain chain' event h in
      Swapped-custody rt foreign (buy_route rt ctx b.acc remaining swap_data) event.fee _ min_out
        chain.tokens chain'.tokens event.amount_out k a laws calls b.swapped apart at less

-- ===== src/Sell/Safety.antt =====
-- programs/recurring-buy/src/lib.rs: what a successful `execute_sell` means to the user.
use solana_recurring_buy.Prelude.{ℕ, ◌+◌, ◌-◌, ◌*◌, ◌/◌, ◌^◌, ◌<◌, ◌≡◌, ◌≢◌, some, List}
use solana_recurring_buy.Prelude.Int.{ℤ}
use solana_recurring_buy.Errors.{Result, ok}
use solana_recurring_buy.Word.{u64_mod}
use solana_recurring_buy.State.{Pubkey, Config}
use solana_recurring_buy.Chain.{AccountInfo, TokenAccount, ProgramAccount, Tokens, Chain, Runtime}
use solana_recurring_buy.Chain.Laws.{balance, IsWide, TransferLaws, CallLaws}
use solana_recurring_buy.Chain.Account.{Inv}
use solana_recurring_buy.Swap.{Route, invoke_venue}
use solana_recurring_buy.Swap.Custody.{Swapped-custody}
use solana_recurring_buy.Swap.Signers.{CanSpend}
use solana_recurring_buy.Sell.{ExecuteSell, SellExecuted, sell_route, execute_sell}
use solana_recurring_buy.Sell.Refinement.{execute_sell-Sold}
use solana_recurring_buy.Sell.Delivery.{Delivered, Sold-Delivered, Sold-Skimmed, price_parts}

module _ (rt : Runtime) (ctx : ExecuteSell) (remaining : List AccountInfo) (clock : Result ℤ)
    (min_out : ℕ) (swap_data : List ℕ) (chain chain' : Chain) (event : SellExecuted)
    (h : execute_sell rt ctx remaining clock min_out swap_data chain ≡ ok (chain', event)) where
  -- When every account of the program is well formed and token amounts are 64-bit, a sell that
  -- succeeds has emptied the transient account of the amount that the event reports, has added
  -- what the event reports, at least `min_out`, to the user's canonical USDC
  -- account, and has charged a fee of at most a hundredth of the input, less than all of it.
  pub execute_sell_delivers :
      Inv rt chain
      → IsWide chain.tokens
      → Delivered rt ctx remaining clock min_out swap_data chain chain' event
  execute_sell_delivers inv wide =
      Sold-Delivered rt ctx remaining clock min_out swap_data chain chain' event inv wide
        (execute_sell-Sold rt ctx remaining clock min_out swap_data chain chain' event h)

  -- When every account of the program is well formed, token amounts are 64-bit and the ideal output
  -- at the reference price fits u64, the output of a successful sell is less than two base units below
  -- the value of the net input at the reference price less the slippage band.
  pub execute_sell_price :
      (cfg : Config)
      → Inv rt chain
      → IsWide chain.tokens
      → chain.accounts ctx.config.key ≡ some (ProgramAccount.config cfg)
      → (event.amount_in - event.fee) * cfg.price_ref_micros / 10 ^ cfg.target_decimals < u64_mod
      → (event.amount_in - event.fee) * cfg.price_ref_micros * (10_000 - cfg.max_slippage_bps)
        < 10 ^ cfg.target_decimals * (10_000 * (event.amount_out + 2))
  execute_sell_price cfg inv wide at fits =
      price_parts rt ctx remaining clock min_out swap_data chain chain' event inv wide
        (execute_sell-Sold rt ctx remaining clock min_out swap_data chain chain' event h) cfg at
        fits

  -- Given the rules of token transfers, well-formed accounts, 64-bit amounts, and a fee account
  -- other than the transient, a successful sell has called the venue of the caller's choice, with the
  -- caller's accounts and data, at a moment when the transient held exactly the input less the fee
  -- and the fee account had been credited by exactly the fee.
  pub execute_sell_skims :
      TransferLaws rt
      → Inv rt chain
      → IsWide chain.tokens
      → ctx.transient_target.key ≢ ctx.fee_ata.key
      → (skimmed : Tokens) × (route : Route) × (route.swap_program ≡ ctx.swap_program)
        × (route.remaining_accounts ≡ remaining)
        × (route.swap_data ≡ swap_data)
        × (invoke_venue rt route skimmed ≡ ok chain'.tokens)
        × (balance skimmed ctx.transient_target.key ≡ event.amount_in - event.fee)
        × (balance skimmed ctx.fee_ata.key ≡ balance chain.tokens ctx.fee_ata.key + event.fee)
  execute_sell_skims laws inv wide apart =
      Sold-Skimmed rt ctx remaining clock min_out swap_data chain chain' event inv wide
        (execute_sell-Sold rt ctx remaining clock min_out swap_data chain chain' event h) laws apart

  -- Given the rules of the token program and of cross-program calls, a token account other than the
  -- transient has lost tokens in a successful sell only if its owner or delegate is the user's
  -- transient PDA, signed the transaction among the remaining accounts, or is an address for which
  -- the called programs sign themselves: nothing else of a user who does not sign can be taken.
  pub execute_sell_custody :
      (foreign : Pubkey → Type 0) (k : Pubkey) (a : TokenAccount)
      → TransferLaws rt
      → CallLaws rt foreign
      → k ≢ ctx.transient_target.key
      → chain.tokens k ≡ some a
      → balance chain'.tokens k < a.amount
      → CanSpend foreign ctx.buy_authority.key remaining a
  execute_sell_custody foreign k a laws calls apart at less =
      let b = execute_sell-Sold rt ctx remaining clock min_out swap_data chain chain' event h in
      Swapped-custody rt foreign (sell_route rt ctx b.acc remaining swap_data) event.fee _ min_out
        chain.tokens chain'.tokens event.amount_out k a laws calls b.swapped apart at less

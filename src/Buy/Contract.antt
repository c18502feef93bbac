-- ===== src/Buy/Contract.antt =====
-- programs/recurring-buy/src/lib.rs: what `execute_buy` promises, in terms of the accounts, the numbers
-- and the runtime, and that it does exactly that.
use solana_recurring_buy.Prelude.{ℕ, ◌≡◌, ◌↔◌, List}
use solana_recurring_buy.Errors.{ok}
use solana_recurring_buy.Chain.{AccountInfo, Chain, Runtime}
use solana_recurring_buy.Chain.Account.{Inv}
use solana_recurring_buy.Chain.Laws.{IsWide}
use solana_recurring_buy.Swap.{Route}
use solana_recurring_buy.Swap.Contract.{SwapContract, Swapped-SwapContract, SwapContract-Swapped}
use solana_recurring_buy.Buy.{ExecuteBuy, BuyAccounts, BuyExecuted, execute_buy}
use solana_recurring_buy.Buy.Validated.{BuyValidated}
use solana_recurring_buy.Buy.Refinement.{Bought, execute_buy-Bought, Bought-execute_buy}
use solana_recurring_buy.Buy.Terms.{BuyTerms, BuyGuards-BuyTerms, BuyTerms-BuyGuards}

-- The swap of a buy: what it takes the input from, where output and fee go, and what the caller passes.
abbrev pub buy_swap : ExecuteBuy → BuyAccounts → List AccountInfo → List ℕ → Route
buy_swap ctx acc remaining swap_data = record {
  user = ctx.user.key;
  buy_authority = ctx.buy_authority;
  bump = acc.bump;
  transient = ctx.transient_usdc;
  dest = ctx.dest_ata;
  fee_ata = ctx.fee_ata;
  swap_program = ctx.swap_program;
  remaining_accounts = remaining;
  swap_data = swap_data;
}

module _ (rt : Runtime) (ctx : ExecuteBuy) (remaining : List AccountInfo) (min_out : ℕ)
    (swap_data : List ℕ) (chain : Chain) where
  -- The accounts, the terms, what happens to the tokens, what stays, and what is reported.
  pub record BuyContract (chain' : Chain) (event : BuyExecuted) : Type 0 where
    pub acc : BuyAccounts
    pub validated : BuyValidated rt ctx chain acc
    pub terms : BuyTerms rt ctx acc min_out event.fee
    pub tokens :
        SwapContract rt
          (buy_swap ctx acc remaining swap_data)
          event.fee
          acc.dest_ata.amount
          min_out
          chain.tokens
          chain'.tokens
          event.amount_out
    pub accounts_kept : chain'.accounts ≡ chain.accounts
    pub mints_kept : chain'.mints ≡ chain.mints
    pub event_user : event.user ≡ ctx.user.key
    pub event_amount_in : event.amount_in ≡ acc.transient_usdc.amount
    pub event_venue : event.venue ≡ ctx.swap_program.key

  module _ (inv : Inv rt chain) (wide : IsWide chain.tokens) (chain' : Chain)
      (event : BuyExecuted) where
    pub Bought-BuyContract :
        Bought rt ctx remaining min_out swap_data chain chain' event → BuyContract chain' event
    Bought-BuyContract b = record {
      acc = b.acc;
      validated = b.validated;
      terms =
          BuyGuards-BuyTerms rt ctx b.acc min_out event.fee (inv _ _ b.validated.config_at).1
            (inv _ _ b.validated.fee_config_at).1 (wide _ _ b.validated.transient_at) b.net b.floor
            b.guards;
      tokens = Swapped-SwapContract rt _ _ _ _ _ _ _ b.swapped;
      accounts_kept = b.accounts_kept;
      mints_kept = b.mints_kept;
      event_user = b.event_user;
      event_amount_in = b.event_amount_in;
      event_venue = b.event_venue;
    }

    pub BuyContract-Bought :
        BuyContract chain' event → Bought rt ctx remaining min_out swap_data chain chain' event
    BuyContract-Bought b = record {
      acc = b.acc;
      net = _;
      floor = _;
      validated = b.validated;
      guards =
          BuyTerms-BuyGuards rt ctx b.acc min_out event.fee (inv _ _ b.validated.config_at).1
            (inv _ _ b.validated.fee_config_at).1 (wide _ _ b.validated.transient_at) b.terms;
      swapped = SwapContract-Swapped rt _ _ _ _ _ _ _ b.tokens;
      accounts_kept = b.accounts_kept;
      mints_kept = b.mints_kept;
      event_user = b.event_user;
      event_amount_in = b.event_amount_in;
      event_venue = b.event_venue;
    }

    -- When the accounts of the program are well formed and token amounts are 64-bit, `execute_buy`
    -- returns a chain and an event exactly when they meet its contract. The accounts that were
    -- passed are valid; the router is not paused; source, destination and fee account are the
    -- canonical ones, the first two of the configured mints; the input is not nothing; the venue is
    -- listed; the fee is the configured share of the input, rounded down; and `min_out` is at least
    -- the value of the rest at the reference price less the slippage, in 64 bits. A fee that is not
    -- zero is transferred to the fee account, the venue is called with the caller's accounts and
    -- data, each account signing as the caller passed it but for the transient PDA, which signs, and
    -- afterwards the transient account is empty and the destination has gained the output that the
    -- event reports, `min_out` or more. Nothing else of the chain changes, and the event reports the
    -- user, the input, the fee and the venue.
    pub execute_buy_refines :
        (execute_buy rt ctx remaining min_out swap_data chain ≡ ok (chain', event))
        ↔ BuyContract chain' event
    execute_buy_refines = (
      λ h.
          Bought-BuyContract
            (execute_buy-Bought rt ctx remaining min_out swap_data chain chain' event h),
      λ b.
          Bought-execute_buy rt ctx remaining min_out swap_data chain chain' event
            (BuyContract-Bought b),
    )

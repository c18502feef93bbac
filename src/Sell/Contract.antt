-- ===== src/Sell/Contract.antt =====
-- programs/recurring-buy/src/lib.rs: what `execute_sell` promises, in terms of the accounts, the
-- numbers and the runtime, and that it does exactly that.
use solana_recurring_buy.Prelude.{ℕ, ◌≡◌, ◌↔◌, some, List, update}
use solana_recurring_buy.Prelude.Int.{ℤ}
use solana_recurring_buy.Errors.{Result, ok}
use solana_recurring_buy.State.{SellPlan}
use solana_recurring_buy.State.Valid.{IsTime}
use solana_recurring_buy.Schedule.Gate.{Jumped, advance-Jumped, Jumped-advance}
use solana_recurring_buy.Chain.{AccountInfo, ProgramAccount, Chain, Runtime}
use solana_recurring_buy.Chain.Account.{Inv}
use solana_recurring_buy.Chain.Clock.{IsClock}
use solana_recurring_buy.Chain.Laws.{IsWide}
use solana_recurring_buy.Swap.{Route}
use solana_recurring_buy.Swap.Contract.{SwapContract, Swapped-SwapContract, SwapContract-Swapped}
use solana_recurring_buy.Sell.{ExecuteSell, SellAccounts, SellExecuted, execute_sell}
use solana_recurring_buy.Sell.Validated.{SellValidated}
use solana_recurring_buy.Sell.Refinement.{Sold, execute_sell-Sold, Sold-execute_sell}
use solana_recurring_buy.Sell.Terms.{SellTerms, SellGuards-SellTerms, SellTerms-SellGuards}

-- The swap of a sell: what it takes the input from, where output and fee go, and what the caller
-- passes.
abbrev pub sell_swap : ExecuteSell → SellAccounts → List AccountInfo → List ℕ → Route
sell_swap ctx acc remaining swap_data = record {
  user = ctx.user.key;
  buy_authority = ctx.buy_authority;
  bump = acc.bump;
  transient = ctx.transient_target;
  dest = ctx.dest_usdc;
  fee_ata = ctx.fee_ata;
  swap_program = ctx.swap_program;
  remaining_accounts = remaining;
  swap_data = swap_data;
}

module _ (rt : Runtime) (ctx : ExecuteSell) (remaining : List AccountInfo) (clock : Result ℤ)
    (min_out : ℕ) (swap_data : List ℕ) (chain : Chain) where
  -- The accounts, the terms, what happens to the tokens and to the plan, what stays, and what is
  -- reported.
  pub record SellContract (chain' : Chain) (event : SellExecuted) : Type 0 where
    pub acc : SellAccounts
    pub now : ℤ
    pub plan : SellPlan
    pub validated : SellValidated rt ctx chain acc
    pub terms : SellTerms rt ctx acc clock min_out now event.fee
    pub tokens :
        SwapContract rt
          (sell_swap ctx acc remaining swap_data)
          event.fee
          acc.dest_usdc.amount
          min_out
          chain.tokens
          chain'.tokens
          event.amount_out
    pub jumped : Jumped acc.sell_plan now plan
    pub accounts_set :
        chain'.accounts
        ≡ update chain.accounts ctx.sell_plan.key (some (ProgramAccount.sell_plan plan))
    pub mints_kept : chain'.mints ≡ chain.mints
    pub event_user : event.user ≡ ctx.user.key
    pub event_amount_in : event.amount_in ≡ acc.transient_target.amount
    pub event_venue : event.venue ≡ ctx.swap_program.key

  module _ (inv : Inv rt chain) (wide : IsWide chain.tokens) (timely : IsClock clock)
      (chain' : Chain) (event : SellExecuted) where
    pub Sold-SellContract :
        Sold rt ctx remaining clock min_out swap_data chain chain' event → SellContract chain' event
    Sold-SellContract b =
        let t : IsTime b.now = rw b.guards.clock_read at timely in
        let pv = (inv _ _ b.validated.sell_plan_at).1 in
        record {
          acc = b.acc;
          now = b.now;
          plan = b.plan;
          validated = b.validated;
          terms =
              SellGuards-SellTerms rt ctx b.acc clock min_out b.now event.fee
                (inv _ _ b.validated.config_at).1 (inv _ _ b.validated.fee_config_at).1 pv t
                (wide _ _ b.validated.transient_at) (wide _ _ b.validated.pot_at) b.net b.floor
                b.guards;
          tokens = Swapped-SwapContract rt _ _ _ _ _ _ _ b.swapped;
          jumped = advance-Jumped b.acc.sell_plan b.now pv t b.guards.due b.plan b.advanced;
          accounts_set = b.accounts_set;
          mints_kept = b.mints_kept;
          event_user = b.event_user;
          event_amount_in = b.event_amount_in;
          event_venue = b.event_venue;
        }

    pub SellContract-Sold :
        SellContract chain' event → Sold rt ctx remaining clock min_out swap_data chain chain' event
    SellContract-Sold b =
        let t : IsTime b.now = rw b.terms.clock_read at timely in
        let pv = (inv _ _ b.validated.sell_plan_at).1 in
        record {
          acc = b.acc;
          now = b.now;
          net = _;
          floor = _;
          plan = b.plan;
          validated = b.validated;
          guards =
              SellTerms-SellGuards rt ctx b.acc clock min_out b.now event.fee
                (inv _ _ b.validated.config_at).1 (inv _ _ b.validated.fee_config_at).1 pv t
                (wide _ _ b.validated.transient_at) (wide _ _ b.validated.pot_at) b.terms;
          swapped = SwapContract-Swapped rt _ _ _ _ _ _ _ b.tokens;
          advanced = Jumped-advance b.acc.sell_plan b.now b.plan pv t b.terms.due b.jumped;
          accounts_set = b.accounts_set;
          mints_kept = b.mints_kept;
          event_user = b.event_user;
          event_amount_in = b.event_amount_in;
          event_venue = b.event_venue;
        }

    -- When the accounts of the program are well formed, token amounts are 64-bit and a clock that
    -- can be read shows a time in range, `execute_sell` returns a chain and an event exactly when
    -- they meet its contract. The accounts that were passed are valid; the router is not paused; the
    -- plan is not complete and is due; source, destination, pot and fee account are the canonical
    -- ones; the draw is not nothing and, taken once for each period left, is covered by the wallet
    -- and the draw; the venue is listed; the fee is the configured share of the input, rounded down;
    -- and the value of the rest at the reference price less the slippage fits the arithmetic and is,
    -- in 64 bits, at most `min_out`. A fee that is not zero is transferred to the fee account, the
    -- venue is called with the caller's accounts and data, each account signing as the caller passed
    -- it but for the transient PDA, which signs, and afterwards the transient account is empty and
    -- the destination has gained the output that the event reports, `min_out` or more. The gate of
    -- the plan moves to the first point of its grid after the time, nothing else of the chain
    -- changes, and the event reports the user, the input, the fee and the venue.
    pub execute_sell_refines :
        (execute_sell rt ctx remaining clock min_out swap_data chain ≡ ok (chain', event))
        ↔ SellContract chain' event
    execute_sell_refines = (
      λ h.
          Sold-SellContract
            (execute_sell-Sold rt ctx remaining clock min_out swap_data chain chain' event h),
      λ b.
          Sold-execute_sell rt ctx remaining clock min_out swap_data chain chain' event
            (SellContract-Sold b),
    )

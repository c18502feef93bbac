-- ===== src/Keeper/BuyTransaction.antt =====
-- The whole of `crankBuy` in keeper/native/daemon.mjs, with the call of `execute_buy`
-- (programs/recurring-buy/src/lib.rs) that ends its transaction.
use solana_recurring_buy.Prelude.{ℕ, ◌≤◌, ◌<◌, ◌≡◌, ◌∙◌, ap, arith, false, ◌+◌, List, [], ◌∷◌}
use solana_recurring_buy.Prelude.Int.{ℤ, pos, ◌<ℤ◌, leb_ℤ}
use solana_recurring_buy.Errors.{◌>>=◌}
use solana_recurring_buy.Word.{u64_mod}
use solana_recurring_buy.State.{Pubkey, Config, FeeConfig}
use solana_recurring_buy.Chain.{ProgramAccount, Chain, Runtime}
use solana_recurring_buy.Chain.Account.{Inv}
use solana_recurring_buy.Chain.Laws.{AddressLaws}
use solana_recurring_buy.Swap.{swap_and_verify}
use solana_recurring_buy.Buy.{buy_route, conclude_buy, execute_buy}
use solana_recurring_buy.Keeper.{Fixtures, Client, Delegation, FeeView, Ix, sent}
use solana_recurring_buy.Keeper.Amounts.{available, floor_out}
use solana_recurring_buy.Keeper.Daemon.{fee_config_pda, ata}
use solana_recurring_buy.Keeper.Cranks.{
  buy_accounts, buy_leg, buy_ix, create_transient, pull_to_transient, crank_buy,
}
use solana_recurring_buy.Keeper.Values.{bal_nonneg, sum_pos}
use solana_recurring_buy.Keeper.Accepted.{Serves, Agreed, amounts_agree}
use solana_recurring_buy.Keeper.Buys.{BuyLanded, buy_call, buy_read, keeper_buy_passes}

-- What the daemon sends.
abbrev pub buy_transaction :
    Runtime
    → Fixtures
    → Client
    → (keeper : Pubkey) → Delegation
    → ℤ
    → Pubkey
    → FeeView
    → ℕ
    → ℕ
    → List Ix
buy_transaction rt f client keeper del now event_authority view net min_out =
    create_transient rt f del.delegator f.usdc
    ∷ Ix.create_ata (ata rt del.delegator f.target) del.delegator f.target
    ∷ pull_to_transient rt f client del keeper event_authority f.usdc (available del now)
    ∷ buy_call rt f keeper del.delegator view (pos net) (pos min_out)
    ∷ []

-- The daemon sends that transaction, and its last instruction passes every check of the program:
-- what `execute_buy` returns is what the swap returns.
abbrev pub BuyAccepted :
    (rt : Runtime) (f : Fixtures) (client : Client) (keeper : Pubkey) (del : Delegation) (now : ℤ)
    (event_authority : Pubkey) (view : FeeView) (c : Chain) (cfg : Config) (fc : FeeConfig)
    → BuyLanded rt f client del now fc c
    → Type 0
BuyAccepted rt f client keeper del now event_authority view c cfg fc landed =
    (fee net min_out : ℕ) × (min_out < u64_mod)
    × (min_out ≤ net)
    × (net + fee ≡ landed.transient.amount)
    × (crank_buy rt f client keeper del now event_authority view
        ≡ sent (buy_transaction rt f client keeper del now event_authority view net min_out))
    × (execute_buy rt (buy_accounts rt f keeper del.delegator view)
          (buy_leg rt f del.delegator (pos net)).accounts min_out
          (buy_leg rt f del.delegator (pos net)).data_bytes c
        ≡ (swap_and_verify rt
              (buy_route rt (buy_accounts rt f keeper del.delegator view)
                (buy_read rt f client del now cfg fc landed)
                (buy_leg rt f del.delegator (pos net)).accounts
                (buy_leg rt f del.delegator (pos net)).data_bytes)
              fee landed.dest.amount min_out c.tokens
            >>= conclude_buy (buy_accounts rt f keeper del.delegator view)
                (buy_read rt f client del now cfg fc landed) fee c))

module _ (rt : Runtime) (f : Fixtures) (client : Client) (keeper : Pubkey) (del : Delegation)
    (now : ℤ) (event_authority : Pubkey) (view : FeeView) (c : Chain) (cfg : Config)
    (fc : FeeConfig) (inv : Inv rt c) (serves : Serves rt f view c cfg fc)
    (landed : BuyLanded rt f client del now fc c) where
  module _ (agreed : Agreed f view cfg fc landed.transient.amount) where
    called :
        buy_ix rt f keeper del.delegator view (pos landed.transient.amount)
        ≡ buy_call rt f keeper del.delegator view (pos agreed.net) (pos agreed.min_out)
    called =
        (λ i.
          buy_call rt f keeper del.delegator view (agreed.keeper_net_is i)
            (floor_out f.slippage_bps (agreed.keeper_net_is i)))
        ∙ ap (buy_call rt f keeper del.delegator view (pos agreed.net)) agreed.keeper_min_out

    keeper_buy_sends :
        pos 0 <ℤ available del now
        → crank_buy rt f client keeper del now event_authority view
          ≡ sent (
              buy_transaction rt f client keeper del now event_authority view agreed.net
                agreed.min_out)
    unfolding crank_buy
    keeper_buy_sends ready =
        let user = del.delegator in
        let busy : leb_ℤ (available del now) (pos 0) ≡ false = ground arith in
        let call = ap (buy_ix rt f keeper user view) landed.pulled ∙ called in
        rw busy (
          ap
            (λ x. sent (
              create_transient rt f user f.usdc
              ∷ Ix.create_ata (ata rt user f.target) user f.target
              ∷ pull_to_transient rt f client del keeper event_authority f.usdc (available del now)
              ∷ x
              ∷ []))
            call)

  -- The daemon's buy is a buy that the program takes. When something is available, the daemon creates
  -- the two accounts, pulls what is available and calls `execute_buy` with a
  -- 64-bit `min_out` that is at most the net input; and on
  -- a chain where the program's accounts are well formed, the router runs under the fixtures at one
  -- dollar and six decimals, the fee view is the fee account, the accounts for output and fee exist
  -- and the pull has landed, that call passes every check and guard of the program: its result is the
  -- result of the swap itself, with the fee that the daemon has left for it. Derived addresses are
  -- assumed to be found with a bump that creates them.
  pub crank_buy-BuyAccepted :
      AddressLaws rt
      → pos 0 <ℤ available del now
      → BuyAccepted rt f client keeper del now event_authority view c cfg fc landed
  crank_buy-BuyAccepted laws ready =
      let some_in : 0 < landed.transient.amount =
        sum_pos _ _ landed.transient.amount ready (bal_nonneg client _) landed.pulled in
      let agreed =
        amounts_agree rt f view c cfg fc serves
          (inv f.config (ProgramAccount.config cfg) serves.config_at).1
          (inv (fee_config_pda rt) (ProgramAccount.fee_config fc) serves.fee_at).1
          landed.transient.amount some_in landed.fits in
      (
        agreed.fee,
        agreed.net,
        agreed.min_out,
        agreed.wide,
        agreed.within,
        agreed.split,
        keeper_buy_sends agreed ready,
        keeper_buy_passes rt laws f client keeper del now view c cfg fc inv serves landed agreed
            some_in (buy_leg rt f del.delegator (pos agreed.net)),
      )

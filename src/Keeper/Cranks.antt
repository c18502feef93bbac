-- ===== src/Keeper/Cranks.antt =====
-- keeper/native/daemon.mjs: `crankBuy` and `crankSell`, the transaction that a crank sends for one
-- delegation or why it sends none. An exception, which `tick` logs, is `none`.
use solana_recurring_buy.Prelude.{Option, none, some, List, [], ◌∷◌, ◌++◌, ◌&&◌, if◌then◌else◌}
use solana_recurring_buy.Prelude.Int.{ℤ, pos, ◌+ℤ◌, ◌-ℤ◌, ltb_ℤ, leb_ℤ}
use solana_recurring_buy.State.{Pubkey}
use solana_recurring_buy.Chain.{Runtime}
use solana_recurring_buy.Buy.{ExecuteBuy}
use solana_recurring_buy.Sell.{ExecuteSell}
use solana_recurring_buy.Keeper.{
  Fixtures, Client, Delegation, SellPlanView, FeeView, SwapLeg, Ix, Crank, skipped, sent,
  nothing_available, no_sell_plan, schedule_complete, due_in, nothing_to_draw,
}
use solana_recurring_buy.Keeper.Numbers.{◌>>=◌, at_least_one}
use solana_recurring_buy.Keeper.Amounts.{available, floor_out, keeper_fee, sell_pull, exec_data}
use solana_recurring_buy.Keeper.Daemon.{
  readonly, writable, writable_signer, destination_or, bal, ata, buy_auth_pda, fetch_sell_plan,
  mock_swap_ix, pull_ix,
}

module _ (rt : Runtime) (f : Fixtures) where
  abbrev pub buy_accounts : (keeper user : Pubkey) → FeeView → ExecuteBuy
  buy_accounts keeper user fee_cfg = record {
    keeper = writable_signer keeper;
    config = readonly f.config;
    user = readonly user;
    buy_authority = readonly (buy_auth_pda rt user);
    transient_usdc = writable (ata rt (buy_auth_pda rt user) f.usdc);
    dest_ata = writable (ata rt user f.target);
    swap_program = readonly f.mock_swap;
    token_program = readonly rt.token_program_id;
    fee_config = readonly fee_cfg.pda;
    fee_ata = writable (ata rt (destination_or fee_cfg.destination keeper) f.usdc);
  }

  abbrev pub sell_accounts : (keeper user : Pubkey) → SellPlanView → FeeView → ExecuteSell
  sell_accounts keeper user plan fee_cfg = record {
    keeper = writable_signer keeper;
    config = readonly f.config;
    user = readonly user;
    sell_plan = writable plan.pda;
    buy_authority = readonly (buy_auth_pda rt user);
    transient_target = writable (ata rt (buy_auth_pda rt user) f.target);
    user_target_ata = readonly (ata rt user f.target);
    dest_usdc = writable (ata rt user f.usdc);
    swap_program = readonly f.mock_swap;
    token_program = readonly rt.token_program_id;
    fee_config = readonly fee_cfg.pda;
    fee_ata = writable (ata rt (destination_or fee_cfg.destination keeper) f.target);
  }

  -- The venue takes the net input and pays as much.
  abbrev pub buy_leg : Pubkey → ℤ → SwapLeg
  buy_leg user net =
      mock_swap_ix rt f (ata rt (buy_auth_pda rt user) f.usdc) (buy_auth_pda rt user) f.pool_usdc
        f.pool_target (ata rt user f.target) net net

  abbrev pub sell_leg : Pubkey → ℤ → SwapLeg
  sell_leg user net =
      mock_swap_ix rt f (ata rt (buy_auth_pda rt user) f.target) (buy_auth_pda rt user)
        f.pool_target f.pool_usdc (ata rt user f.usdc) net net

  abbrev pub net_of : FeeView → ℤ → ℤ
  net_of fee_cfg amount_in = amount_in -ℤ keeper_fee fee_cfg.bps amount_in

  abbrev pub create_transient : (user mint : Pubkey) → Ix
  create_transient user mint =
      Ix.create_ata (ata rt (buy_auth_pda rt user) mint) (buy_auth_pda rt user) mint

  abbrev pub buy_ix : (keeper user : Pubkey) → FeeView → ℤ → Ix
  buy_ix keeper user fee_cfg amount_in =
      let net = net_of fee_cfg amount_in in
      let swap = buy_leg user net in
      Ix.execute_buy (buy_accounts keeper user fee_cfg) swap.accounts
        (exec_data f.execute_buy_disc (floor_out f.slippage_bps net) swap.data_bytes)

  abbrev pub sell_ix : (keeper user : Pubkey) → SellPlanView → FeeView → ℤ → Ix
  sell_ix keeper user plan fee_cfg amount_in =
      let net = net_of fee_cfg amount_in in
      let swap = sell_leg user net in
      Ix.execute_sell (sell_accounts keeper user plan fee_cfg) swap.accounts
        (exec_data f.execute_sell_disc (floor_out f.slippage_bps net) swap.data_bytes)

  module _ (client : Client) where
    abbrev pub pull_to_transient : Delegation → (keeper event_authority mint : Pubkey) → ℤ → Ix
    pull_to_transient del keeper event_authority mint amount = Ix.pull (
        pull_ix del keeper (ata rt del.delegator mint) (ata rt (buy_auth_pda rt del.delegator) mint)
          amount (client.subscription_authority del.delegator mint) event_authority mint)

    unfoldable pub crank_buy : (keeper : Pubkey) → Delegation → ℤ → Pubkey → FeeView → Crank
    unfolding available
    crank_buy keeper del now event_authority fee_cfg =
        let user = del.delegator in
        let avail = available del now in
        if leb_ℤ avail (pos 0)
        then skipped nothing_available
        else let residue = bal client (ata rt (buy_auth_pda rt user) f.usdc) in
          sent (
            create_transient user f.usdc
            ∷ Ix.create_ata (ata rt user f.target) user f.target
            ∷ pull_to_transient del keeper event_authority f.usdc avail
            ∷ buy_ix keeper user fee_cfg (avail +ℤ residue)
            ∷ [])

    -- A pull of nothing is left out.
    abbrev pub pulls : Delegation → (keeper event_authority mint : Pubkey) → ℤ → List Ix
    pulls del keeper event_authority mint amount =
        if ltb_ℤ (pos 0) amount
        then pull_to_transient del keeper event_authority mint amount ∷ []
        else []

    -- The part of `crankSell` after the plan was found due.
    unfoldable pub draw_plan :
        (keeper : Pubkey) → Delegation → ℤ → Pubkey → FeeView → SellPlanView → Option Crank
    draw_plan keeper del now event_authority fee_cfg plan = do
      let user = del.delegator
      let pot = bal client (ata rt user f.target)
      let residue = bal client (ata rt (buy_auth_pda rt user) f.target)
      periods ← at_least_one (plan.end_ts -ℤ now) plan.period_secs
      let pull = sell_pull pot residue periods (available del now)
      if leb_ℤ pull (pos 0) && leb_ℤ residue (pos 0)
          then some (skipped nothing_to_draw)
          else some (
              sent (
                create_transient user f.target
                  ∷ Ix.create_ata (ata rt user f.usdc) user f.usdc
                  ∷ pulls del keeper event_authority f.target pull
                ++ sell_ix keeper user plan fee_cfg (pull +ℤ residue) ∷ []))

    unfoldable pub crank_sell : (keeper : Pubkey) → Delegation → ℤ → Pubkey → FeeView → Option Crank
    unfolding fetch_sell_plan
    crank_sell keeper del now event_authority fee_cfg = do
      found ← fetch_sell_plan rt client del.delegator
      elim found [
        | none ↦ some (skipped no_sell_plan)
        | some plan ↦
            if ltb_ℤ plan.end_ts plan.next_due_ts
            then some (skipped schedule_complete)
            else if ltb_ℤ now plan.next_due_ts
            then some (skipped (due_in (plan.next_due_ts -ℤ now)))
            else draw_plan keeper del now event_authority fee_cfg plan
      ]

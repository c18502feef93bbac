-- ===== src/Keeper/BuySettles.antt =====
-- `crankBuy` of keeper/native/daemon.mjs, `execute_buy` of programs/recurring-buy/src/lib.rs and `swap`
-- of programs/mock-swap/src/lib.rs together: a buy of the daemon from its transaction to the tokens.
use solana_recurring_buy.Prelude.{ℕ, ◌+◌, ◌≡◌, ◌∙◌, refl, ap, arith}
use solana_recurring_buy.Prelude.Int.{ℤ, pos, ◌<ℤ◌}
use solana_recurring_buy.Errors.{ok, ◌>>=◌}
use solana_recurring_buy.State.{Pubkey, Config, FeeConfig}
use solana_recurring_buy.Chain.{Chain, Runtime}
use solana_recurring_buy.Chain.Account.{Inv}
use solana_recurring_buy.Swap.{swap_and_verify}
use solana_recurring_buy.Buy.{BuyExecuted, conclude_buy, execute_buy}
use solana_recurring_buy.Keeper.{Fixtures, Client, Delegation, FeeView, sent}
use solana_recurring_buy.Keeper.Amounts.{available}
use solana_recurring_buy.Keeper.Daemon.{ata, buy_auth_pda, destination_or}
use solana_recurring_buy.Keeper.Cranks.{buy_accounts, buy_leg, crank_buy}
use solana_recurring_buy.Keeper.Accepted.{Serves}
use solana_recurring_buy.Keeper.Buys.{BuyLanded, buy_read}
use solana_recurring_buy.Keeper.BuyTransaction.{buy_transaction, crank_buy-BuyAccepted}
use solana_recurring_buy.Keeper.Venue.{RunsMockSwap, leg_route}
use solana_recurring_buy.Keeper.Settles.{Sound, Funded, Settled, leg_settles}

-- The token accounts of a buy.
abbrev pub BuyFunded :
    (rt : Runtime) (f : Fixtures) (client : Client) (del : Delegation) (now : ℤ) (c : Chain)
    (fc : FeeConfig)
    → BuyLanded rt f client del now fc c
    → Type 0
BuyFunded rt f client del now c fc landed =
    Funded rt f del.delegator (ata rt (buy_auth_pda rt del.delegator) f.usdc)
      (ata rt del.delegator f.target) (ata rt fc.destination f.usdc) f.pool_usdc f.pool_target
      c.tokens landed.transient landed.dest landed.fee_ata

-- The daemon sends its transaction, whose last instruction succeeds, empties the transient account,
-- gives the user the net input, at one for one, and the fee account the fee, and changes no
-- account of the program.
abbrev pub BuySettled :
    (rt : Runtime) (f : Fixtures) (client : Client) (keeper : Pubkey) (del : Delegation) (now : ℤ)
    (event_authority : Pubkey) (view : FeeView) (c : Chain) (fc : FeeConfig)
    → BuyLanded rt f client del now fc c
    → Type 0
BuySettled rt f client keeper del now event_authority view c fc landed =
    (fee net min_out : ℕ) × (c' : Chain) × (event : BuyExecuted) × (net + fee
      ≡ landed.transient.amount)
    × (crank_buy rt f client keeper del now event_authority view
        ≡ sent (buy_transaction rt f client keeper del now event_authority view net min_out))
    × (execute_buy rt (buy_accounts rt f keeper del.delegator view)
          (buy_leg rt f del.delegator (pos net)).accounts min_out
          (buy_leg rt f del.delegator (pos net)).data_bytes c
        ≡ ok (c', event))
    × Settled rt f del.delegator (ata rt (buy_auth_pda rt del.delegator) f.usdc)
        (ata rt del.delegator f.target) (ata rt fc.destination f.usdc) f.pool_usdc f.pool_target
        c.tokens landed.transient landed.dest landed.fee_ata fee net c'.tokens
    × (c'.accounts ≡ c.accounts)
    × (event.amount_out ≡ net)

module _ (rt vr : Runtime) (f : Fixtures) (client : Client) (keeper : Pubkey) (del : Delegation)
    (now : ℤ) (event_authority : Pubkey) (view : FeeView) (c : Chain) (cfg : Config)
    (fc : FeeConfig) (inv : Inv rt c) (serves : Serves rt f view c cfg fc)
    (landed : BuyLanded rt f client del now fc c) where
  -- The daemon's buy goes through. When something is available, the pull has landed, the program's
  -- accounts are well formed, the router runs under the fixtures at one dollar and six decimals, the
  -- fee view is the fee account, and the venue is the mock venue with enough in its pool and room in
  -- its accounts and those of the user and the fee: the transaction that the daemon sends ends in an
  -- `execute_buy` that succeeds. It empties the transient account, pays the fee to the fee account
  -- and the rest, one for one, to the user, and changes no account of the program. Token transfers
  -- and derived addresses are assumed to follow their rules, in the router and in the venue.
  pub crank_buy-BuySettled :
      Sound rt
      → Sound vr
      → RunsMockSwap rt vr f
      → BuyFunded rt f client del now c fc landed
      → pos 0 <ℤ available del now
      → BuySettled rt f client keeper del now event_authority view c fc landed
  crank_buy-BuySettled sound sound' venue funded ready =
      let (fee, net, min_out, wide, within, split, sends, passes) =
        crank_buy-BuyAccepted rt f client keeper del now event_authority view c cfg fc inv serves
          landed sound.addresses ready in
      let ctx = buy_accounts rt f keeper del.delegator view in
      let acc = buy_read rt f client del now cfg fc landed in
      let (ts', swapped, settled) =
        leg_settles rt vr f del.delegator (ata rt (buy_auth_pda rt del.delegator) f.usdc)
          (ata rt del.delegator f.target) (ata rt fc.destination f.usdc) f.pool_usdc f.pool_target
          fee net c.tokens landed.transient landed.dest landed.fee_ata funded venue split min_out
          sound sound' (omega (arith, landed.fits, split)) within in
      let done =
        ap
          (λ o.
            ◌>>=◌
              (swap_and_verify rt
                (leg_route rt f del.delegator (ata rt (buy_auth_pda rt del.delegator) f.usdc)
                  (ata rt del.delegator f.target) (ata rt (destination_or o keeper) f.usdc)
                  f.pool_usdc f.pool_target net)
                fee landed.dest.amount min_out c.tokens)
              (conclude_buy ctx acc fee c))
          serves.view_destination
        ∙ ap (λ x. ◌>>=◌ x (conclude_buy ctx acc fee c)) swapped in
      (fee, net, min_out, _, _, split, sends, passes ∙ done, settled, refl, refl)

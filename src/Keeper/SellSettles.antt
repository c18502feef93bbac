-- ===== src/Keeper/SellSettles.antt =====
-- `crankSell` of keeper/native/daemon.mjs, `execute_sell` of programs/recurring-buy/src/lib.rs and
-- `swap` of programs/mock-swap/src/lib.rs together: a sell of the daemon from its transaction to the
-- tokens and the gate.
use solana_recurring_buy.Prelude.{ℕ, ◌+◌, ◌≤◌, ◌≡◌, ◌∙◌, refl, sym, ap, arith, some}
use solana_recurring_buy.Prelude.Int.{ℤ, pos}
use solana_recurring_buy.Errors.{ok, ◌>>=◌}
use solana_recurring_buy.State.{Pubkey, Config, FeeConfig, SellPlan}
use solana_recurring_buy.State.Valid.{IsValidSellPlan, IsTime}
use solana_recurring_buy.Schedule.{advance}
use solana_recurring_buy.Schedule.Gate.{Jumped, advance_gate}
use solana_recurring_buy.Chain.{Chain, ProgramAccount, Runtime, Tokens, store}
use solana_recurring_buy.Chain.Account.{Inv}
use solana_recurring_buy.Swap.{swap_and_verify}
use solana_recurring_buy.Sell.{ExecuteSell, SellAccounts, SellExecuted, conclude_sell, execute_sell}
use solana_recurring_buy.Keeper.{Fixtures, Client, Delegation, FeeView, sent}
use solana_recurring_buy.Keeper.Daemon.{ata, buy_auth_pda, destination_or, sell_plan_pda}
use solana_recurring_buy.Keeper.Cranks.{sell_leg, crank_sell}
use solana_recurring_buy.Keeper.Accepted.{Serves}
use solana_recurring_buy.Keeper.Sells.{SellSeen, SellLanded, pulled_by, keeper_ctx, accounts_read}
use solana_recurring_buy.Keeper.SellTransaction.{sell_transaction, crank_sell-SellAccepted}
use solana_recurring_buy.Keeper.Venue.{RunsMockSwap, leg_route}
use solana_recurring_buy.Keeper.Settles.{Sound, Funded, Settled, leg_settles}

module _ (rt : Runtime) (f : Fixtures) (user : Pubkey) (fc : FeeConfig) (p : SellPlan)
    (pot residue pulled : ℕ) (c : Chain)
    (landed : SellLanded rt f user fc p pot residue pulled c) where
  -- The token accounts of a sell.
  abbrev pub SellFunded : Type 0
  SellFunded =
      Funded rt f user (ata rt (buy_auth_pda rt user) f.target) (ata rt user f.usdc)
        (ata rt fc.destination f.target) f.pool_target f.pool_usdc c.tokens landed.transient
        landed.dest landed.fee_ata

  -- What the last instruction of the transaction does to the tokens and to the plan.
  abbrev pub SellOutcome : (t fee net : ℕ) → Chain → Type 0
  SellOutcome t fee net c' =
      Settled rt f user (ata rt (buy_auth_pda rt user) f.target) (ata rt user f.usdc)
        (ata rt fc.destination f.target) f.pool_target f.pool_usdc c.tokens landed.transient
        landed.dest landed.fee_ata fee net c'.tokens
      × (q : SellPlan) × Jumped p (pos t) q
      × (c'.accounts (sell_plan_pda rt user) ≡ some (ProgramAccount.sell_plan q))

-- The daemon sends its transaction, whose last instruction succeeds, empties the transient account,
-- gives the user the net input, at one for one, and the fee account the fee, and moves the gate of
-- the plan past the time.
abbrev pub SellSettled :
    (rt : Runtime) (f : Fixtures) (client : Client) (keeper : Pubkey) (del : Delegation)
    (event_authority : Pubkey) (view : FeeView) (fc : FeeConfig) (p : SellPlan)
    (now pot residue t : ℕ) (c : Chain)
    → SellLanded rt f del.delegator fc p pot residue (pulled_by p del now pot residue) c
    → Type 0
SellSettled rt f client keeper del event_authority view fc p now pot residue t c landed =
    (fee net min_out : ℕ) × (c' : Chain) × (event : SellExecuted) × (net + fee
      ≡ landed.transient.amount)
    × (crank_sell rt f client keeper del (pos now) event_authority view
        ≡ some (
            sent (
              sell_transaction rt f client keeper del event_authority view p now pot residue net
                min_out)))
    × (execute_sell rt (keeper_ctx rt f keeper del.delegator p view)
          (sell_leg rt f del.delegator (pos net)).accounts (ok (pos t)) min_out
          (sell_leg rt f del.delegator (pos net)).data_bytes c
        ≡ ok (c', event))
    × SellOutcome rt f del.delegator fc p pot residue (pulled_by p del now pot residue) c landed t
        fee net c'
    × (event.amount_out ≡ net)

-- The end of `execute_sell` once the gate has moved.
concluded :
    (ctx : ExecuteSell) (acc : SellAccounts) (now : ℤ) (fee : ℕ) (c : Chain) (ts : Tokens) (out : ℕ)
    {q : SellPlan}
    → advance acc.sell_plan now ≡ ok q
    → (c' : Chain) × (event : SellExecuted) × (conclude_sell ctx acc now fee c (ts, out)
        ≡ ok (c', event))
      × (c'.tokens ≡ ts)
      × (c'.accounts ctx.sell_plan.key ≡ some (ProgramAccount.sell_plan q))
      × (event.amount_out ≡ out)
concluded ctx acc now fee c ts out moved = (
  _,
  _,
  ap
      (λ x. ◌>>=◌ x (λ plan. ok (
        store ctx.sell_plan.key (ProgramAccount.sell_plan plan) (record c { tokens = ts }),
        record {
          user = ctx.user.key;
          amount_in = acc.transient_target.amount;
          amount_out = out;
          fee = fee;
          venue = ctx.swap_program.key;
        },
      )))
      moved,
  refl,
  ground arith,
  refl,
)

module _ (rt vr : Runtime) (f : Fixtures) (client : Client) (keeper : Pubkey) (del : Delegation)
    (event_authority : Pubkey) (view : FeeView) (cfg : Config) (fc : FeeConfig) (p : SellPlan)
    (v : IsValidSellPlan p) (now pot residue : ℕ)
    (seen : SellSeen rt f client del.delegator p now pot residue) where
  -- The daemon's sell goes through. When the daemon has seen a well-formed plan that is due and not
  -- complete, with times that JavaScript holds exactly, its pot and a residue within the share of one
  -- period; and at the same time or later the plan is as it was, the pull has landed with something
  -- in the transient account, the program's accounts are well formed, the router runs under the
  -- fixtures at one dollar and six decimals, the fee view is the fee account, and the venue is the
  -- mock venue with enough in its pool and room in its accounts and those of the user and the fee:
  -- the transaction that the daemon sends ends in an `execute_sell` that succeeds. It empties the
  -- transient account, pays the fee to the fee account and the rest, one for one, to the user, and
  -- moves the gate of the plan to the first point of its grid after the time. Token transfers and
  -- derived addresses are assumed to follow their rules, in the router and in the venue.
  pub crank_sell-SellSettled :
      Sound rt
      → Sound vr
      → RunsMockSwap rt vr f
      → (t : ℕ) (c : Chain) → Inv rt c
      → Serves rt f view c cfg fc
      → (landed : SellLanded rt f del.delegator fc p pot residue
          (pulled_by p del now pot residue)
          c)
      → SellFunded rt f del.delegator fc p pot residue (pulled_by p del now pot residue) c landed
      → now ≤ t
      → IsTime (pos t)
      → SellSettled rt f client keeper del event_authority view fc p now pot residue t c landed
  crank_sell-SellSettled sound sound' venue t c inv serves landed funded later timely =
      let (fee, net, min_out, wide, within, split, sends, passes) =
        crank_sell-SellAccepted rt f client keeper del event_authority view cfg fc p v now pot
          residue seen sound.addresses t c inv serves landed later (ground (arith, timely.room)) in
      let ctx = keeper_ctx rt f keeper del.delegator p view in
      let acc = accounts_read rt f del.delegator cfg fc p landed in
      let (ts', swapped, settled) =
        leg_settles rt vr f del.delegator (ata rt (buy_auth_pda rt del.delegator) f.target)
          (ata rt del.delegator f.usdc) (ata rt fc.destination f.target) f.pool_target f.pool_usdc
          fee net c.tokens landed.transient landed.dest landed.fee_ata funded venue split min_out
          sound sound' (omega (arith, landed.arrived, landed.left, landed.fits, split)) within in
      let (q, moved, jumped) = advance_gate p (pos t) v timely (ground (arith, seen.due, later)) in
      let (c', event, ended, kept, stored, out) = concluded ctx acc (pos t) fee c ts' net moved in
      let done =
        ap
          (λ o.
            ◌>>=◌
              (swap_and_verify rt
                (leg_route rt f del.delegator (ata rt (buy_auth_pda rt del.delegator) f.target)
                  (ata rt del.delegator f.usdc) (ata rt (destination_or o keeper) f.target)
                  f.pool_target f.pool_usdc net)
                fee landed.dest.amount min_out c.tokens)
              (conclude_sell ctx acc (pos t) fee c))
          serves.view_destination
        ∙ ap (λ x. ◌>>=◌ x (conclude_sell ctx acc (pos t) fee c)) swapped
        ∙ ended in
      (
        fee,
        net,
        min_out,
        c',
        event,
        split,
        sends,
        passes ∙ done,
        (
          rw kept settled,
          q,
          jumped,
          ap (λ u. c'.accounts (sell_plan_pda rt u)) (sym seen.owner) ∙ stored,
        ),
        out,
      )

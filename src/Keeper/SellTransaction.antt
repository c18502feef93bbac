-- ===== src/Keeper/SellTransaction.antt =====
-- The whole of `crankSell` in keeper/native/daemon.mjs on a plan that is due, with the call of
-- `execute_sell` (programs/recurring-buy/src/lib.rs) that ends its transaction.
use solana_recurring_buy.Prelude.{
  ℕ, ◌+◌, ◌*◌, ◌≤◌, ◌<◌, ◌≡◌, refl, sym, ◌∙◌, ap, subst, subst₂, arith, false, ◌&&◌, some, List, [],
  ◌∷◌, ◌++◌,
}
use solana_recurring_buy.Prelude.Int.{pos, pos_part, ◌-ℤ◌, ◌+ℤ◌, ◌≤ℤ◌, leb_ℤ, ltb_ℤ}
use solana_recurring_buy.Errors.{ok, ◌>>=◌}
use solana_recurring_buy.Word.{u64_mod, i64_max}
use solana_recurring_buy.State.{Pubkey, Config, FeeConfig, SellPlan}
use solana_recurring_buy.State.Valid.{IsValidSellPlan, eq-pos}
use solana_recurring_buy.State.Periods.{periods_left}
use solana_recurring_buy.Schedule.{check_cap}
use solana_recurring_buy.Schedule.Cap.{check_cap_iff}
use solana_recurring_buy.Chain.{ProgramAccount, Chain, Runtime}
use solana_recurring_buy.Chain.Account.{Inv}
use solana_recurring_buy.Chain.Laws.{AddressLaws}
use solana_recurring_buy.Swap.{swap_and_verify}
use solana_recurring_buy.Sell.{sell_route, conclude_sell, execute_sell}
use solana_recurring_buy.Keeper.{Fixtures, Client, Delegation, FeeView, Ix, sent}
use solana_recurring_buy.Keeper.Numbers.{at_least_one}
use solana_recurring_buy.Keeper.Amounts.{available, sell_pull, floor_out}
use solana_recurring_buy.Keeper.Values.{
  least_le, add_exact, available_nonneg, sell_pull_exact, at_least_one_exact,
}
use solana_recurring_buy.Keeper.Daemon.{fee_config_pda, sell_plan_pda, ata, fetch_sell_plan}
use solana_recurring_buy.Keeper.Layout.{view_of, fetch_sell_plan_reads}
use solana_recurring_buy.Keeper.Draws.{room, draw_fits}
use solana_recurring_buy.Keeper.Cranks.{
  sell_leg, sell_ix, create_transient, pulls, draw_plan, crank_sell,
}
use solana_recurring_buy.Keeper.Accepted.{Serves, Agreed, amounts_agree}
use solana_recurring_buy.Keeper.Sells.{
  SellSeen, SellLanded, pulled_by, sell_call, keeper_ctx, accounts_read, keeper_sell_passes,
}

-- What the daemon sends.
abbrev pub sell_transaction :
    Runtime
    → Fixtures
    → Client
    → (keeper : Pubkey) → Delegation
    → Pubkey
    → FeeView
    → SellPlan
    → (now pot residue net min_out : ℕ) → List Ix
sell_transaction rt f client keeper del event_authority view p now pot residue net min_out =
    create_transient rt f del.delegator f.target
      ∷ Ix.create_ata (ata rt del.delegator f.usdc) del.delegator f.usdc
      ∷ pulls rt f client del keeper event_authority f.target
          (pos (pulled_by p del now pot residue))
    ++ sell_call rt f keeper del.delegator p view (pos net) (pos min_out) ∷ []

-- The daemon sends that transaction, and its last instruction passes every check of the program:
-- what `execute_sell` returns is what the swap returns, and the advance of the gate.
abbrev pub SellAccepted :
    (rt : Runtime) (f : Fixtures) (client : Client) (keeper : Pubkey) (del : Delegation)
    (event_authority : Pubkey) (view : FeeView) (cfg : Config) (fc : FeeConfig) (p : SellPlan)
    (now pot residue t : ℕ) (c : Chain)
    → SellLanded rt f del.delegator fc p pot residue (pulled_by p del now pot residue) c
    → Type 0
SellAccepted rt f client keeper del event_authority view cfg fc p now pot residue t c landed =
    (fee net min_out : ℕ) × (min_out < u64_mod)
    × (min_out ≤ net)
    × (net + fee ≡ landed.transient.amount)
    × (crank_sell rt f client keeper del (pos now) event_authority view
        ≡ some (
            sent (
              sell_transaction rt f client keeper del event_authority view p now pot residue net
                min_out)))
    × (execute_sell rt (keeper_ctx rt f keeper del.delegator p view)
          (sell_leg rt f del.delegator (pos net)).accounts (ok (pos t)) min_out
          (sell_leg rt f del.delegator (pos net)).data_bytes c
        ≡ (swap_and_verify rt
              (sell_route rt (keeper_ctx rt f keeper del.delegator p view)
                (accounts_read rt f del.delegator cfg fc p landed)
                (sell_leg rt f del.delegator (pos net)).accounts
                (sell_leg rt f del.delegator (pos net)).data_bytes)
              fee landed.dest.amount min_out c.tokens
            >>= conclude_sell (keeper_ctx rt f keeper del.delegator p view)
                (accounts_read rt f del.delegator cfg fc p landed) (pos t) fee c))

module _ (rt : Runtime) (f : Fixtures) (client : Client) (keeper : Pubkey) (del : Delegation)
    (event_authority : Pubkey) (view : FeeView) (cfg : Config) (fc : FeeConfig) (p : SellPlan)
    (v : IsValidSellPlan p) (now pot residue : ℕ)
    (seen : SellSeen rt f client del.delegator p now pot residue) where
  abbrev pulled : ℕ
  pulled = pulled_by p del now pot residue

  periods_seen :
      at_least_one (p.end_ts -ℤ pos now) p.period_secs
      ≡ some (pos (periods_left (pos_part p.end_ts) now (pos_part p.period_secs)))
  periods_seen =
      (λ i.
        at_least_one (eq-pos p.end_ts v.end_nonneg i -ℤ pos now)
          (eq-pos p.period_secs (omega (arith, v.period_min)) i))
      ∙ at_least_one_exact (pos_part p.end_ts) now (pos_part p.period_secs)
          (ground (arith, v.period_min))

  pull_seen :
      sell_pull
        (pos pot)
        (pos residue)
        (pos (periods_left (pos_part p.end_ts) now (pos_part p.period_secs)))
        (available del (pos now))
      ≡ pos pulled
  pull_seen =
      ap
        (sell_pull (pos pot) (pos residue)
          (pos (periods_left (pos_part p.end_ts) now (pos_part p.period_secs))))
        (eq-pos (available del (pos now)) (available_nonneg del (pos now)))
      ∙ sell_pull_exact pot residue _ _

  module _ (amount : ℕ) (agreed : Agreed f view cfg fc amount) (sum : amount ≡ pulled + residue)
      (some_in : 0 < amount) where
    called :
        sell_ix rt f keeper del.delegator (view_of rt p) view (pos pulled +ℤ pos residue)
        ≡ sell_call rt f keeper del.delegator p view (pos agreed.net) (pos agreed.min_out)
    called =
        ap (sell_ix rt f keeper del.delegator (view_of rt p) view)
          (add_exact pulled residue ∙ ap pos (sym sum))
        ∙ (λ i.
            sell_call rt f keeper del.delegator p view (agreed.keeper_net_is i)
              (floor_out f.slippage_bps (agreed.keeper_net_is i)))
        ∙ ap (sell_call rt f keeper del.delegator p view (pos agreed.net)) agreed.keeper_min_out

    draws :
        draw_plan rt f client keeper del (pos now) event_authority view (view_of rt p)
        ≡ some (
            sent (
              sell_transaction rt f client keeper del event_authority view p now pot residue
                agreed.net agreed.min_out))
    unfolding draw_plan
    draws =
        let busy : (leb_ℤ (pos pulled) (pos 0) && leb_ℤ (pos residue) (pos 0)) ≡ false =
          ground arith in
        rw (periods_seen, seen.pot_seen, seen.residue_seen, pull_seen, busy)
          (ap
            (λ x. some (
              sent (
                create_transient rt f del.delegator f.target
                  ∷ Ix.create_ata (ata rt del.delegator f.usdc) del.delegator f.usdc
                  ∷ pulls rt f client del keeper event_authority f.target (pos pulled)
                ++ x ∷ [])))
            called)

  -- The draw is within the cap at the daemon's time and later.
  amortized_at :
      (t wallet amount : ℕ)
      → now ≤ t
      → pos t ≤ℤ i64_max
      → amount ≡ pulled + residue
      → wallet + pulled ≡ pot
      → pot + residue < u64_mod
      → check_cap p (pos t) wallet amount ≡ ok tt
  amortized_at t wallet amount later range sum left fits =
      let end = pos_part p.end_ts in
      let period = pos_part p.period_secs in
      let some_period : 0 < period = ground (arith, v.period_min) in
      let within : (pulled + residue) * periods_left end t period ≤ pot + residue =
        draw_fits end now t period pot residue pulled later some_period seen.share
          (least_le (room pot residue (periods_left end now period)) _) in
      let whole : pot + residue ≡ wallet + amount = omega arith in
      (check_cap_iff p end t period wallet amount (eq-pos p.end_ts v.end_nonneg)
          (eq-pos p.period_secs (omega (arith, v.period_min))) some_period
          (ground (arith, v.end_range)) range (omega arith) (omega arith)).1
        (subst₂ (λ a b. a * periods_left end t period ≤ b) (sym sum) whole within)

  cranked :
      fetch_sell_plan rt client del.delegator ≡ some (some (view_of rt p))
      → crank_sell rt f client keeper del (pos now) event_authority view
        ≡ draw_plan rt f client keeper del (pos now) event_authority view (view_of rt p)
  unfolding crank_sell
  cranked found =
      let open_plan : ltb_ℤ p.end_ts p.next_due_ts ≡ false = ground (arith, seen.unfinished) in
      let due_plan : ltb_ℤ (pos now) p.next_due_ts ≡ false = ground (arith, seen.due) in
      rw (found, open_plan, due_plan) refl

  fetched : fetch_sell_plan rt client del.delegator ≡ some (some (view_of rt p))
  fetched =
      subst (λ u. fetch_sell_plan rt client u ≡ some (some (view_of rt p))) seen.owner
        (fetch_sell_plan_reads rt client p seen.plan_bytes seen.plan_data v seen.end_safe
          (omega (arith, seen.now_safe, seen.due))
          (ap (λ u. client.account_data (sell_plan_pda rt u)) seen.owner ∙ seen.plan_seen))

  -- The daemon's sell is a sell that the program takes. At a time, the daemon has seen a
  -- well-formed plan that is due and not complete, with times that JavaScript holds exactly, its pot
  -- and a residue that is within the share of one period. At the same time or later, on a chain where the program's accounts are well formed,
  -- the plan is as it was, the router runs under the fixtures at one dollar and six decimals, the fee
  -- view is the fee account, the other accounts exist and the pull has landed, with something in the
  -- transient account: the daemon's transaction ends in a call of `execute_sell` with a 64-bit
  -- `min_out`, at most the net input, that passes every check and guard of the program, the gate and the cap among them, and
  -- its result is the result of the swap itself. Derived addresses are assumed to be found with a
  -- bump that creates them.
  pub crank_sell-SellAccepted :
      (laws : AddressLaws rt) (t : ℕ) (c : Chain) (inv : Inv rt c)
      (serves : Serves rt f view c cfg fc)
      (landed : SellLanded rt f del.delegator fc p pot residue pulled c)
      → now ≤ t
      → pos t ≤ℤ i64_max
      → SellAccepted rt f client keeper del event_authority view cfg fc p now pot residue t c landed
  crank_sell-SellAccepted laws t c inv serves landed later range =
      let agreed =
        amounts_agree rt f view c cfg fc serves
          (inv f.config (ProgramAccount.config cfg) serves.config_at).1
          (inv (fee_config_pda rt) (ProgramAccount.fee_config fc) serves.fee_at).1
          landed.transient.amount landed.some_in
          (omega (arith, landed.arrived, landed.left, landed.fits)) in
      (
        agreed.fee,
        agreed.net,
        agreed.min_out,
        agreed.wide,
        agreed.within,
        agreed.split,
        cranked fetched ∙ draws landed.transient.amount agreed landed.arrived landed.some_in,
        keeper_sell_passes rt laws f keeper del.delegator view c cfg fc inv serves p seen.owner pot
            residue pulled landed agreed t (omega (arith, seen.due, later)) seen.unfinished
            (amortized_at t landed.wallet.amount landed.transient.amount later range landed.arrived
              landed.left landed.fits)
            (sell_leg rt f del.delegator (pos agreed.net)),
      )

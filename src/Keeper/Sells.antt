-- ===== src/Keeper/Sells.antt =====
-- `crankSell` of keeper/native/daemon.mjs and `execute_sell` of programs/recurring-buy/src/lib.rs:
-- the transaction that the one sends is one that the other takes.
use solana_recurring_buy.Prelude.{
  ℕ, ◌+◌, ◌*◌, ◌≤◌, ◌<◌, ◌≡◌, refl, sym, ◌∙◌, ap, subst₂, arith, some, List, [], ◌∷◌, ◌++◌,
}
use solana_recurring_buy.Prelude.Int.{ℤ, pos, pos_part, ◌≤ℤ◌}
use solana_recurring_buy.Errors.{ok, ◌>>=◌}
use solana_recurring_buy.Word.{u64_mod}
use solana_recurring_buy.State.{Pubkey, Config, FeeConfig, SellPlan}
use solana_recurring_buy.State.Periods.{periods_left}
use solana_recurring_buy.Schedule.{check_cap}
use solana_recurring_buy.Chain.{bytes, TokenAccount, ProgramAccount, Chain, Runtime}
use solana_recurring_buy.Chain.Account.{Inv}
use solana_recurring_buy.Chain.Constraints.{
  config_seeds, fee_config_seeds, sell_plan_seeds, buy_auth_seeds,
}
use solana_recurring_buy.Chain.Laws.{AddressLaws, recreated}
use solana_recurring_buy.Swap.{swap_and_verify}
use solana_recurring_buy.Sell.{ExecuteSell, SellAccounts, sell_route, conclude_sell, execute_sell}
use solana_recurring_buy.Sell.Guards.{SellGuards, SellGuards-check_sell}
use solana_recurring_buy.Sell.Validated.{SellValidated, SellValidated-validate_sell}
use solana_recurring_buy.Keeper.{Fixtures, Client, Delegation, FeeView, SwapLeg, Ix}
use solana_recurring_buy.Keeper.Numbers.{max_safe_integer}
use solana_recurring_buy.Keeper.Amounts.{available, exec_data}
use solana_recurring_buy.Keeper.Values.{least}
use solana_recurring_buy.Keeper.Daemon.{
  destination_or, fee_config_pda, sell_plan_pda, bal, ata, buy_auth_pda,
}
use solana_recurring_buy.Keeper.Layout.{PlanData, view_of}
use solana_recurring_buy.Keeper.Draws.{room}
use solana_recurring_buy.Keeper.Cranks.{sell_accounts, sell_leg}
use solana_recurring_buy.Keeper.Accepted.{Serves, Agreed}

-- What the daemon saw at its time: the data of the plan, the pot, the residue, and a plan that is due
-- and not complete, whose share of one period the residue does not exceed.
pub record SellSeen (rt : Runtime) (f : Fixtures) (client : Client) (user : Pubkey) (p : SellPlan)
    (now pot residue : ℕ) : Type 0 where
  pub plan_bytes : List ℕ
  pub plan_seen : client.account_data (sell_plan_pda rt user) ≡ some plan_bytes
  pub plan_data : PlanData p plan_bytes
  pub pot_seen : bal client (ata rt user f.target) ≡ pos pot
  pub residue_seen : bal client (ata rt (buy_auth_pda rt user) f.target) ≡ pos residue
  pub owner : p.user ≡ user
  pub unfinished : p.next_due_ts ≤ℤ p.end_ts
  pub due : p.next_due_ts ≤ℤ pos now
  pub end_safe : p.end_ts ≤ℤ pos max_safe_integer
  pub now_safe : now ≤ max_safe_integer
  pub share :
      residue * periods_left (pos_part p.end_ts) now (pos_part p.period_secs) ≤ pot + residue

-- The accounts once the pull has landed.
pub record SellLanded (rt : Runtime) (f : Fixtures) (user : Pubkey) (fc : FeeConfig) (p : SellPlan)
    (pot residue pulled : ℕ) (c : Chain) : Type 0 where
  pub transient : TokenAccount
  pub wallet : TokenAccount
  pub dest : TokenAccount
  pub fee_ata : TokenAccount
  pub plan_at : c.accounts (sell_plan_pda rt user) ≡ some (ProgramAccount.sell_plan p)
  pub transient_at : c.tokens (ata rt (buy_auth_pda rt user) f.target) ≡ some transient
  pub wallet_at : c.tokens (ata rt user f.target) ≡ some wallet
  pub dest_at : c.tokens (ata rt user f.usdc) ≡ some dest
  pub fee_ata_at : c.tokens (ata rt fc.destination f.target) ≡ some fee_ata
  pub arrived : transient.amount ≡ pulled + residue
  pub left : wallet.amount + pulled ≡ pot
  pub some_in : 0 < transient.amount
  pub fits : pot + residue < u64_mod

-- What the daemon pulls.
abbrev pub pulled_by : SellPlan → Delegation → (now pot residue : ℕ) → ℕ
pulled_by p del now pot residue =
    least (room pot residue (periods_left (pos_part p.end_ts) now (pos_part p.period_secs)))
      (pos_part (available del (pos now)))

-- The instruction with which the daemon calls `execute_sell`, on a net input and a `min_out`.
abbrev pub sell_call : Runtime → Fixtures → (keeper user : Pubkey) → SellPlan → FeeView → ℤ → ℤ → Ix
sell_call rt f keeper user p view net min_out =
    Ix.execute_sell (sell_accounts rt f keeper user (view_of rt p) view)
      (sell_leg rt f user net).accounts
      (exec_data f.execute_sell_disc min_out (sell_leg rt f user net).data_bytes)

abbrev pub keeper_ctx :
    Runtime → Fixtures → (keeper user : Pubkey) → SellPlan → FeeView → ExecuteSell
keeper_ctx rt f keeper user p view = sell_accounts rt f keeper user (view_of rt p) view

-- What the program reads of the accounts of that call.
abbrev pub accounts_read :
    (rt : Runtime) (f : Fixtures) (user : Pubkey) (cfg : Config) (fc : FeeConfig) (p : SellPlan)
    {pot residue pulled : ℕ} {c : Chain}
    → SellLanded rt f user fc p pot residue pulled c
    → SellAccounts
accounts_read rt f user cfg fc p landed = record {
  config = cfg;
  sell_plan = p;
  transient_target = landed.transient;
  user_target_ata = landed.wallet;
  dest_usdc = landed.dest;
  fee_config = fc;
  bump = (rt.find_program_address (buy_auth_seeds user)).1;
}

module _ (rt : Runtime) (laws : AddressLaws rt) (f : Fixtures) (keeper : Pubkey) (user : Pubkey)
    (view : FeeView) (c : Chain) (cfg : Config) (fc : FeeConfig) (inv : Inv rt c)
    (serves : Serves rt f view c cfg fc) (p : SellPlan) (owner : p.user ≡ user)
    (pot residue pulled : ℕ) (landed : SellLanded rt f user fc p pot residue pulled c) where
  keeper_sell-SellValidated :
      SellValidated rt
        (keeper_ctx rt f keeper user p view)
        c
        (accounts_read rt f user cfg fc p landed)
  keeper_sell-SellValidated =
      let valid = inv (sell_plan_pda rt user) (ProgramAccount.sell_plan p) landed.plan_at in
      record {
        keeper_signed = refl;
        config_at = serves.config_at;
        sell_plan_at = ap (λ u. c.accounts (sell_plan_pda rt u)) owner ∙ landed.plan_at;
        fee_config_at = ap c.accounts serves.view_pda ∙ serves.fee_at;
        transient_at = landed.transient_at;
        pot_at = landed.wallet_at;
        dest_at = landed.dest_at;
        fee_ata_at = (
          landed.fee_ata,
          ap (λ o. c.tokens (ata rt (destination_or o keeper) f.target)) serves.view_destination
              ∙ landed.fee_ata_at,
        );
        token_program = refl;
        config_pda =
            recreated rt laws config_seeds
              (inv f.config (ProgramAccount.config cfg) serves.config_at).0;
        sell_plan_pda =
            subst₂
              (λ u j.
                rt.create_program_address (sell_plan_seeds u ++ bytes (p.bump ∷ []) ∷ []) ≡ some j)
              owner (ap (sell_plan_pda rt) (sym owner))
              (recreated rt laws (sell_plan_seeds p.user) valid.0);
        fee_config_pda =
            recreated rt laws fee_config_seeds
              (inv (fee_config_pda rt) (ProgramAccount.fee_config fc) serves.fee_at).0
            ∙ ap some (sym serves.view_pda);
        authority_pda = refl;
        plan_user = owner;
        plan_writable = refl;
        transient_writable = refl;
        dest_writable = refl;
        fee_ata_writable = refl;
      }

  module _ (agreed : Agreed f view cfg fc landed.transient.amount) (t : ℕ)
      (due : p.next_due_ts ≤ℤ pos t) (unfinished : p.next_due_ts ≤ℤ p.end_ts)
      (amortized : check_cap p (pos t) landed.wallet.amount landed.transient.amount ≡ ok tt) where
    keeper_sell-SellGuards :
        SellGuards rt
          (keeper_ctx rt f keeper user p view)
          (accounts_read rt f user cfg fc p landed)
          (ok (pos t))
          agreed.min_out
          (pos t)
          agreed.fee
          agreed.net
          agreed.min_out
    keeper_sell-SellGuards = record {
      running = serves.running;
      unfinished = unfinished;
      clock_read = refl;
      due = due;
      dest_canonical = ap (ata rt user) (sym serves.usdc);
      transient_canonical = ap (ata rt (buy_auth_pda rt user)) (sym serves.target);
      pot_canonical = ap (ata rt user) (sym serves.target);
      pulled = landed.some_in;
      amortized = amortized;
      listed = serves.listed;
      fee_due = agreed.fee_due;
      net_due = agreed.net_due;
      fee_canonical =
          λ i. ata rt (destination_or (serves.view_destination i) keeper) (sym serves.target i);
      priced = ground (arith, serves.dollar);
      floor_due = agreed.sell_floor_due;
      floor_met = omega arith;
    }

    pub keeper_sell_passes :
        (leg : SwapLeg)
        → execute_sell rt
            (keeper_ctx rt f keeper user p view)
            leg.accounts
            (ok (pos t))
            agreed.min_out
            leg.data_bytes
            c
          ≡ (swap_and_verify rt
                (sell_route rt
                  (keeper_ctx rt f keeper user p view)
                  (accounts_read rt f user cfg fc p landed)
                  leg.accounts
                  leg.data_bytes)
                agreed.fee
                landed.dest.amount
                agreed.min_out
                c.tokens
              >>= conclude_sell
                  (keeper_ctx rt f keeper user p view)
                  (accounts_read rt f user cfg fc p landed)
                  (pos t)
                  agreed.fee
                  c)
    unfolding execute_sell
    keeper_sell_passes leg =
        rw
          (
            SellValidated-validate_sell rt (keeper_ctx rt f keeper user p view) c
                keeper_sell-SellValidated,
            SellGuards-check_sell rt (keeper_ctx rt f keeper user p view)
                (accounts_read rt f user cfg fc p landed) (ok (pos t)) agreed.min_out
                keeper_sell-SellGuards,
          )
          refl

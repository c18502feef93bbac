-- ===== src/Keeper/Buys.antt =====
-- `crankBuy` of keeper/native/daemon.mjs and `execute_buy` of programs/recurring-buy/src/lib.rs: the
-- transaction that the one sends is one that the other takes.
use solana_recurring_buy.Prelude.{◌<◌, ◌≡◌, refl, sym, ◌∙◌, ap, arith, some}
use solana_recurring_buy.Prelude.Int.{ℤ, pos, ◌+ℤ◌}
use solana_recurring_buy.Errors.{◌>>=◌}
use solana_recurring_buy.Word.{u64_mod}
use solana_recurring_buy.State.{Pubkey, Config, FeeConfig}
use solana_recurring_buy.Chain.{TokenAccount, ProgramAccount, Chain, Runtime}
use solana_recurring_buy.Chain.Account.{Inv}
use solana_recurring_buy.Chain.Constraints.{config_seeds, fee_config_seeds, buy_auth_seeds}
use solana_recurring_buy.Chain.Laws.{AddressLaws, recreated}
use solana_recurring_buy.Swap.{swap_and_verify}
use solana_recurring_buy.Buy.{BuyAccounts, buy_route, conclude_buy, execute_buy}
use solana_recurring_buy.Buy.Guards.{BuyGuards, BuyGuards-check_buy}
use solana_recurring_buy.Buy.Validated.{BuyValidated, BuyValidated-validate_buy}
use solana_recurring_buy.Keeper.{Fixtures, Client, Delegation, FeeView, SwapLeg, Ix}
use solana_recurring_buy.Keeper.Amounts.{available, exec_data}
use solana_recurring_buy.Keeper.Daemon.{destination_or, fee_config_pda, bal, ata, buy_auth_pda}
use solana_recurring_buy.Keeper.Cranks.{buy_accounts, buy_leg}
use solana_recurring_buy.Keeper.Accepted.{Serves, Agreed}

-- The token accounts once the pull has landed: the transient account holds what was available and
-- its residue, and the accounts for the output and the fee exist.
pub record BuyLanded (rt : Runtime) (f : Fixtures) (client : Client) (del : Delegation) (now : ℤ)
    (fc : FeeConfig) (c : Chain) : Type 0 where
  pub transient : TokenAccount
  pub dest : TokenAccount
  pub fee_ata : TokenAccount
  pub transient_at : c.tokens (ata rt (buy_auth_pda rt del.delegator) f.usdc) ≡ some transient
  pub dest_at : c.tokens (ata rt del.delegator f.target) ≡ some dest
  pub fee_ata_at : c.tokens (ata rt fc.destination f.usdc) ≡ some fee_ata
  pub transient_mint : transient.mint ≡ f.usdc
  pub dest_mint : dest.mint ≡ f.target
  pub pulled :
      available del now +ℤ bal client (ata rt (buy_auth_pda rt del.delegator) f.usdc)
      ≡ pos transient.amount
  pub fits : transient.amount < u64_mod

-- The instruction with which the daemon calls `execute_buy`, on a net input and a `min_out`.
abbrev pub buy_call : Runtime → Fixtures → (keeper user : Pubkey) → FeeView → ℤ → ℤ → Ix
buy_call rt f keeper user view net min_out =
    Ix.execute_buy (buy_accounts rt f keeper user view) (buy_leg rt f user net).accounts
      (exec_data f.execute_buy_disc min_out (buy_leg rt f user net).data_bytes)

-- What the program reads of the accounts of that call.
abbrev pub buy_read :
    (rt : Runtime) (f : Fixtures) (client : Client) (del : Delegation) (now : ℤ) (cfg : Config)
    (fc : FeeConfig) {c : Chain}
    → BuyLanded rt f client del now fc c
    → BuyAccounts
buy_read rt f client del now cfg fc landed = record {
  config = cfg;
  transient_usdc = landed.transient;
  dest_ata = landed.dest;
  fee_config = fc;
  bump = (rt.find_program_address (buy_auth_seeds del.delegator)).1;
}

module _ (rt : Runtime) (laws : AddressLaws rt) (f : Fixtures) (client : Client) (keeper : Pubkey)
    (del : Delegation) (now : ℤ) (view : FeeView) (c : Chain) (cfg : Config) (fc : FeeConfig)
    (inv : Inv rt c) (serves : Serves rt f view c cfg fc)
    (landed : BuyLanded rt f client del now fc c) where
  keeper_buy-BuyValidated :
      BuyValidated rt
        (buy_accounts rt f keeper del.delegator view)
        c
        (buy_read rt f client del now cfg fc landed)
  keeper_buy-BuyValidated = record {
    keeper_signed = refl;
    config_at = serves.config_at;
    fee_config_at = ap c.accounts serves.view_pda ∙ serves.fee_at;
    transient_at = landed.transient_at;
    dest_at = landed.dest_at;
    fee_ata_at = (
      landed.fee_ata,
      ap (λ o. c.tokens (ata rt (destination_or o keeper) f.usdc)) serves.view_destination
          ∙ landed.fee_ata_at,
    );
    token_program = refl;
    config_pda =
        recreated rt laws config_seeds
          (inv f.config (ProgramAccount.config cfg) serves.config_at).0;
    fee_config_pda =
        recreated rt laws fee_config_seeds
          (inv (fee_config_pda rt) (ProgramAccount.fee_config fc) serves.fee_at).0
        ∙ ap some (sym serves.view_pda);
    authority_pda = refl;
    transient_writable = refl;
    dest_writable = refl;
    fee_ata_writable = refl;
  }

  module _ (agreed : Agreed f view cfg fc landed.transient.amount)
      (some_in : 0 < landed.transient.amount) where
    keeper_buy-BuyGuards :
        BuyGuards rt
          (buy_accounts rt f keeper del.delegator view)
          (buy_read rt f client del now cfg fc landed)
          agreed.min_out
          agreed.fee
          agreed.net
          agreed.min_out
    keeper_buy-BuyGuards = record {
      running = serves.running;
      dest_mint = landed.dest_mint ∙ sym serves.target;
      dest_canonical = ap (ata rt del.delegator) (sym serves.target);
      transient_mint = landed.transient_mint ∙ sym serves.usdc;
      transient_canonical = ap (ata rt (buy_auth_pda rt del.delegator)) (sym serves.usdc);
      pulled = some_in;
      listed = serves.listed;
      fee_due = agreed.fee_due;
      net_due = agreed.net_due;
      fee_canonical =
          λ i. ata rt (destination_or (serves.view_destination i) keeper) (sym serves.usdc i);
      priced = ground (arith, serves.dollar);
      floor_due = agreed.buy_floor_due;
      floor_met = omega arith;
    }

    pub keeper_buy_passes :
        (leg : SwapLeg)
        → execute_buy rt
            (buy_accounts rt f keeper del.delegator view)
            leg.accounts
            agreed.min_out
            leg.data_bytes
            c
          ≡ (swap_and_verify rt
                (buy_route rt
                  (buy_accounts rt f keeper del.delegator view)
                  (buy_read rt f client del now cfg fc landed)
                  leg.accounts
                  leg.data_bytes)
                agreed.fee
                landed.dest.amount
                agreed.min_out
                c.tokens
              >>= conclude_buy
                  (buy_accounts rt f keeper del.delegator view)
                  (buy_read rt f client del now cfg fc landed)
                  agreed.fee
                  c)
    unfolding execute_buy
    keeper_buy_passes leg =
        rw
          (
            BuyValidated-validate_buy rt _ c keeper_buy-BuyValidated,
            BuyGuards-check_buy rt _ (buy_read rt f client del now cfg fc landed) agreed.min_out
                keeper_buy-BuyGuards,
          )
          refl

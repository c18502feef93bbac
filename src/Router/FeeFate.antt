-- ===== src/Router/FeeFate.antt =====
-- programs/recurring-buy/src/lib.rs, the fee configuration under each instruction: who can change
-- it.
use solana_recurring_buy.Prelude.{◌≡◌, ◌≤◌, arith, Option, some, ◌⊎◌, inl, inr, ◌==◌, Bool-cases}
use solana_recurring_buy.Prelude.Int.{ℤ}
use solana_recurring_buy.Errors.{Result, ok}
use solana_recurring_buy.State.{Pubkey, Config, FeeConfig, max_fee_bps}
use solana_recurring_buy.Chain.{ProgramAccount, Chain, Runtime}
use solana_recurring_buy.Admin.Effects.{
  set_pause_writes, set_params_writes, set_whitelist_writes, init_config_writes,
  init_fee_config_writes, set_fee_writes, config_of, fee_config_of,
}
use solana_recurring_buy.Plan.Effects.{open_sell_plan_writes, close_sell_plan_writes}
use solana_recurring_buy.Buy.Refinement.{execute_buy-Bought}
use solana_recurring_buy.Sell.Refinement.{execute_sell-Sold}
use solana_recurring_buy.Router.{Call, Event, process}
use solana_recurring_buy.Router.Results.{silenced, bought, sold}
use solana_recurring_buy.Router.Authority.{SignedAs}

-- The admin of a configuration on the chain signed, and the new fee is within the cap.
abbrev pub FeeGranted : Call → Chain → FeeConfig → Type 0
FeeGranted x c after =
    (key : Pubkey) × (cfg : Config) × (c.accounts key ≡ some (ProgramAccount.config cfg))
    × SignedAs x cfg.admin
    × (after.fee_bps ≤ max_fee_bps)

abbrev pub FeeFate : Call → FeeConfig → Chain → Option ProgramAccount → Type 0
FeeFate x fc c after =
    (after ≡ some (ProgramAccount.fee_config (fee_config_of after)))
    × ((fee_config_of after).bump ≡ fc.bump)
    × ((fee_config_of after ≡ fc) ⊎ FeeGranted x c (fee_config_of after))

module _ (rt : Runtime) (c c' : Chain) (e : Event) (clock : Result ℤ) (k : Pubkey) (fc : FeeConfig)
    (at : c.accounts k ≡ some (ProgramAccount.fee_config fc)) where
  -- After any successful call, a fee configuration that was there is still there with its bump, and if
  -- anything else of it has changed then the admin of a configuration on the chain signed the call
  -- and the new fee is at most the compiled-in cap.
  pub process-FeeFate :
      (x : Call) → process rt x clock c ≡ ok (c', e) → FeeFate x fc c (c'.accounts k)
  unfolding process
  process-FeeFate (Call.init_config ctx ps price slip) h =
      let w = init_config_writes rt c ctx ps price slip (silenced _ h) in ground (arith, w.8, w.9)
  process-FeeFate (Call.set_pause ctx paused) h =
      let w = set_pause_writes rt c ctx paused (silenced _ h) in ground (arith, w.1, w.2)
  process-FeeFate (Call.set_params ctx price slip) h =
      let w = set_params_writes rt c ctx price slip (silenced _ h) in ground (arith, w.1, w.3)
  process-FeeFate (Call.set_whitelist ctx ps) h =
      let w = set_whitelist_writes rt c ctx ps (silenced _ h) in ground (arith, w.2, w.5)
  process-FeeFate (Call.init_fee_config ctx fee_bps destination) h =
      let w = init_fee_config_writes rt c ctx fee_bps destination (silenced _ h) in
      ground (arith, w.3, w.4)
  process-FeeFate (Call.set_fee ctx fee_bps destination) h =
      let w = set_fee_writes rt c ctx fee_bps destination (silenced _ h) in
      elim (Bool-cases (ctx.fee_config.key == k)) [
        | inl same ↦ (
          ground (arith, w.2, w.3),
          ground (arith, w.2, w.3),
          inr (
            ctx.config.key,
            config_of (c.accounts ctx.config.key),
            w.0.config_at,
            (w.0.signed, w.0.is_admin),
            ground (arith, w.1, w.3),
          ),
        )
        | inr other ↦ (ground (arith, w.3), ground (arith, w.3), inl (ground (arith, w.3)))
      ]
  process-FeeFate (Call.open_sell_plan ctx end_ts period_secs) h =
      let w = open_sell_plan_writes rt c ctx clock end_ts period_secs (silenced _ h) in
      ground (arith, w.7, w.8)
  process-FeeFate (Call.close_sell_plan ctx) h =
      let w = close_sell_plan_writes rt c ctx (silenced _ h) in ground (arith, w.2, w.4)
  process-FeeFate (Call.execute_buy ctx remaining min_out swap_data) h =
      let b = execute_buy-Bought rt ctx remaining min_out swap_data c c' _ (bought _ h) in
      ground (arith, b.accounts_kept)
  process-FeeFate (Call.execute_sell ctx remaining min_out swap_data) h =
      let s = execute_sell-Sold rt ctx remaining clock min_out swap_data c c' _ (sold _ h) in
      ground (arith, s.accounts_set, s.validated.sell_plan_at)

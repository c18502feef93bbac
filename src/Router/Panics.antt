-- ===== src/Router/Panics.antt =====
-- programs/recurring-buy/src/lib.rs and state.rs: where an instruction could panic (a division, an
-- unchecked subtraction or an array index), on well-formed accounts.
pub mod Execute
use solana_recurring_buy.Prelude.{
  ℕ, Bool, ◌≤◌, ◌≡◌, ◌≢◌, refl, sym, ◌∙◌, arith, inl, inr, List, [], ◌∷◌, length, leb, leb→le,
  Bool-cases,
}
use solana_recurring_buy.Prelude.Int.{ℤ}
use solana_recurring_buy.Errors.{Result, ok, err, panicked, ◌>>=◌, ◌>>◌, require, too_many_venues}
use solana_recurring_buy.State.{Pubkey, Config, max_swap_programs}
use solana_recurring_buy.Chain.{AccountInfo, Tokens, Seed, Instruction, Transfer, Chain, Runtime}
use solana_recurring_buy.Chain.Account.{Inv}
use solana_recurring_buy.Chain.Clock.{IsClock}
use solana_recurring_buy.Chain.Laws.{IsWide}
use solana_recurring_buy.Admin.{
  InitConfig, AdminOnly, InitFeeConfig, SetFee, set_swap_programs, admin_only, init_config,
  set_pause, set_params, set_whitelist, init_fee_config, set_fee,
}
use solana_recurring_buy.Admin.Effects.{initial_config}
use solana_recurring_buy.Admin.Venues.{set_swap_programs_lists}
use solana_recurring_buy.Router.Panics.Execute.{
  ReturnsErrors, bind_safe, execute_buy_safe, execute_sell_safe,
}
use solana_recurring_buy.Router.{Call, process}
use solana_recurring_buy.Buy.{execute_buy}
use solana_recurring_buy.Sell.{execute_sell}
use solana_recurring_buy.Plan.{OpenSellPlan, CloseSellPlan, open_sell_plan, close_sell_plan}

module _ (rt : Runtime) (c : Chain) where
  init_config_safe :
      (ctx : InitConfig) (ps : List Pubkey) (price slip : ℕ)
      → init_config rt ctx ps price slip c ≢ err panicked
  unfolding init_config
  init_config_safe ctx ps price slip h = elim (Bool-cases (leb (length ps) max_swap_programs)) [
    | inl few ↦
        let (cfg, made, listed) =
          set_swap_programs_lists ps (initial_config ctx) (leb→le _ _ few) in
        ground arith
    | inr many ↦ ground arith
  ]

  set_pause_safe : (ctx : AdminOnly) (paused : Bool) → set_pause rt ctx paused c ≢ err panicked
  unfolding set_pause admin_only
  set_pause_safe ctx paused h = ground arith

  set_params_safe :
      (ctx : AdminOnly) (price slip : ℕ) → set_params rt ctx price slip c ≢ err panicked
  unfolding set_params admin_only
  set_params_safe ctx price slip h = ground arith

  init_fee_config_safe :
      (ctx : InitFeeConfig) (fee_bps : ℕ) (destination : Pubkey)
      → init_fee_config rt ctx fee_bps destination c ≢ err panicked
  unfolding init_fee_config
  init_fee_config_safe ctx fee_bps destination h = ground arith

  set_fee_safe :
      (ctx : SetFee) (fee_bps : ℕ) (destination : Pubkey)
      → set_fee rt ctx fee_bps destination c ≢ err panicked
  unfolding set_fee
  set_fee_safe ctx fee_bps destination h = ground arith

  close_sell_plan_safe : (ctx : CloseSellPlan) → close_sell_plan rt ctx c ≢ err panicked
  unfolding close_sell_plan
  close_sell_plan_safe ctx h = ground arith

  open_sell_plan_safe :
      (ctx : OpenSellPlan) (clock : Result ℤ) (end_ts period_secs : ℤ)
      → clock ≢ err panicked
      → open_sell_plan rt ctx clock end_ts period_secs c ≢ err panicked
  unfolding open_sell_plan
  open_sell_plan_safe ctx clock end_ts period_secs read h = ground arith

  admin_only_safe : (ctx : AdminOnly) → admin_only rt ctx c ≢ err panicked
  unfolding admin_only
  admin_only_safe ctx h = ground arith

  -- A list that fits is stored, and any other is refused before.
  storing_safe :
      (ps : List Pubkey) (cfg : Config) (rest : Config → Chain)
      → (require (leb (length ps) max_swap_programs) too_many_venues
          >> ◌>>=◌ {U = Chain} (set_swap_programs ps cfg) (λ cfg'. ok (rest cfg')))
        ≢ err panicked
  storing_safe ps cfg rest h = elim (Bool-cases (leb (length ps) max_swap_programs)) [
    | inl few ↦
        let (cfg', made, listed) = set_swap_programs_lists ps cfg (leb→le _ _ few) in ground arith
    | inr many ↦ ground arith
  ]

  set_whitelist_safe :
      (ctx : AdminOnly) (ps : List Pubkey) → set_whitelist rt ctx ps c ≢ err panicked
  unfolding set_whitelist
  set_whitelist_safe ctx ps =
      bind_safe (admin_only rt ctx c) _ (admin_only_safe ctx) (λ cfg e. storing_safe ps cfg _)

module _ (rt : Runtime) (c : Chain) (clock : Result ℤ) where
  -- When the accounts of the program are well formed, the token amounts are 64-bit words, the clock
  -- returns a time in range or an error of its own, and a token transfer or a venue that fails
  -- returns an error, no instruction panics, whatever its accounts and arguments: no slot index is
  -- out of range, no division is by zero and no unchecked subtraction passes below zero.
  pub process_safe :
      Inv rt c
      → IsWide c.tokens
      → IsClock clock
      → clock ≢ err panicked
      → ReturnsErrors rt
      → (x : Call) → process rt x clock c ≢ err panicked
  unfolding process
  process_safe inv wide timely read returns (Call.init_config ctx ps price slip) =
      bind_safe (init_config rt ctx ps price slip c) _ (init_config_safe rt c ctx ps price slip)
        (λ c' e h. ground arith)
  process_safe inv wide timely read returns (Call.set_pause ctx paused) =
      bind_safe (set_pause rt ctx paused c) _ (set_pause_safe rt c ctx paused)
        (λ c' e h. ground arith)
  process_safe inv wide timely read returns (Call.set_params ctx price slip) =
      bind_safe (set_params rt ctx price slip c) _ (set_params_safe rt c ctx price slip)
        (λ c' e h. ground arith)
  process_safe inv wide timely read returns (Call.set_whitelist ctx ps) =
      bind_safe (set_whitelist rt ctx ps c) _ (set_whitelist_safe rt c ctx ps)
        (λ c' e h. ground arith)
  process_safe inv wide timely read returns (Call.init_fee_config ctx fee_bps destination) =
      bind_safe (init_fee_config rt ctx fee_bps destination c) _
        (init_fee_config_safe rt c ctx fee_bps destination) (λ c' e h. ground arith)
  process_safe inv wide timely read returns (Call.set_fee ctx fee_bps destination) =
      bind_safe (set_fee rt ctx fee_bps destination c) _ (set_fee_safe rt c ctx fee_bps destination)
        (λ c' e h. ground arith)
  process_safe inv wide timely read returns (Call.open_sell_plan ctx end_ts period_secs) =
      bind_safe (open_sell_plan rt ctx clock end_ts period_secs c) _
        (open_sell_plan_safe rt c ctx clock end_ts period_secs read) (λ c' e h. ground arith)
  process_safe inv wide timely read returns (Call.close_sell_plan ctx) =
      bind_safe (close_sell_plan rt ctx c) _ (close_sell_plan_safe rt c ctx)
        (λ c' e h. ground arith)
  process_safe inv wide timely read returns (Call.execute_buy ctx remaining min_out swap_data) =
      bind_safe (execute_buy rt ctx remaining min_out swap_data c) _
        (execute_buy_safe rt c inv wide ctx remaining min_out swap_data returns)
        (λ done e h. ground arith)
  process_safe inv wide timely read returns (Call.execute_sell ctx remaining min_out swap_data) =
      bind_safe (execute_sell rt ctx remaining clock min_out swap_data c) _
        (execute_sell_safe rt c inv wide ctx remaining clock min_out swap_data timely read returns)
        (λ done e h. ground arith)

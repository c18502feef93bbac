-- ===== src/Router/Invariant.antt =====
-- programs/recurring-buy/src/lib.rs: the well-formedness of the accounts under each instruction.
use solana_recurring_buy.Prelude.{
  ℕ, ◌<◌, ◌≡◌, sym, ap, subst, subst₂, ==→eq, arith, Bool, List, ◌==◌, inl, inr, Bool-cases,
}
use solana_recurring_buy.Prelude.Int.{ℤ, ◌≤ℤ◌}
use solana_recurring_buy.Errors.{Result, ok}
use solana_recurring_buy.Word.{u64_mod, i64_max}
use solana_recurring_buy.State.{Pubkey, Config, SellPlan}
use solana_recurring_buy.State.Valid.{IsTime}
use solana_recurring_buy.Chain.{AccountInfo, ProgramAccount, Chain, Runtime, store, remove}
use solana_recurring_buy.Admin.{
  InitConfig, AdminOnly, InitFeeConfig, SetFee, init_config, set_pause, set_params, set_whitelist,
  init_fee_config, set_fee,
}
use solana_recurring_buy.Admin.Venues.{set_swap_programs-Listed, Listed-IsValidConfig}
use solana_recurring_buy.Admin.Effects.{
  set_pause_writes, set_params_writes, set_whitelist_writes, init_config_writes,
  init_fee_config_writes, set_fee_writes, initial_config,
}
use solana_recurring_buy.Plan.{OpenSellPlan, CloseSellPlan, open_sell_plan, close_sell_plan}
use solana_recurring_buy.Plan.Effects.{
  open_sell_plan_writes, close_sell_plan_writes, opened-IsValidSellPlan,
}
use solana_recurring_buy.Chain.Clock.{IsClock}
use solana_recurring_buy.Chain.Account.{IsValidAccount, Inv}
use solana_recurring_buy.Schedule.Gate.{advance-Jumped, Jumped-IsValidSellPlan}
use solana_recurring_buy.Buy.{ExecuteBuy, BuyExecuted, execute_buy}
use solana_recurring_buy.Buy.Refinement.{execute_buy-Bought}
use solana_recurring_buy.Sell.{ExecuteSell, SellExecuted, execute_sell}
use solana_recurring_buy.Sell.Refinement.{execute_sell-Sold}
use solana_recurring_buy.Router.{Call}

-- The u64 and i64 arguments of a call are in their ranges.
abbrev pub IsTyped : Call → Type 0
IsTyped (Call.init_config ctx ps price slip) = price < u64_mod
IsTyped (Call.set_params ctx price slip) = price < u64_mod
IsTyped (Call.open_sell_plan ctx end_ts period_secs) = end_ts ≤ℤ i64_max
IsTyped _ = Unit

module _ (rt : Runtime) (c : Chain) (inv : Inv rt c) where
  pub store-Inv : (k : Pubkey) (a : ProgramAccount) → IsValidAccount rt k a → Inv rt (store k a c)
  store-Inv k a v j b h = elim (Bool-cases (k == j)) [
    | inl same ↦ let e : a ≡ b = ground arith in subst₂ (IsValidAccount rt) (==→eq k j same) e v
    | inr other ↦ inv j b (rw other at h)
  ]

  remove-Inv : (k : Pubkey) → Inv rt (remove k c)
  remove-Inv k j b h = elim (Bool-cases (k == j)) [
    | inl same ↦ ground arith
    | inr other ↦ inv j b (rw other at h)
  ]

  pub set_pause-Inv :
      (ctx : AdminOnly) (paused : Bool) {c' : Chain} → set_pause rt ctx paused c ≡ ok c' → Inv rt c'
  set_pause-Inv ctx paused h =
      let (cfg, access, e) = set_pause_writes rt c ctx paused h in
      let v = inv ctx.config.key (ProgramAccount.config cfg) access.config_at in
      subst (Inv rt) (sym e) (store-Inv ctx.config.key _ (v.0, ground arith))

  pub set_params-Inv :
      (ctx : AdminOnly) (price slip : ℕ) {c' : Chain}
      → price < u64_mod
      → set_params rt ctx price slip c ≡ ok c'
      → Inv rt c'
  set_params-Inv ctx price slip typed h =
      let (cfg, access, le, e) = set_params_writes rt c ctx price slip h in
      let v = inv ctx.config.key (ProgramAccount.config cfg) access.config_at in
      subst (Inv rt) (sym e) (store-Inv ctx.config.key _ (v.0, ground arith))

  pub set_whitelist-Inv :
      (ctx : AdminOnly) (ps : List Pubkey) {c' : Chain}
      → set_whitelist rt ctx ps c ≡ ok c'
      → Inv rt c'
  set_whitelist-Inv ctx ps h =
      let (cfg, cfg', access, le, set, e) = set_whitelist_writes rt c ctx ps h in
      let v = inv ctx.config.key (ProgramAccount.config cfg) access.config_at in
      let l = set_swap_programs-Listed ps cfg cfg' le set in
      subst (Inv rt) (sym e) (
        store-Inv ctx.config.key _
          (rw (ap (λ (c : Config). c.bump) l.rest) v.0, Listed-IsValidConfig ps cfg cfg' l le v.1))

  pub set_fee-Inv :
      (ctx : SetFee) (fee_bps : ℕ) (destination : Pubkey) {c' : Chain}
      → set_fee rt ctx fee_bps destination c ≡ ok c'
      → Inv rt c'
  set_fee-Inv ctx fee_bps destination h =
      let (access, le, at, e) = set_fee_writes rt c ctx fee_bps destination h in
      let v = inv ctx.fee_config.key _ at in
      subst (Inv rt) (sym e) (store-Inv ctx.fee_config.key _ (v.0, ground arith))

  pub init_fee_config-Inv :
      (ctx : InitFeeConfig) (fee_bps : ℕ) (destination : Pubkey) {c' : Chain}
      → init_fee_config rt ctx fee_bps destination c ≡ ok c'
      → Inv rt c'
  init_fee_config-Inv ctx fee_bps destination h =
      let (access, le, address, vacant, e) =
        init_fee_config_writes rt c ctx fee_bps destination h in
      subst (Inv rt) (sym e) (store-Inv ctx.fee_config.key _ (ground arith, ground arith))

  pub init_config-Inv :
      (ctx : InitConfig) (ps : List Pubkey) (price slip : ℕ) {c' : Chain}
      → price < u64_mod
      → init_config rt ctx ps price slip c ≡ ok c'
      → Inv rt c'
  init_config-Inv ctx ps price slip typed h =
      let (cfg, set, signed, le, slips, scale, quote, address, vacant, e) =
        init_config_writes rt c ctx ps price slip h in
      let l = set_swap_programs-Listed ps (initial_config ctx) cfg le set in
      subst (Inv rt) (sym e) (
        store-Inv ctx.config.key _ (
          ground arith,
          record {
            slots = l.slots;
            counted = rw l.count le;
            slippage = slips;
            scale = scale;
            price = typed;
          },
        ))

  -- The end of a new plan lies after its start, which is a time.
  pub open_sell_plan-Inv :
      (ctx : OpenSellPlan) (clock : Result ℤ) (end_ts period_secs : ℤ) {c' : Chain}
      → IsClock clock
      → end_ts ≤ℤ i64_max
      → open_sell_plan rt ctx clock end_ts period_secs c ≡ ok c'
      → Inv rt c'
  open_sell_plan-Inv ctx clock end_ts period_secs timely typed h =
      let (now, read, signed, lo, hi, later, address, vacant, e) =
        open_sell_plan_writes rt c ctx clock end_ts period_secs h in
      let t : IsTime now = rw read at timely in
      subst (Inv rt) (sym e)
        (store-Inv ctx.sell_plan.key _ (ground arith, opened-IsValidSellPlan _ t lo hi later typed))

  pub close_sell_plan-Inv :
      (ctx : CloseSellPlan) {c' : Chain} → close_sell_plan rt ctx c ≡ ok c' → Inv rt c'
  close_sell_plan-Inv ctx h =
      let (plan, signed, at, owner, e) = close_sell_plan_writes rt c ctx h in
      subst (Inv rt) (sym e) (remove-Inv ctx.sell_plan.key)

  pub execute_buy-Inv :
      (ctx : ExecuteBuy) (remaining : List AccountInfo) (min_out : ℕ) (swap_data : List ℕ)
      {c' : Chain} {event : BuyExecuted}
      → execute_buy rt ctx remaining min_out swap_data c ≡ ok (c', event)
      → Inv rt c'
  execute_buy-Inv ctx remaining min_out swap_data {c'} {event} h k a at =
      let b = execute_buy-Bought rt ctx remaining min_out swap_data c c' event h in
      inv k a (rw b.accounts_kept at at)

  pub execute_sell-Inv :
      (ctx : ExecuteSell) (remaining : List AccountInfo) (clock : Result ℤ) (min_out : ℕ)
      (swap_data : List ℕ) {c' : Chain} {event : SellExecuted}
      → IsClock clock
      → execute_sell rt ctx remaining clock min_out swap_data c ≡ ok (c', event)
      → Inv rt c'
  execute_sell-Inv ctx remaining clock min_out swap_data {c'} {event} timely h k a at =
      let s = execute_sell-Sold rt ctx remaining clock min_out swap_data c c' event h in
      let t : IsTime s.now = rw s.guards.clock_read at timely in
      let v =
        inv ctx.sell_plan.key (ProgramAccount.sell_plan s.acc.sell_plan) s.validated.sell_plan_at in
      let j = advance-Jumped s.acc.sell_plan s.now v.1 t s.guards.due s.plan s.advanced in
      store-Inv ctx.sell_plan.key (ProgramAccount.sell_plan s.plan)
        (
          rw (ap (λ (p : SellPlan). p.user) j.rest, ap (λ (p : SellPlan). p.bump) j.rest) v.0,
          Jumped-IsValidSellPlan s.acc.sell_plan s.plan s.now j v.1,
        )
        k a (rw s.accounts_set at at)

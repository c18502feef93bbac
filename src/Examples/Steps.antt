-- ===== src/Examples/Steps.antt =====
-- The theorems on sequences of calls, from a chain without accounts of the program to a paused one.
use solana_recurring_buy.Prelude.{◌+◌, ◌≡◌, refl, arith, true, none, some, [], ◌∷◌}
use solana_recurring_buy.Prelude.Int.{ℤ, pos, ◌+ℤ◌}
use solana_recurring_buy.Errors.{Result, ok}
use solana_recurring_buy.State.{Pubkey}
use solana_recurring_buy.State.Valid.{IsTime}
use solana_recurring_buy.Chain.{ProgramAccount, Chain, store, remove}
use solana_recurring_buy.Chain.Account.{Inv}
use solana_recurring_buy.Admin.{
  InitConfig, AdminOnly, InitFeeConfig, fill_from, set_swap_programs, admin_only, init_config,
  set_pause, init_fee_config,
}
use solana_recurring_buy.Plan.{OpenSellPlan, open_sell_plan, close_sell_plan}
use solana_recurring_buy.Plan.Lifecycle.{open_close_round_trip}
use solana_recurring_buy.Router.{Call, silent, process}
use solana_recurring_buy.Router.Reach.{Reach, here, next, call, Reach-Inv}
use solana_recurring_buy.Router.Authority.{ConfigFate, process-ConfigFate}
use solana_recurring_buy.Router.Moves.{Move, absent, active}
use solana_recurring_buy.Router.Stages.{process-Move}
use solana_recurring_buy.Router.Plans.{PlanFate, process-PlanFate}
use solana_recurring_buy.Examples.Ledger.{runtime, address_laws}
use solana_recurring_buy.Examples.World.{
  admin, user, venue, usdc_mint, target_mint, treasury, system_program, config_key, fee_config_key,
  plan_key, account, writable, signer, config, plan, now, empty, configured, charged, chain,
  chain-Inv, charged-Inv,
}

abbrev clock : Result ℤ
clock = ok (pos now)

abbrev init_ctx : InitConfig
init_ctx = record {
  admin = signer admin;
  config = writable config_key;
  target_mint = account target_mint;
  usdc_mint = account usdc_mint;
  system_program = account system_program;
}

abbrev init_call : Call
init_call = Call.init_config init_ctx (venue ∷ []) 100_000_000 100

initialised : process runtime init_call clock empty ≡ ok (configured, silent)
unfolding process init_config set_swap_programs fill_from
initialised = refl

abbrev init_fee_ctx : InitFeeConfig
init_fee_ctx = record {
  admin = signer admin;
  config = account config_key;
  fee_config = writable fee_config_key;
  system_program = account system_program;
}

abbrev fee_call : Call
fee_call = Call.init_fee_config init_fee_ctx 20 treasury

fee_set : process runtime fee_call clock configured ≡ ok (charged, silent)
unfolding process init_fee_config
fee_set = refl

abbrev open_ctx : OpenSellPlan
open_ctx = record {
  user = signer user;
  sell_plan = writable plan_key;
  system_program = account system_program;
}

abbrev open_call : Call
open_call = Call.open_sell_plan open_ctx (pos (now + 864_000)) (pos 86_400)

opened : process runtime open_call clock charged ≡ ok (chain, silent)
unfolding process open_sell_plan ◌+ℤ◌
opened = refl

opened_plan :
    open_sell_plan runtime open_ctx clock (pos (now + 864_000)) (pos 86_400) charged ≡ ok chain
unfolding open_sell_plan ◌+ℤ◌
opened_plan = refl

now-IsTime : IsTime (pos now)
now-IsTime = ground arith

abbrev three_calls : Reach runtime empty chain
three_calls =
    next
      (next (next here (call init_call clock silent (omega arith) now-IsTime initialised))
        (call fee_call clock silent tt now-IsTime fee_set))
      (call open_call clock silent (omega arith) now-IsTime opened)

Reach-Inv_example : Inv runtime chain
Reach-Inv_example = Reach-Inv runtime (λ k. refl) three_calls

abbrev admin_ctx : AdminOnly
admin_ctx = record { admin = signer admin; config = writable config_key }

abbrev pause_call : Call
pause_call = Call.set_pause admin_ctx true

abbrev paused_chain : Chain
paused_chain = store config_key (ProgramAccount.config (record config { paused = true })) chain

paused_by : process runtime pause_call clock chain ≡ ok (paused_chain, silent)
unfolding process set_pause admin_only
paused_by = refl

process-ConfigFate_example :
    ConfigFate pause_call config (some (ProgramAccount.config (record config { paused = true })))
process-ConfigFate_example =
    process-ConfigFate runtime chain paused_chain silent clock config_key config refl pause_call
      paused_by

abbrev close_call : Call
close_call = Call.close_sell_plan (record { user = signer user; sell_plan = writable plan_key })

closed_by : process runtime close_call clock chain ≡ ok (remove plan_key chain, silent)
unfolding process close_sell_plan
closed_by = refl

process-PlanFate_example : PlanFate close_call plan clock none
process-PlanFate_example =
    process-PlanFate runtime chain (remove plan_key chain) silent clock chain-Inv now-IsTime
      plan_key plan refl close_call closed_by

open_close_round_trip_example :
    (c'' : Chain) × (close_sell_plan runtime
        (record { user = signer user; sell_plan = writable plan_key })
        chain
      ≡ ok c'')
    × ((k : Pubkey) → c''.accounts k ≡ charged.accounts k)
    × (c''.tokens ≡ charged.tokens)
    × (c''.mints ≡ charged.mints)
open_close_round_trip_example =
    open_close_round_trip runtime open_ctx clock (pos (now + 864_000)) (pos 86_400) charged chain
      opened_plan address_laws (λ e. ground arith)

process-Move_example : Move runtime plan_key open_call absent active
unfolding ◌+ℤ◌
process-Move_example =
    process-Move runtime plan_key charged chain clock open_call silent charged-Inv now-IsTime opened

-- ===== src/Examples/Exits.antt =====
-- The owner's and the admin's way out after other calls, and the step relation on one call.
use solana_recurring_buy.Prelude.{◌≡◌, ◌↔◌, refl, arith, true, false}
use solana_recurring_buy.Prelude.Int.{ℤ, pos}
use solana_recurring_buy.Errors.{Result, ok}
use solana_recurring_buy.Chain.{ProgramAccount, store, remove}
use solana_recurring_buy.State.Valid.{IsTime}
use solana_recurring_buy.Chain.Account.{Inv}
use solana_recurring_buy.Plan.{CloseSellPlan}
use solana_recurring_buy.Router.{Call, silent, process}
use solana_recurring_buy.Router.Invariant.{store-Inv}
use solana_recurring_buy.Router.Liveness.{owner_can_close, admin_can_pause}
use solana_recurring_buy.Router.Spec.{Transition}
use solana_recurring_buy.Router.Spec.Refinement.{process_refines}
use solana_recurring_buy.Examples.Ledger.{runtime, address_laws}
use solana_recurring_buy.Examples.World.{
  user, plan_key, config_key, config, writable, signer, now, chain, chain-Inv, tokens-IsWide,
}
use solana_recurring_buy.Examples.Standing.{admin_ctx, close_call, paused_chain, paused-Calm}
use solana_recurring_buy.Examples.Draws.{finished_plan, finished-Inv, later_chain, after_a_buy}

abbrev clock : Result ℤ
clock = ok (pos now)

now-IsTime : IsTime (pos now)
now-IsTime = ground arith

abbrev close_ctx : CloseSellPlan
close_ctx = record { user = signer user; sell_plan = writable plan_key }

owner_can_close_example :
    process runtime close_call clock later_chain ≡ ok (remove plan_key later_chain, silent)
owner_can_close_example =
    owner_can_close runtime address_laws plan_key finished_plan finished-Inv refl close_ctx clock
      after_a_buy refl refl refl refl refl (λ e. ground arith)

paused-Inv : Inv runtime paused_chain
paused-Inv =
    store-Inv runtime chain chain-Inv config_key
      (ProgramAccount.config (record config { paused = true })) (refl, ground arith)

abbrev resume_call : Call
resume_call = Call.set_pause admin_ctx false

admin_can_pause_example :
    process runtime resume_call clock (remove plan_key paused_chain)
    ≡ ok (store config_key (ProgramAccount.config config) (remove plan_key paused_chain), silent)
admin_can_pause_example =
    admin_can_pause runtime address_laws config_key (record config { paused = true }) admin_ctx
      false clock paused-Inv refl paused-Calm refl refl refl refl

process_refines_example :
    (process runtime close_call clock chain ≡ ok (remove plan_key chain, silent))
    ↔ Transition runtime clock chain (remove plan_key chain) close_call silent
process_refines_example =
    process_refines runtime clock chain chain-Inv tokens-IsWide now-IsTime close_call
      (remove plan_key chain) silent

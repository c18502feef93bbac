-- ===== src/Examples/Standing.antt =====
-- The admin's settings in force: a new whitelist and a pause that outlast a user's call.
use solana_recurring_buy.Prelude.{◌≡◌, refl, arith, true, List, [], ◌∷◌, contains}
use solana_recurring_buy.Prelude.Int.{ℤ, pos}
use solana_recurring_buy.Errors.{Result, ok, err}
use solana_recurring_buy.State.{Pubkey, is_whitelisted}
use solana_recurring_buy.Fee.{execution_fee, net_input}
use solana_recurring_buy.Floor.{price_floor}
use solana_recurring_buy.Chain.{ProgramAccount, Chain, store, remove}
use solana_recurring_buy.Admin.{
  AdminOnly, fill_from, set_swap_programs, admin_only, set_pause, set_whitelist,
}
use solana_recurring_buy.Plan.{close_sell_plan}
use solana_recurring_buy.Swap.{
  account_metas, skim_fee, invoke_venue, verify_outcome, swap_and_verify,
}
use solana_recurring_buy.MockSwap.{validate_swap, swap}
use solana_recurring_buy.Buy.{validate_buy, check_buy, check_buy_bindings, execute_buy}
use solana_recurring_buy.Router.{Call, Event, silent, buy_executed, process}
use solana_recurring_buy.Router.Authority.{SignedAs}
use solana_recurring_buy.Router.Standing.{Calm, still, call, set_pause_lasts, set_whitelist_lasts}
use solana_recurring_buy.Examples.Ledger.{runtime}
use solana_recurring_buy.Examples.World.{
  admin, user, venue, config_key, plan_key, writable, signer, config, now, chain, buy_ctx,
  buy_accounts,
}

abbrev clock : Result ℤ
clock = ok (pos now)

abbrev pub admin_ctx : AdminOnly
admin_ctx = record { admin = signer admin; config = writable config_key }

abbrev pub close_call : Call
close_call = Call.close_sell_plan (record { user = signer user; sell_plan = writable plan_key })

abbrev buy_call : Call
buy_call = Call.execute_buy buy_ctx buy_accounts 99_000_000 (9_980_000 ∷ 99_500_000 ∷ [])

user_is_not_admin : ¬ (SignedAs close_call admin)
user_is_not_admin (signed, same) = ground arith

abbrev pub paused_chain : Chain
paused_chain = store config_key (ProgramAccount.config (record config { paused = true })) chain

pause_set : set_pause runtime admin_ctx true chain ≡ ok paused_chain
unfolding set_pause admin_only
pause_set = refl

pub paused-Calm : Calm runtime admin paused_chain (remove plan_key paused_chain)
unfolding process close_sell_plan
paused-Calm = call close_call clock silent still refl user_is_not_admin

set_pause_lasts_example :
    ¬ (process runtime buy_call clock (remove plan_key paused_chain) ≡ ok (chain, silent))
set_pause_lasts_example =
    set_pause_lasts runtime admin_ctx chain paused_chain (remove plan_key paused_chain) chain
      buy_call clock silent venue pause_set paused-Calm refl

abbrev venues : List Pubkey
venues = 77 ∷ venue ∷ []

abbrev listed_chain : Chain
listed_chain =
    store config_key
      (ProgramAccount.config
        (record config { swap_programs = 77 ∷ venue ∷ 0 ∷ []; swap_program_count = 2 }))
      chain

venues_set : set_whitelist runtime admin_ctx venues chain ≡ ok listed_chain
unfolding set_whitelist set_swap_programs fill_from admin_only
venues_set = refl

listed-Calm : Calm runtime admin listed_chain (remove plan_key listed_chain)
unfolding process close_sell_plan
listed-Calm = call close_call clock silent still refl user_is_not_admin

abbrev chain_of : {E : Type 0} → Result (Chain × E) → Chain
chain_of (ok (c, e)) = c
chain_of (err e) = chain

abbrev bought_chain : Chain
bought_chain = chain_of (process runtime buy_call clock (remove plan_key listed_chain))

abbrev bought_event : Event
bought_event = buy_executed (record {
  user = user;
  amount_in = 10_000_000;
  amount_out = 99_500_000;
  fee = 20_000;
  venue = venue;
})

bought_listed :
    process runtime buy_call clock (remove plan_key listed_chain) ≡ ok (bought_chain, bought_event)
unfolding process execute_buy validate_buy check_buy check_buy_bindings is_whitelisted execution_fee
    net_input price_floor swap_and_verify skim_fee invoke_venue account_metas verify_outcome swap
    validate_swap
bought_listed = refl

set_whitelist_lasts_example : contains venues venue ≡ true
set_whitelist_lasts_example =
    set_whitelist_lasts runtime admin_ctx chain listed_chain (remove plan_key listed_chain)
      bought_chain buy_call clock bought_event venue venues venues_set listed-Calm refl
      bought_listed

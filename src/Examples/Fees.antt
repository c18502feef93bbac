-- ===== src/Examples/Fees.antt =====
-- A fee that the admin has set, charged by a buy that follows after another call.
use solana_recurring_buy.Prelude.{◌*◌, ◌/◌, ◌≡◌, refl, arith, [], ◌∷◌}
use solana_recurring_buy.Prelude.Int.{ℤ, pos}
use solana_recurring_buy.Errors.{Result, ok, err}
use solana_recurring_buy.State.{is_whitelisted}
use solana_recurring_buy.Fee.{execution_fee, net_input}
use solana_recurring_buy.Floor.{price_floor}
use solana_recurring_buy.Chain.{ProgramAccount, Chain, store}
use solana_recurring_buy.Admin.{SetFee, set_fee}
use solana_recurring_buy.Swap.{
  account_metas, skim_fee, invoke_venue, verify_outcome, swap_and_verify,
}
use solana_recurring_buy.MockSwap.{validate_swap, swap}
use solana_recurring_buy.Buy.{validate_buy, check_buy, check_buy_bindings, execute_buy}
use solana_recurring_buy.Router.{Call, silent, process}
use solana_recurring_buy.Router.FeeStanding.{set_fee_lasts}
use solana_recurring_buy.Router.Charges.{FeePaid}
use solana_recurring_buy.Router.Authority.{SignedAs}
use solana_recurring_buy.Router.Completed.{Unattended, alone, call}
use solana_recurring_buy.State.Valid.{IsTime}
use solana_recurring_buy.Plan.{close_sell_plan}
use solana_recurring_buy.Chain.{remove}
use solana_recurring_buy.Router.{Event, buy_executed}
use solana_recurring_buy.Examples.Standing.{close_call}
use solana_recurring_buy.Examples.World.{plan_key, chain-Inv}
use solana_recurring_buy.Examples.Ledger.{runtime, ledger_laws}
use solana_recurring_buy.Examples.World.{
  admin, user, venue, treasury, config_key, fee_config_key, account, writable, signer, fee_config,
  now, tokens-IsWide, chain, buy_ctx, buy_accounts,
}

abbrev clock : Result ℤ
clock = ok (pos now)

abbrev chain_of : {E : Type 0} → Result (Chain × E) → Chain
chain_of (ok (c, e)) = c
chain_of (err e) = chain

abbrev fee_ctx : SetFee
fee_ctx = record {
  admin = signer admin;
  config = account config_key;
  fee_config = writable fee_config_key;
}

abbrev fee_chain : Chain
fee_chain =
    store fee_config_key (ProgramAccount.fee_config (record fee_config { fee_bps = 30 })) chain

fee_set : set_fee runtime fee_ctx 30 treasury chain ≡ ok fee_chain
unfolding set_fee
fee_set = refl

abbrev fee_call : Call
fee_call = Call.set_fee fee_ctx 30 treasury

fee_changed : process runtime fee_call clock chain ≡ ok (fee_chain, silent)
unfolding process set_fee
fee_changed = refl

-- The user closes the plan, and then a keeper buys.
abbrev closed_chain : Chain
closed_chain = remove plan_key fee_chain

user_is_not_admin : ¬ (SignedAs close_call admin)
user_is_not_admin (signed, same) = ground arith

now-IsTime : IsTime (pos now)
now-IsTime = ground arith

fee-Unattended : Unattended runtime admin fee_chain closed_chain
unfolding process close_sell_plan
fee-Unattended = call close_call clock silent alone tt now-IsTime refl user_is_not_admin

abbrev fee_buy_call : Call
fee_buy_call = Call.execute_buy buy_ctx buy_accounts 99_000_000 (9_970_000 ∷ 99_500_000 ∷ [])

abbrev fee_buy : Result (Chain × Event)
fee_buy = process runtime fee_buy_call clock closed_chain

abbrev fee_buy_event : Event
fee_buy_event = buy_executed (record {
  user = user;
  amount_in = 10_000_000;
  amount_out = 99_500_000;
  fee = 30_000;
  venue = venue;
})

fee_bought : fee_buy ≡ ok (chain_of fee_buy, fee_buy_event)
unfolding process execute_buy validate_buy check_buy check_buy_bindings is_whitelisted execution_fee
    net_input price_floor swap_and_verify skim_fee invoke_venue account_metas verify_outcome swap
    validate_swap
fee_bought = refl

set_fee_lasts_example :
    (30_000 ≡ 10_000_000 * 30 / 10_000)
    × FeePaid runtime fee_buy_call treasury 10_000_000 30_000 closed_chain (chain_of fee_buy)
set_fee_lasts_example =
    set_fee_lasts runtime fee_ctx 30 treasury chain fee_chain closed_chain (chain_of fee_buy)
      ledger_laws chain-Inv fee_set fee-Unattended tokens-IsWide fee_buy_call clock fee_buy_event
      10_000_000 30_000 fee_bought refl (λ e. ground arith)

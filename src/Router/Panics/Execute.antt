-- ===== src/Router/Panics/Execute.antt =====
-- programs/recurring-buy/src/lib.rs: `execute_buy` and `execute_sell` do not panic on well-formed
-- accounts.
use solana_recurring_buy.Prelude.{ℕ, ◌≡◌, ◌≢◌, refl, ap, arith, List}
use solana_recurring_buy.Prelude.Int.{ℤ}
use solana_recurring_buy.Errors.{Result, Error, ok, err, panicked, ◌>>=◌}
use solana_recurring_buy.State.{SellPlan}
use solana_recurring_buy.Chain.{AccountInfo, Tokens, Seed, Instruction, Transfer, Chain, Runtime}
use solana_recurring_buy.Chain.Account.{Inv}
use solana_recurring_buy.Chain.Clock.{IsClock}
use solana_recurring_buy.Chain.Laws.{IsWide}
use solana_recurring_buy.Schedule.{advance}
use solana_recurring_buy.Swap.{
  Route, signer_seeds, fee_transfer, skim_fee, invoke_venue, verify_outcome, swap_and_verify,
}
use solana_recurring_buy.Buy.{ExecuteBuy, BuyAccounts, validate_buy, check_buy, execute_buy}
use solana_recurring_buy.Buy.Validated.{validate_buy-BuyValidated}
use solana_recurring_buy.Buy.Refusals.{check_buy_reasons}
use solana_recurring_buy.Sell.{
  ExecuteSell, SellAccounts, validate_sell, check_due, check_sell, execute_sell, conclude_sell,
}
use solana_recurring_buy.Sell.Validated.{validate_sell-SellValidated}
use solana_recurring_buy.Sell.Refusals.{check_sell_reasons}

-- An external call that fails ends in an error of the called program.
pub record ReturnsErrors (rt : Runtime) : Type 0 where
  pub transfer_fails :
      (t : Transfer) (seeds : List (List Seed)) (n : ℕ) (ts : Tokens)
      → rt.transfer t seeds n ts ≢ err panicked
  pub call_fails :
      (ix : Instruction) (infos : List AccountInfo) (seeds : List (List Seed)) (ts : Tokens)
      → rt.invoke_signed ix infos seeds ts ≢ err panicked

-- A chain does not panic when neither part does.
pub bind_safe :
    {T U : Type 0} (first : Result T) (rest : T → Result U)
    → first ≢ err panicked
    → ((v : T) → first ≡ ok v → rest v ≢ err panicked)
    → (first >>= rest) ≢ err panicked
bind_safe (ok v) rest safe each h = each v refl h
bind_safe (err e) rest safe each h = safe cc

-- The gate uses checked operations only.
advance_safe : (p : SellPlan) (now : ℤ) → advance p now ≢ err panicked
unfolding advance
advance_safe p now h = ground arith

module _ (rt : Runtime) (returns : ReturnsErrors rt) where
  skim_fee_safe : (r : Route) (fee : ℕ) (ts : Tokens) → skim_fee rt r fee ts ≢ err panicked
  unfolding skim_fee
  skim_fee_safe r fee ts h =
      let fails = returns.transfer_fails (fee_transfer r) (signer_seeds r) fee ts in ground arith

  invoke_venue_safe : (r : Route) (ts : Tokens) → invoke_venue rt r ts ≢ err panicked
  unfolding invoke_venue
  invoke_venue_safe r ts = returns.call_fails _ _ _ _

  verify_outcome_safe :
      (r : Route) (dest_before min_out : ℕ) (ts : Tokens)
      → verify_outcome rt r dest_before min_out ts ≢ err panicked
  unfolding verify_outcome
  verify_outcome_safe r dest_before min_out ts h = ground arith

  swap_and_verify_safe :
      (r : Route) (fee dest_before min_out : ℕ) (ts : Tokens)
      → swap_and_verify rt r fee dest_before min_out ts ≢ err panicked
  unfolding swap_and_verify
  swap_and_verify_safe r fee dest_before min_out ts =
      bind_safe (skim_fee rt r fee ts) _ (skim_fee_safe r fee ts) (λ skimmed e.
        bind_safe (invoke_venue rt r skimmed) _ (invoke_venue_safe r skimmed) (λ swapped e'.
          bind_safe (verify_outcome rt r dest_before min_out swapped) _
            (verify_outcome_safe r dest_before min_out swapped) (λ out e'' h. ground arith)))

module _ (rt : Runtime) (c : Chain) (inv : Inv rt c) (wide : IsWide c.tokens) where
  validate_buy_safe : (ctx : ExecuteBuy) → validate_buy rt ctx c ≢ err panicked
  unfolding validate_buy
  validate_buy_safe ctx h = ground arith

  check_buy_safe :
      (ctx : ExecuteBuy) (acc : BuyAccounts) (min_out : ℕ)
      → validate_buy rt ctx c ≡ ok acc
      → check_buy rt ctx acc min_out ≢ err panicked
  check_buy_safe ctx acc min_out validated h =
      let v = validate_buy-BuyValidated rt ctx c validated in
      check_buy_reasons rt ctx acc min_out panicked (inv _ _ v.config_at).1
        (inv _ _ v.fee_config_at).1 (wide _ _ v.transient_at) h

  pub execute_buy_safe :
      (ctx : ExecuteBuy) (remaining : List AccountInfo) (min_out : ℕ) (swap_data : List ℕ)
      → ReturnsErrors rt
      → execute_buy rt ctx remaining min_out swap_data c ≢ err panicked
  unfolding execute_buy
  execute_buy_safe ctx remaining min_out swap_data returns =
      bind_safe (validate_buy rt ctx c) _ (validate_buy_safe ctx) (λ acc e.
        bind_safe (check_buy rt ctx acc min_out) _ (check_buy_safe ctx acc min_out e) (λ checked e'.
          bind_safe (swap_and_verify rt _ _ _ min_out c.tokens) _
            (swap_and_verify_safe rt returns _ _ _ min_out c.tokens)
            (λ swapped e'' h. ground arith)))

  validate_sell_safe : (ctx : ExecuteSell) → validate_sell rt ctx c ≢ err panicked
  unfolding validate_sell
  validate_sell_safe ctx h = ground arith

  -- Without a time the guards end at the clock.
  timeless_safe :
      (ctx : ExecuteSell) (acc : SellAccounts) (e : Error) (min_out : ℕ)
      → e ≢ panicked
      → check_sell rt ctx acc (err e) min_out ≢ err panicked
  unfolding check_sell check_due
  timeless_safe ctx acc e min_out read h = ground arith

  check_sell_safe :
      (ctx : ExecuteSell) (acc : SellAccounts) (clock : Result ℤ) (min_out : ℕ)
      → IsClock clock
      → clock ≢ err panicked
      → validate_sell rt ctx c ≡ ok acc
      → check_sell rt ctx acc clock min_out ≢ err panicked
  check_sell_safe ctx acc (ok now) min_out timely read validated h =
      let v = validate_sell-SellValidated rt ctx c validated in
      check_sell_reasons rt ctx acc now min_out panicked (inv _ _ v.config_at).1
        (inv _ _ v.fee_config_at).1 (inv _ _ v.sell_plan_at).1 timely (wide _ _ v.transient_at)
        (wide _ _ v.pot_at) h
  check_sell_safe ctx acc (err e) min_out timely read validated h =
      timeless_safe ctx acc e min_out (λ p. read (ap err p)) h

  conclude_sell_safe :
      (ctx : ExecuteSell) (acc : SellAccounts) (now : ℤ) (fee : ℕ) (swapped : Tokens × ℕ)
      → conclude_sell ctx acc now fee c swapped ≢ err panicked
  conclude_sell_safe ctx acc now fee (ts, out) =
      bind_safe (advance acc.sell_plan now) _ (advance_safe acc.sell_plan now)
        (λ plan e h. ground arith)

  pub execute_sell_safe :
      (ctx : ExecuteSell) (remaining : List AccountInfo) (clock : Result ℤ) (min_out : ℕ)
      (swap_data : List ℕ)
      → IsClock clock
      → clock ≢ err panicked
      → ReturnsErrors rt
      → execute_sell rt ctx remaining clock min_out swap_data c ≢ err panicked
  unfolding execute_sell
  execute_sell_safe ctx remaining clock min_out swap_data timely read returns =
      bind_safe (validate_sell rt ctx c) _ (validate_sell_safe ctx) (λ acc e.
        bind_safe (check_sell rt ctx acc clock min_out) _
          (check_sell_safe ctx acc clock min_out timely read e)
          (λ checked e'.
            bind_safe (swap_and_verify rt _ _ _ min_out c.tokens) _
              (swap_and_verify_safe rt returns _ _ _ min_out c.tokens)
              (λ swapped e''. conclude_sell_safe ctx acc _ _ swapped)))

-- ===== src/Router/Reach.antt =====
-- Sequences of calls, by anyone and in any order. Between two of the program's calls other
-- programs may change token accounts and mints, never the accounts that this program owns.
use solana_recurring_buy.Prelude.{◌≡◌, arith, none}
use solana_recurring_buy.Prelude.Int.{ℤ}
use solana_recurring_buy.Errors.{Result, ok}
use solana_recurring_buy.State.{Pubkey}
use solana_recurring_buy.Chain.{Chain, Runtime}
use solana_recurring_buy.Router.{Call, Event, process}
use solana_recurring_buy.Chain.Account.{Inv}
use solana_recurring_buy.Chain.Clock.{IsClock}
use solana_recurring_buy.Router.Results.{silenced, bought, sold}
use solana_recurring_buy.Router.Invariant.{
  IsTyped, init_config-Inv, set_pause-Inv, set_params-Inv, set_whitelist-Inv, init_fee_config-Inv,
  set_fee-Inv, open_sell_plan-Inv, close_sell_plan-Inv, execute_buy-Inv, execute_sell-Inv,
}

module _ (rt : Runtime) where
  -- Every successful call keeps the accounts of the program well formed.
  pub process-Inv :
      (call : Call) (clock : Result ℤ) (c c' : Chain) (e : Event)
      → IsTyped call
      → IsClock clock
      → Inv rt c
      → process rt call clock c ≡ ok (c', e)
      → Inv rt c'
  unfolding process
  process-Inv (Call.init_config ctx ps price slip) clock c c' e typed timely inv h =
      init_config-Inv rt c inv ctx ps price slip typed (silenced _ h)
  process-Inv (Call.set_pause ctx paused) clock c c' e typed timely inv h =
      set_pause-Inv rt c inv ctx paused (silenced _ h)
  process-Inv (Call.set_params ctx price slip) clock c c' e typed timely inv h =
      set_params-Inv rt c inv ctx price slip typed (silenced _ h)
  process-Inv (Call.set_whitelist ctx ps) clock c c' e typed timely inv h =
      set_whitelist-Inv rt c inv ctx ps (silenced _ h)
  process-Inv (Call.init_fee_config ctx fee_bps destination) clock c c' e typed timely inv h =
      init_fee_config-Inv rt c inv ctx fee_bps destination (silenced _ h)
  process-Inv (Call.set_fee ctx fee_bps destination) clock c c' e typed timely inv h =
      set_fee-Inv rt c inv ctx fee_bps destination (silenced _ h)
  process-Inv (Call.open_sell_plan ctx end_ts period_secs) clock c c' e typed timely inv h =
      open_sell_plan-Inv rt c inv ctx clock end_ts period_secs timely typed (silenced _ h)
  process-Inv (Call.close_sell_plan ctx) clock c c' e typed timely inv h =
      close_sell_plan-Inv rt c inv ctx (silenced _ h)
  process-Inv (Call.execute_buy ctx remaining min_out swap_data) clock c c' e typed timely inv h =
      execute_buy-Inv rt c inv ctx remaining min_out swap_data (bought _ h)
  process-Inv (Call.execute_sell ctx remaining min_out swap_data) clock c c' e typed timely inv h =
      execute_sell-Inv rt c inv ctx remaining clock min_out swap_data timely (sold _ h)

  -- A call that succeeds, or a change that other programs make.
  pub data Step : Chain → Chain → Type 0 where
    call :
        (call : Call) (clock : Result ℤ) {c c' : Chain} (e : Event)
        → IsTyped call
        → IsClock clock
        → process rt call clock c ≡ ok (c', e)
        → Step c c'
    outside : {c c' : Chain} → c'.accounts ≡ c.accounts → Step c c'

  pub data Reach (c : Chain) : Chain → Type 0 where
    here : Reach c c
    next : {d d' : Chain} → Reach c d → Step d d' → Reach c d'

  Step-Inv : {c c' : Chain} → Step c c' → Inv rt c → Inv rt c'
  Step-Inv (call x clock e typed timely h) inv = process-Inv x clock _ _ e typed timely inv h
  Step-Inv (outside kept) inv = λ k a at. inv k a (rw kept at at)

  -- In every state that is reached from one without accounts of the program, by any successful calls
  -- of anyone, with arguments of their machine types and clocks in range, and with any changes of the
  -- token accounts and mints in between, each account of the program stands at its canonical address,
  -- records that address's bump and is well formed.
  pub Reach-Inv : {c c' : Chain} → ((k : Pubkey) → c.accounts k ≡ none) → Reach c c' → Inv rt c'
  Reach-Inv empty here = λ k a at. ground (arith, empty k)
  Reach-Inv empty (next r s) = Step-Inv s (Reach-Inv empty r)

-- ===== src/Router/Spec/Refinement.antt =====
-- programs/recurring-buy/src/lib.rs: the program against its step relation.
use solana_recurring_buy.Prelude.{ℕ, List, ◌≡◌, ◌↔◌, refl, subst}
use solana_recurring_buy.Prelude.Int.{ℤ}
use solana_recurring_buy.Errors.{Result, ok, err, ◌>>=◌, >>=-eq-ok, ok-injective}
use solana_recurring_buy.Chain.{AccountInfo, Chain, Runtime}
use solana_recurring_buy.Chain.Account.{Inv}
use solana_recurring_buy.Chain.Clock.{IsClock}
use solana_recurring_buy.Chain.Laws.{IsWide}
use solana_recurring_buy.Buy.{ExecuteBuy, BuyExecuted, execute_buy}
use solana_recurring_buy.Buy.Contract.{Bought-BuyContract, BuyContract-Bought}
use solana_recurring_buy.Sell.{ExecuteSell, SellExecuted, execute_sell}
use solana_recurring_buy.Sell.Contract.{Sold-SellContract, SellContract-Sold}
use solana_recurring_buy.Buy.Refinement.{execute_buy-Bought, Bought-execute_buy}
use solana_recurring_buy.Sell.Refinement.{execute_sell-Sold, Sold-execute_sell}
use solana_recurring_buy.Router.{Call, Event, silent, process}
use solana_recurring_buy.Router.Spec.{
  TransitionOf, Transition, Trace, creates_config, pauses, reprices, relists, creates_fee,
  changes_fee, opens, closes, buys, sells,
}
use solana_recurring_buy.Router.Spec.Admin.{
  init_config_iff, set_pause_iff, set_params_iff, set_whitelist_iff, init_fee_config_iff,
  set_fee_iff,
}
use solana_recurring_buy.Router.Spec.Plan.{open_sell_plan_iff, close_sell_plan_iff}

module _ (rt : Runtime) (clock : Result ℤ) (c : Chain) where
  -- A call that reports no event, from what its handler does.
  reported :
      (x : Call) (m : Result Chain) {c' : Chain} {e : Event}
      → ((d : Chain) → m ≡ ok d → Trace rt clock c d x silent)
      → ◌>>=◌ {U = Chain × Event} m (λ d. ok (d, silent)) ≡ ok (c', e)
      → Trace rt clock c c' x e
  reported x (ok d) build h =
      subst (λ r. Trace rt clock c r.0 x r.1) (ok-injective h) (build d refl)
  reported x (err f) build h = cc

  process-Trace :
      (x : Call) {c' : Chain} {e : Event}
      → process rt x clock c ≡ ok (c', e)
      → Trace rt clock c c' x e
  unfolding process
  process-Trace (Call.init_config ctx ps price slip) h =
      reported _ _ (λ d q. creates_config ((init_config_iff rt c ctx ps price slip).0 q)) h
  process-Trace (Call.set_pause ctx paused) h =
      reported _ _ (λ d q. pauses ((set_pause_iff rt c ctx paused).0 q)) h
  process-Trace (Call.set_params ctx price slip) h =
      reported _ _
        (λ d q. let (bound, s) = (set_params_iff rt c ctx price slip).0 q in reprices bound s) h
  process-Trace (Call.set_whitelist ctx ps) h =
      reported _ _ (λ d q. let (bound, s) = (set_whitelist_iff rt c ctx ps).0 q in relists bound s)
        h
  process-Trace (Call.init_fee_config ctx fee_bps destination) h =
      reported _ _ (λ d q. creates_fee ((init_fee_config_iff rt c ctx fee_bps destination).0 q)) h
  process-Trace (Call.set_fee ctx fee_bps destination) h =
      reported _ _ (λ d q. changes_fee ((set_fee_iff rt c ctx fee_bps destination).0 q)) h
  process-Trace (Call.open_sell_plan ctx end_ts period_secs) h =
      reported _ _ (λ d q. opens ((open_sell_plan_iff rt c ctx clock end_ts period_secs).0 q)) h
  process-Trace (Call.close_sell_plan ctx) h =
      reported _ _ (λ d q. closes ((close_sell_plan_iff rt c ctx).0 q)) h
  process-Trace (Call.execute_buy ctx remaining min_out swap_data) h =
      let ((d, event), run, r) = >>=-eq-ok (execute_buy rt ctx remaining min_out swap_data c) _ h in
      subst (λ r. Trace rt clock c r.0 (Call.execute_buy ctx remaining min_out swap_data) r.1)
        (ok-injective r)
        (buys (execute_buy-Bought rt ctx remaining min_out swap_data c d event run))
  process-Trace (Call.execute_sell ctx remaining min_out swap_data) h =
      let ((d, event), run, r) =
        >>=-eq-ok (execute_sell rt ctx remaining clock min_out swap_data c) _ h in
      subst (λ r. Trace rt clock c r.0 (Call.execute_sell ctx remaining min_out swap_data) r.1)
        (ok-injective r)
        (sells (execute_sell-Sold rt ctx remaining clock min_out swap_data c d event run))

  Trace-process :
      {x : Call} {c' : Chain} {e : Event}
      → Trace rt clock c c' x e
      → process rt x clock c ≡ ok (c', e)
  unfolding process
  Trace-process (creates_config {ctx} {ps} {price} {slip} s) =
      rw ((init_config_iff rt c ctx ps price slip).1 s)
  Trace-process (pauses {ctx} {paused} s) = rw ((set_pause_iff rt c ctx paused).1 s)
  Trace-process (reprices {ctx} {price} {slip} bound s) =
      rw ((set_params_iff rt c ctx price slip).1 (bound, s))
  Trace-process (relists {ctx} {ps} bound s) = rw ((set_whitelist_iff rt c ctx ps).1 (bound, s))
  Trace-process (creates_fee {ctx} {fee_bps} {destination} s) =
      rw ((init_fee_config_iff rt c ctx fee_bps destination).1 s)
  Trace-process (changes_fee {ctx} {fee_bps} {destination} s) =
      rw ((set_fee_iff rt c ctx fee_bps destination).1 s)
  Trace-process (opens {ctx} {end_ts} {period_secs} s) =
      rw ((open_sell_plan_iff rt c ctx clock end_ts period_secs).1 s)
  Trace-process (closes {ctx} s) = rw ((close_sell_plan_iff rt c ctx).1 s)
  Trace-process (buys {ctx} {remaining} {min_out} {swap_data} s) =
      rw (Bought-execute_buy rt ctx remaining min_out swap_data c _ _ s)
  Trace-process (sells {ctx} {remaining} {min_out} {swap_data} s) =
      rw (Sold-execute_sell rt ctx remaining clock min_out swap_data c _ _ s)

  pub process_traces :
      (x : Call) (c' : Chain) (e : Event)
      → (process rt x clock c ≡ ok (c', e)) ↔ Trace rt clock c c' x e
  process_traces x c' e = (process-Trace x, Trace-process)

  -- A transition depends on what a buy and a sell may do only there.
  exchanged :
      {c' : Chain} {Buys Buys' : ExecuteBuy → List AccountInfo → ℕ → List ℕ → BuyExecuted → Type 0}
      {Sells Sells' : ExecuteSell → List AccountInfo → ℕ → List ℕ → SellExecuted → Type 0}
      {x : Call} {e : Event}
      → ((ctx : ExecuteBuy) (remaining : List AccountInfo) (min_out : ℕ) (swap_data : List ℕ)
            (event : BuyExecuted)
          → Buys ctx remaining min_out swap_data event
          → Buys' ctx remaining min_out swap_data event)
      → ((ctx : ExecuteSell) (remaining : List AccountInfo) (min_out : ℕ) (swap_data : List ℕ)
            (event : SellExecuted)
          → Sells ctx remaining min_out swap_data event
          → Sells' ctx remaining min_out swap_data event)
      → TransitionOf rt clock c c' Buys Sells x e
      → TransitionOf rt clock c c' Buys' Sells' x e
  exchanged buy sell (creates_config s) = creates_config s
  exchanged buy sell (pauses s) = pauses s
  exchanged buy sell (reprices bound s) = reprices bound s
  exchanged buy sell (relists bound s) = relists bound s
  exchanged buy sell (creates_fee s) = creates_fee s
  exchanged buy sell (changes_fee s) = changes_fee s
  exchanged buy sell (opens s) = opens s
  exchanged buy sell (closes s) = closes s
  exchanged buy sell (buys s) = buys (buy _ _ _ _ _ s)
  exchanged buy sell (sells s) = sells (sell _ _ _ _ _ s)

  -- The program implements its step relation: when its accounts are well formed, token amounts are
  -- 64-bit and a clock that can be read shows a time in range, a call returns a chain and an event
  -- exactly when the relation allows the call to lead there. The relation names, for each of the ten
  -- instructions, the conditions on the accounts, the arguments and the clock and the changes that are
  -- made, and no function of the program; a buy and a sell meet their contracts.
  pub process_refines :
      Inv rt c
      → IsWide c.tokens
      → IsClock clock
      → (x : Call) (c' : Chain) (e : Event)
      → (process rt x clock c ≡ ok (c', e)) ↔ Transition rt clock c c' x e
  process_refines inv wide timely x c' e = (
    λ h.
        exchanged
          (λ ctx remaining min_out swap_data event.
            Bought-BuyContract rt ctx remaining min_out swap_data c inv wide c' event)
          (λ ctx remaining min_out swap_data event.
            Sold-SellContract rt ctx remaining clock min_out swap_data c inv wide timely c' event)
          ((process_traces x c' e).0 h),
    λ s. (process_traces x c' e).1 (
        exchanged
          (λ ctx remaining min_out swap_data event.
            BuyContract-Bought rt ctx remaining min_out swap_data c inv wide c' event)
          (λ ctx remaining min_out swap_data event.
            SellContract-Sold rt ctx remaining clock min_out swap_data c inv wide timely c' event)
          s),
  )

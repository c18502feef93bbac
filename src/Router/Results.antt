-- ===== src/Router/Results.antt =====
-- What an instruction of the router returned, read back from the step that reports its event.
use solana_recurring_buy.Prelude.{◌≡◌, arith}
use solana_recurring_buy.Errors.{Result, ok, err, ◌>>=◌}
use solana_recurring_buy.Chain.{Chain}
use solana_recurring_buy.Buy.{BuyExecuted}
use solana_recurring_buy.Sell.{SellExecuted}
use solana_recurring_buy.Router.{Event, silent, buy_executed, sell_executed}

abbrev pub bought_event : Result (Chain × BuyExecuted) → BuyExecuted
bought_event (ok x) = x.1
bought_event (err x) = record { user = 0; amount_in = 0; amount_out = 0; fee = 0; venue = 0 }

abbrev pub sold_event : Result (Chain × SellExecuted) → SellExecuted
sold_event (ok x) = x.1
sold_event (err x) = record { user = 0; amount_in = 0; amount_out = 0; fee = 0; venue = 0 }

pub silenced :
    (m : Result Chain) {c' : Chain} {e : Event}
    → ◌>>=◌ {U = Chain × Event} m (λ x. ok (x, silent)) ≡ ok (c', e)
    → m ≡ ok c'
silenced (ok x) h = cc
silenced (err x) h = cc

pub bought :
    (m : Result (Chain × BuyExecuted)) {c' : Chain} {e : Event}
    → ◌>>=◌ {U = Chain × Event} m (λ x. ok (x.0, buy_executed x.1)) ≡ ok (c', e)
    → m ≡ ok (c', bought_event m)
bought (ok x) h = ground arith
bought (err x) h = cc

pub sold :
    (m : Result (Chain × SellExecuted)) {c' : Chain} {e : Event}
    → ◌>>=◌ {U = Chain × Event} m (λ x. ok (x.0, sell_executed x.1)) ≡ ok (c', e)
    → m ≡ ok (c', sold_event m)
sold (ok x) h = ground arith
sold (err x) h = cc

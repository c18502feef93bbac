-- ===== src/Chain/Clock.antt =====
-- The clock of a transaction.
use solana_recurring_buy.Prelude.Int.{ℤ}
use solana_recurring_buy.Errors.{Result, ok, err}
use solana_recurring_buy.State.Valid.{IsTime}

-- The clock, where it can be read, shows a time in range.
abbrev pub IsClock : Result ℤ → Type 0
IsClock (ok now) = IsTime now
IsClock (err e) = Unit

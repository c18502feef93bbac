-- ===== src/Examples.antt =====
-- Tests of the model on concrete inputs, and one run for each theorem that has hypotheses.
mod Ledger
mod Calls
mod World
mod Runs
mod Arithmetic
mod Swaps
mod Steps
mod Draws
mod Standing
mod Refused
mod Fees
mod Prices
mod Exits
mod Panics
mod Bytes
mod KeeperWorld
mod Keepers
mod Settlements

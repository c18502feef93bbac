-- ===== src/Lib.antt =====
-- Verification library for the Solana program `recurring-buy` (programs/recurring-buy) and the test
-- venue `mock-swap` (programs/mock-swap). The router lets anyone, as a keeper, swap the tokens that a
-- user's subscription has put into a transient account: USDC into a target asset (`execute_buy`), or, on
-- a schedule that spreads a pot over time, the target asset into USDC (`execute_sell`). The theorems
-- are about what the user, the admin and the keeper can and cannot bring about.
--
-- The parts and the code that each models:
--   State, State/*     programs/recurring-buy/src/state.rs: `Config`, `FeeConfig`, `SellPlan`, their
--                      constants, `is_whitelisted` and `remaining_periods`; well-formed accounts.
--   Errors             programs/recurring-buy/src/errors.rs: `BuyError`, and results with `require!`,
--                      `ok_or` and panics.
--   Word               Rust's checked, saturating and cast operations on u64, u128 and i64.
--   Floor, Floor/*     programs/recurring-buy/src/lib.rs, `price_floor` and `sell_floor`.
--   Fee, Fee/*         the execution fee and the net input in both swaps.
--   Schedule, Schedule/*    the cap on a draw and the jump of the clock gate in `execute_sell`.
--   Chain, Chain/*     the accounts of a transaction and the checks that the `#[account(...)]`
--                      attributes of lib.rs declare; the external functions (`Runtime`) and the laws
--                      that theorems assume of them; the invariant of the program's own accounts.
--   Admin, Admin/*     `init_config`, `set_pause`, `set_params`, `set_whitelist`, `init_fee_config` and
--                      `set_fee` with their `Accounts` structs.
--   Plan, Plan/*       `open_sell_plan` and `close_sell_plan`.
--   Swap, Swap/*       what the two swaps do alike: the fee transfer, the forwarded venue instruction
--                      and the check of its outcome; the contract of the two, `SwapContract`.
--   Buy, Buy/*         `execute_buy`: the guards, the contract `BuyContract`, refusals and safety.
--   Sell, Sell/*       `execute_sell`: the same with `SellContract`; runs of draws on a plan.
--   Router, Router/*   the module `recurring_buy` as one step function on `Call`, the reachable states,
--                      and what each call can do to accounts. Router/Spec, Router/Spec/*: the ten
--                      instructions as a step relation that names no handler. Router/Panics,
--                      Router/Panics/*: where an instruction could panic.
--   Keeper, Keeper/*   the clients that send the swaps: keeper/native/daemon.mjs (`crankBuy`, `crankSell`,
--                      `tick`, the readers of accounts and the writers of instruction data) and
--                      `amortizedDraw` of keeper/keeper.ts; with their transactions against the program,
--                      and (Keeper/Venue, Keeper/Settles, Keeper/BuySettles, Keeper/SellSettles) against
--                      the program and the mock venue together.
--   MockSwap, MockSwap/*    programs/mock-swap/src/lib.rs: `swap`.
--   Prelude, Prelude/*      shared names, Boolean tests, lists, and integers over the native numbers.
--   Examples, Examples/*    a concrete runtime and chain, computed runs, and the theorems applied to them.
--
-- A handler is a function from the accounts that the caller passes, its arguments and the chain to a
-- result with the new chain: first the checks that Anchor makes of the accounts, then the handler's own,
-- in the order of the source. An instruction that fails changes nothing. `execute_buy` and
-- `execute_sell` call the fee, floor, schedule and swap functions as the handlers' statements do; the
-- router's step calls the handlers.
--
-- Numbers: a u64 or u128 is a natural number, an i64 an integer; each operation has the range check,
-- saturation or wrap-around of the source, and the ranges of stored values are part of the invariant or
-- hypotheses. There is no recursion on fuel: the loops, over the venues and over the
-- keeper's delegations, are recursion on lists.
--
-- Solana, Anchor, the SPL Token program and the venues are not part of the repository. They are the
-- parameter `Runtime`: derived addresses, associated token addresses, a token transfer and a
-- cross-program call. A cross-program call can change token accounts only; that it cannot change the
-- accounts that the router owns is a rule of Solana, and a call back into the router from the venue is
-- not modelled. Owner and discriminator checks of an account are its typed lookup. A public key is a
-- number. A clock reading is a parameter of the call. What these parts are documented to do is stated as
-- records (Chain/Laws, Chain/Progress), which the theorems that need it take as hypotheses and which the
-- runtimes of Examples satisfy.
--
-- The keeper is off-chain JavaScript. Its cranks are functions from what it has read (`Client`: the data
-- of accounts and the balances that the node answers) to the instructions that it sends or the reason why
-- it sends none; an exception is `none`. A `BigInt` is an integer, with the division that truncates; a
-- `Number` is an integer too, which is exact up to 2^53, and the theorems that depend on it say so. Its
-- packages (@solana/kit, @solana/subscriptions) are parameters, and that a pull has moved its amount is a
-- hypothesis on the token accounts. A client's derived addresses are those of the same `Runtime`.
-- That a call with the instruction data of `mockSwapIx` runs `swap` of the mock venue, as Anchor's entry
-- point decodes it, is the hypothesis `RunsMockSwap`; the venue sees a `Runtime` of its own.
--
-- Not modelled: rent, lamports and account sizes; the subscription program that pulls the user's tokens;
-- error messages; the keeper's RPC calls, signing, sending and logging, the route of keeper/keeper.ts over
-- a web service, the end-to-end scripts under keeper/native, the scripts (scripts/) and the integration
-- tests (tests/).
pub mod Prelude
pub mod Errors
pub mod Word
pub mod State
pub mod Floor
pub mod Fee
pub mod Schedule
pub mod Chain
pub mod Admin
pub mod Plan
pub mod Swap
pub mod Buy
pub mod Sell
pub mod Router
pub mod Keeper
pub mod MockSwap
pub mod Examples

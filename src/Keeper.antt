-- ===== src/Keeper.antt =====
-- keeper/native/daemon.mjs and keeper/keeper.ts: the clients that send `execute_buy` and
-- `execute_sell`. `rt` gives the derived addresses, which the clients compute with the same
-- functions as the program; what they read over RPC is the record `Client`.
pub mod Numbers
pub mod Amounts
pub mod Daemon
pub mod Cranks
pub mod Tick
pub mod Values
pub mod Draws
pub mod Fields
pub mod Layout
pub mod Accepted
pub mod Venue
pub mod Settles
pub mod Buys
pub mod BuyTransaction
pub mod BuySettles
pub mod Sells
pub mod SellTransaction
pub mod SellSettles
pub mod Consider
pub mod Selection
use solana_recurring_buy.Prelude.{ℕ, Option, List}
use solana_recurring_buy.Prelude.Int.{ℤ}
use solana_recurring_buy.State.{Pubkey}
use solana_recurring_buy.Chain.{AccountInfo}
use solana_recurring_buy.Buy.{ExecuteBuy}
use solana_recurring_buy.Sell.{ExecuteSell}

-- The constants of the daemon, from `.devnet.json` and the two IDLs.
pub record Fixtures : Type 0 where
  pub usdc : Pubkey
  pub target : Pubkey
  pub config : Pubkey
  pub mock_swap : Pubkey
  pub pool_usdc : Pubkey
  pub pool_target : Pubkey
  pub pool_authority : Pubkey
  pub slippage_bps : ℤ
  pub execute_buy_disc : List ℕ
  pub execute_sell_disc : List ℕ
  pub swap_disc : List ℕ

-- The RPC node and the packages of the daemon: the data of an account, the balance of a token
-- account (a missing one throws), the subscription authority of a user and a mint, and base58.
pub record Client : Type 0 where
  pub account_data : Pubkey → Option (List ℕ)
  pub token_balance : Pubkey → Option ℕ
  pub subscription_authority : Pubkey → Pubkey → Pubkey
  pub base58_decode : List ℕ → Pubkey

-- What the daemon reads of a recurring delegation.
pub record Delegation : Type 0 where
  pub address : Pubkey
  pub delegator : Pubkey
  pub mint : Pubkey
  pub amount_per_period : ℕ  -- u64
  pub amount_pulled_in_period : ℕ  -- u64
  pub current_period_start_ts : ℤ  -- i64
  pub period_length_s : ℕ  -- u64
  pub expiry_ts : ℤ  -- i64

pub record SellPlanView : Type 0 where
  pub pda : Pubkey
  pub end_ts : ℤ
  pub period_secs : ℤ
  pub next_due_ts : ℤ

pub record FeeView : Type 0 where
  pub pda : Pubkey
  pub bps : ℤ
  pub destination : Option Pubkey

pub record PullIx : Type 0 where
  pub delegation_pda : Pubkey
  pub subscription_authority : Pubkey
  pub delegator_ata : Pubkey
  pub receiver_ata : Pubkey
  pub token_mint : Pubkey
  pub delegatee : Pubkey
  pub event_authority : Pubkey
  pub amount : ℤ
  pub delegator : Pubkey

pub record SwapLeg : Type 0 where
  pub program : Pubkey
  pub accounts : List AccountInfo
  pub data_bytes : List ℕ

-- The instructions of the keeper's transactions.
pub data Ix : Type 0 where
  create_ata : (ata owner mint : Pubkey) → Ix
  pull : PullIx → Ix
  execute_buy : ExecuteBuy → List AccountInfo → List ℕ → Ix
  execute_sell : ExecuteSell → List AccountInfo → List ℕ → Ix

-- Why a crank sends nothing.
pub data Skip : Type 0 where
  nothing_available : Skip
  no_sell_plan : Skip
  schedule_complete : Skip
  due_in : ℤ → Skip
  nothing_to_draw : Skip

pub data Crank : Type 0 where
  skipped : Skip → Crank
  sent : List Ix → Crank

-- ===== src/Chain.antt =====
-- The accounts that a transaction reads and writes, and what the program calls of Solana, Anchor
-- and the SPL Token program. That code is not part of the repository: it is the parameter
-- `Runtime`, and what a theorem relies on of it is a named hypothesis (Chain/Laws).
pub mod Constraints
pub mod Laws
pub mod Progress
pub mod Account
pub mod Clock
use solana_recurring_buy.Prelude.{ℕ, Bool, Option, none, some, List, [], ◌∷◌, update}
use solana_recurring_buy.Errors.{Result}
use solana_recurring_buy.State.{Pubkey, Config, FeeConfig, SellPlan}

-- An account as the caller passes it.
pub record AccountInfo : Type 0 where
  pub key : Pubkey
  pub is_signer : Bool
  pub is_writable : Bool

-- What is read of an SPL token account: `mint` and `amount`. Its authorities are there for the
-- rules of the token program.
pub record TokenAccount : Type 0 where
  pub mint : Pubkey
  pub owner : Pubkey
  pub delegate : Option Pubkey
  pub amount : ℕ  -- u64

pub record Mint : Type 0 where
  pub decimals : ℕ  -- u8

-- The accounts that the program owns, told apart by Anchor's discriminator.
pub data ProgramAccount : Type 0 where
  config : Config → ProgramAccount
  fee_config : FeeConfig → ProgramAccount
  sell_plan : SellPlan → ProgramAccount

abbrev pub Tokens : Type 0
Tokens = Pubkey → Option TokenAccount

pub record Chain : Type 0 where
  pub accounts : Pubkey → Option ProgramAccount
  pub tokens : Tokens
  pub mints : Pubkey → Option Mint

-- One piece of the seeds of a program-derived address.
pub data Seed : Type 0 where
  bytes : List ℕ → Seed
  key_bytes : Pubkey → Seed

pub record AccountMeta : Type 0 where
  pub pubkey : Pubkey
  pub is_signer : Bool
  pub is_writable : Bool

pub record Instruction : Type 0 where
  pub program_id : Pubkey
  pub accounts : List AccountMeta
  pub swap_data : List ℕ

-- The accounts of an SPL token transfer.
pub record Transfer : Type 0 where
  pub from : AccountInfo
  pub to : AccountInfo
  pub authority : AccountInfo

-- The external functions. A cross-program call can change token accounts; the accounts that this
-- program owns are changed by this program alone.
pub record Runtime : Type 0 where
  pub system_program_id : Pubkey
  pub token_program_id : Pubkey
  pub find_program_address : List Seed → Pubkey × ℕ
  pub create_program_address : List Seed → Option Pubkey
  pub get_associated_token_address : Pubkey → Pubkey → Pubkey
  pub transfer : Transfer → List (List Seed) → ℕ → Tokens → Result Tokens
  pub invoke_signed : Instruction → List AccountInfo → List (List Seed) → Tokens → Result Tokens

-- Writes of the program's own accounts.
abbrev pub store : Pubkey → ProgramAccount → Chain → Chain
store k a c = record c { accounts = update c.accounts k (some a) }

abbrev pub remove : Pubkey → Chain → Chain
remove k c = record c { accounts = update c.accounts k none }

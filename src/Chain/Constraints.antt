-- ===== src/Chain/Constraints.antt =====
-- The checks that the `#[account(...)]` attributes and the field types of the `Accounts` structs in
-- programs/recurring-buy/src/lib.rs stand for.
use solana_recurring_buy.Prelude.{
  ℕ, Bool, false, not, Option, none, some, List, [], ◌∷◌, ◌++◌, ◌==◌,
}
use solana_recurring_buy.Errors.{
  Result, ok, err, anchor, program, Error, ◌>>=◌, ◌>>◌, constrain, constraint_mut,
  constraint_has_one, constraint_seeds, constraint_close, account_not_signer,
  account_not_initialized, account_discriminator_mismatch, invalid_program_id,
}
use solana_recurring_buy.State.{
  Pubkey, Config, FeeConfig, SellPlan, config_seed, fee_config_seed, sell_plan_seed, buy_auth_seed,
}
use solana_recurring_buy.Chain.{
  AccountInfo, TokenAccount, Mint, ProgramAccount, Tokens, Chain, Seed, bytes, key_bytes, Runtime,
}

-- `Signer`.
abbrev pub check_signer : AccountInfo → Result (Unit {0})
check_signer a = constrain a.is_signer account_not_signer

-- `mut`.
abbrev pub check_mut : AccountInfo → Result (Unit {0})
check_mut a = constrain a.is_writable constraint_mut

-- `has_one`, and the comparison of two keys that it makes.
abbrev pub check_has_one : Pubkey → Pubkey → Result (Unit {0})
check_has_one stored given = constrain (stored == given) constraint_has_one

-- `Program`.
abbrev pub check_program : Pubkey → AccountInfo → Result (Unit {0})
check_program id a = constrain (a.key == id) invalid_program_id

-- `Account<Config>` and the like: the account is there and is of that type.
abbrev pub as_config : Option ProgramAccount → Result Config
as_config none = err (anchor account_not_initialized)
as_config (some (ProgramAccount.config c)) = ok c
as_config (some _) = err (anchor account_discriminator_mismatch)

abbrev pub as_fee_config : Option ProgramAccount → Result FeeConfig
as_fee_config none = err (anchor account_not_initialized)
as_fee_config (some (ProgramAccount.fee_config c)) = ok c
as_fee_config (some _) = err (anchor account_discriminator_mismatch)

abbrev pub as_sell_plan : Option ProgramAccount → Result SellPlan
as_sell_plan none = err (anchor account_not_initialized)
as_sell_plan (some (ProgramAccount.sell_plan p)) = ok p
as_sell_plan (some _) = err (anchor account_discriminator_mismatch)

abbrev pub or_uninitialized : {A : Type 0} → Option A → Result A
or_uninitialized none = err (anchor account_not_initialized)
or_uninitialized (some a) = ok a

-- `Account<TokenAccount>`, at validation and by `reload`.
abbrev pub load_token : Tokens → AccountInfo → Result TokenAccount
load_token tokens a = or_uninitialized (tokens a.key)

abbrev pub load_mint : Chain → AccountInfo → Result Mint
load_mint c a = or_uninitialized (c.mints a.key)

-- The seeds in use.
abbrev pub config_seeds : List Seed
config_seeds = bytes config_seed ∷ []

abbrev pub fee_config_seeds : List Seed
fee_config_seeds = bytes fee_config_seed ∷ []

abbrev pub sell_plan_seeds : Pubkey → List Seed
sell_plan_seeds user = bytes sell_plan_seed ∷ key_bytes user ∷ []

abbrev pub buy_auth_seeds : Pubkey → List Seed
buy_auth_seeds user = bytes buy_auth_seed ∷ key_bytes user ∷ []

abbrev pub matches_pda : Option Pubkey → Pubkey → Bool
matches_pda none k = false
matches_pda (some pda) k = pda == k

-- `seeds = [...], bump = stored`.
abbrev pub check_seeds : Runtime → List Seed → ℕ → AccountInfo → Result (Unit {0})
check_seeds rt seeds bump a =
    constrain (matches_pda (rt.create_program_address (seeds ++ bytes (bump ∷ []) ∷ [])) a.key)
      constraint_seeds

-- `seeds = [...], bump`: the canonical bump is searched, and kept in `ctx.bumps`.
abbrev pub find_seeds : Runtime → List Seed → AccountInfo → Result ℕ
find_seeds rt seeds a = do
  constrain ((rt.find_program_address seeds).0 == a.key) constraint_seeds
  ok (rt.find_program_address seeds).1

-- The system program's refusal to create an account that exists.
abbrev pub account_already_in_use : Error
account_already_in_use = program 0

abbrev pub vacant : {A : Type 0} → Option A → Result (Unit {0})
vacant none = ok tt
vacant (some _) = err account_already_in_use

-- `init` with seeds, which implies `mut`. Of a read-only account the runtime already refuses the
-- creation, with an error of its own; here the error is that of the constraint.
abbrev pub check_init : Runtime → List Seed → AccountInfo → Chain → Result ℕ
check_init rt seeds a c = do
  bump ← find_seeds rt seeds a
  check_mut a
  vacant (c.accounts a.key)
  ok bump

-- `close = target`.
abbrev pub check_close : AccountInfo → AccountInfo → Result (Unit {0})
check_close a target = constrain (not (a.key == target.key)) constraint_close

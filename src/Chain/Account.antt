-- ===== src/Chain/Account.antt =====
-- The invariant of the accounts that the program owns.
use solana_recurring_buy.Prelude.{◌≡◌, some}
use solana_recurring_buy.State.{Pubkey}
use solana_recurring_buy.State.Valid.{IsValidConfig, IsValidFeeConfig, IsValidSellPlan}
use solana_recurring_buy.Chain.{ProgramAccount, Chain, Runtime}
use solana_recurring_buy.Chain.Constraints.{config_seeds, fee_config_seeds, sell_plan_seeds}

-- An account stands at the canonical address of its seeds, records that bump and is well formed.
abbrev pub IsValidAccount : Runtime → Pubkey → ProgramAccount → Type 0
IsValidAccount rt k (ProgramAccount.config c) =
    (rt.find_program_address config_seeds ≡ (k, c.bump)) × IsValidConfig c
IsValidAccount rt k (ProgramAccount.fee_config c) =
    (rt.find_program_address fee_config_seeds ≡ (k, c.bump)) × IsValidFeeConfig c
IsValidAccount rt k (ProgramAccount.sell_plan p) =
    (rt.find_program_address (sell_plan_seeds p.user) ≡ (k, p.bump)) × IsValidSellPlan p

abbrev pub Inv : Runtime → Chain → Type 0
Inv rt c = (k : Pubkey) (a : ProgramAccount) → c.accounts k ≡ some a → IsValidAccount rt k a

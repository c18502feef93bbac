-- ===== src/Swap.antt =====
-- programs/recurring-buy/src/lib.rs: what `execute_buy` and `execute_sell` share once their guards
-- have passed: the fee is skimmed, the keeper's venue instruction is forwarded with the transient
-- PDA as a signer, and the outcome is verified.
pub mod Outcome
pub mod Contract
pub mod Signers
pub mod Custody
use solana_recurring_buy.Prelude.{ℕ, ◌||◌, List, [], ◌∷◌, ◌++◌, ltb, leb, ◌==◌, if◌then◌else◌}
use solana_recurring_buy.Errors.{
  Result, ok, ◌>>=◌, ◌>>◌, ok_or, require, overflow, transient_not_drained, slippage_exceeded,
}
use solana_recurring_buy.Word.{checked_sub}
use solana_recurring_buy.State.{Pubkey, buy_auth_seed}
use solana_recurring_buy.Chain.{
  AccountInfo, Tokens, Seed, bytes, key_bytes, AccountMeta, Instruction, Transfer, Runtime,
}
use solana_recurring_buy.Chain.Constraints.{load_token}

-- The accounts of a swap, the same for both directions.
pub record Route : Type 0 where
  pub user : Pubkey
  pub buy_authority : AccountInfo
  pub bump : ℕ
  pub transient : AccountInfo
  pub dest : AccountInfo
  pub fee_ata : AccountInfo
  pub swap_program : AccountInfo
  pub remaining_accounts : List AccountInfo
  pub swap_data : List ℕ

-- The metas of the forwarded instruction: as passed, with the transient PDA forced as a signer.
unfoldable pub account_metas : Pubkey → List AccountInfo → List AccountMeta
account_metas buy_auth_key [] = []
account_metas buy_auth_key (ai ∷ ais) =
    record {
      pubkey = ai.key;
      is_signer = ai.is_signer || ai.key == buy_auth_key;
      is_writable = ai.is_writable;
    }
    ∷ account_metas buy_auth_key ais

abbrev pub signer_seeds : Route → List (List Seed)
signer_seeds r = (bytes buy_auth_seed ∷ key_bytes r.user ∷ bytes (r.bump ∷ []) ∷ []) ∷ []

abbrev pub venue_instruction : Route → Instruction
venue_instruction r = record {
  program_id = r.swap_program.key;
  accounts = account_metas r.buy_authority.key r.remaining_accounts;
  swap_data = r.swap_data;
}

abbrev pub fee_transfer : Route → Transfer
fee_transfer r = record { from = r.transient; to = r.fee_ata; authority = r.buy_authority }

module _ (rt : Runtime) where
  -- No transfer is made for a fee of zero.
  unfoldable pub skim_fee : Route → ℕ → Tokens → Result Tokens
  skim_fee r fee tokens =
      if ltb 0 fee then rt.transfer (fee_transfer r) (signer_seeds r) fee tokens else ok tokens

  unfoldable pub invoke_venue : Route → Tokens → Result Tokens
  invoke_venue r tokens =
      rt.invoke_signed (venue_instruction r) (r.remaining_accounts ++ r.swap_program ∷ [])
        (signer_seeds r) tokens

  -- After the call: the transient is empty, and the destination has gained `min_out` or more.
  unfoldable pub verify_outcome : Route → ℕ → ℕ → Tokens → Result ℕ
  verify_outcome r dest_before min_out tokens = do
    transient ← load_token tokens r.transient
    dest ← load_token tokens r.dest
    require (transient.amount == 0) transient_not_drained
    out ← ok_or (checked_sub dest.amount dest_before) overflow
    require (leb min_out out) slippage_exceeded
    ok out

  unfoldable pub swap_and_verify : Route → ℕ → ℕ → ℕ → Tokens → Result (Tokens × ℕ)
  swap_and_verify r fee dest_before min_out tokens = do
    skimmed ← skim_fee r fee tokens
    swapped ← invoke_venue r skimmed
    out ← verify_outcome r dest_before min_out swapped
    ok (swapped, out)

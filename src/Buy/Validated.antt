-- ===== src/Buy/Validated.antt =====
-- What `Anchor` has checked of the accounts of `execute_buy`, as one record.
use solana_recurring_buy.Prelude.{◌≡◌, arith, true, some, [], ◌∷◌, ◌++◌}
use solana_recurring_buy.Errors.{ok}
use solana_recurring_buy.Chain.{TokenAccount, ProgramAccount, Chain, Runtime, bytes}
use solana_recurring_buy.Chain.Constraints.{config_seeds, fee_config_seeds, buy_auth_seeds}
use solana_recurring_buy.Buy.{ExecuteBuy, BuyAccounts, validate_buy}

pub record BuyValidated (rt : Runtime) (ctx : ExecuteBuy) (chain : Chain) (acc : BuyAccounts)
    : Type 0 where
  pub keeper_signed : ctx.keeper.is_signer ≡ true
  pub config_at : chain.accounts ctx.config.key ≡ some (ProgramAccount.config acc.config)
  pub fee_config_at :
      chain.accounts ctx.fee_config.key ≡ some (ProgramAccount.fee_config acc.fee_config)
  pub transient_at : chain.tokens ctx.transient_usdc.key ≡ some acc.transient_usdc
  pub dest_at : chain.tokens ctx.dest_ata.key ≡ some acc.dest_ata
  pub fee_ata_at : (a : TokenAccount) × (chain.tokens ctx.fee_ata.key ≡ some a)
  pub token_program : ctx.token_program.key ≡ rt.token_program_id
  pub config_pda :
      rt.create_program_address (config_seeds ++ bytes (acc.config.bump ∷ []) ∷ [])
      ≡ some ctx.config.key
  pub fee_config_pda :
      rt.create_program_address (fee_config_seeds ++ bytes (acc.fee_config.bump ∷ []) ∷ [])
      ≡ some ctx.fee_config.key
  pub authority_pda :
      rt.find_program_address (buy_auth_seeds ctx.user.key) ≡ (ctx.buy_authority.key, acc.bump)
  pub transient_writable : ctx.transient_usdc.is_writable ≡ true
  pub dest_writable : ctx.dest_ata.is_writable ≡ true
  pub fee_ata_writable : ctx.fee_ata.is_writable ≡ true

module _ (rt : Runtime) (ctx : ExecuteBuy) (chain : Chain) where
  pub validate_buy-BuyValidated :
      {acc : BuyAccounts} → validate_buy rt ctx chain ≡ ok acc → BuyValidated rt ctx chain acc
  unfolding validate_buy
  validate_buy-BuyValidated h = ground arith

  pub BuyValidated-validate_buy :
      {acc : BuyAccounts} → BuyValidated rt ctx chain acc → validate_buy rt ctx chain ≡ ok acc
  unfolding validate_buy
  BuyValidated-validate_buy v = ground arith

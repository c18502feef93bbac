-- ===== src/Sell/Validated.antt =====
-- What Anchor has checked of the accounts of `execute_sell`, as one record.
use solana_recurring_buy.Prelude.{◌≡◌, arith, true, some, [], ◌∷◌, ◌++◌}
use solana_recurring_buy.Errors.{ok}
use solana_recurring_buy.Chain.{TokenAccount, ProgramAccount, Chain, Runtime, bytes}
use solana_recurring_buy.Chain.Constraints.{
  config_seeds, fee_config_seeds, sell_plan_seeds, buy_auth_seeds,
}
use solana_recurring_buy.Sell.{ExecuteSell, SellAccounts, validate_sell}

pub record SellValidated (rt : Runtime) (ctx : ExecuteSell) (chain : Chain) (acc : SellAccounts)
    : Type 0 where
  pub keeper_signed : ctx.keeper.is_signer ≡ true
  pub config_at : chain.accounts ctx.config.key ≡ some (ProgramAccount.config acc.config)
  pub sell_plan_at :
      chain.accounts ctx.sell_plan.key ≡ some (ProgramAccount.sell_plan acc.sell_plan)
  pub fee_config_at :
      chain.accounts ctx.fee_config.key ≡ some (ProgramAccount.fee_config acc.fee_config)
  pub transient_at : chain.tokens ctx.transient_target.key ≡ some acc.transient_target
  pub pot_at : chain.tokens ctx.user_target_ata.key ≡ some acc.user_target_ata
  pub dest_at : chain.tokens ctx.dest_usdc.key ≡ some acc.dest_usdc
  pub fee_ata_at : (a : TokenAccount) × (chain.tokens ctx.fee_ata.key ≡ some a)
  pub token_program : ctx.token_program.key ≡ rt.token_program_id
  pub config_pda :
      rt.create_program_address (config_seeds ++ bytes (acc.config.bump ∷ []) ∷ [])
      ≡ some ctx.config.key
  pub sell_plan_pda :
      rt.create_program_address
        (sell_plan_seeds ctx.user.key ++ bytes (acc.sell_plan.bump ∷ []) ∷ [])
      ≡ some ctx.sell_plan.key
  pub fee_config_pda :
      rt.create_program_address (fee_config_seeds ++ bytes (acc.fee_config.bump ∷ []) ∷ [])
      ≡ some ctx.fee_config.key
  pub authority_pda :
      rt.find_program_address (buy_auth_seeds ctx.user.key) ≡ (ctx.buy_authority.key, acc.bump)
  pub plan_user : acc.sell_plan.user ≡ ctx.user.key
  pub plan_writable : ctx.sell_plan.is_writable ≡ true
  pub transient_writable : ctx.transient_target.is_writable ≡ true
  pub dest_writable : ctx.dest_usdc.is_writable ≡ true
  pub fee_ata_writable : ctx.fee_ata.is_writable ≡ true

module _ (rt : Runtime) (ctx : ExecuteSell) (chain : Chain) where
  pub validate_sell-SellValidated :
      {acc : SellAccounts} → validate_sell rt ctx chain ≡ ok acc → SellValidated rt ctx chain acc
  unfolding validate_sell
  validate_sell-SellValidated h = ground arith

  pub SellValidated-validate_sell :
      {acc : SellAccounts} → SellValidated rt ctx chain acc → validate_sell rt ctx chain ≡ ok acc
  unfolding validate_sell
  SellValidated-validate_sell v = ground arith

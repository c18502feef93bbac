-- ===== src/MockSwap.antt =====
-- programs/mock-swap/src/lib.rs: the test venue, two token transfers. The runtime here
-- is that of the mock program, whose derived addresses are its own.
pub mod Exchange
pub mod Success
use solana_recurring_buy.Prelude.{ℕ, List, [], ◌∷◌}
use solana_recurring_buy.Errors.{Result, ok, ◌>>=◌, ◌>>◌}
use solana_recurring_buy.Chain.{AccountInfo, Tokens, bytes, Runtime}
use solana_recurring_buy.Chain.Constraints.{check_mut, check_program, load_token, find_seeds}

abbrev pub pool_seed : List ℕ
pool_seed = b'p' ∷ b'o' ∷ b'o' ∷ b'l' ∷ []

pub record MockAccounts : Type 0 where
  pub source_usdc : AccountInfo
  pub source_authority : AccountInfo
  pub pool_usdc : AccountInfo
  pub pool_target : AccountInfo
  pub dest_target : AccountInfo
  pub pool_authority : AccountInfo
  pub token_program : AccountInfo

module _ (rt : Runtime) where
  unfoldable pub validate_swap : MockAccounts → Tokens → Result ℕ
  validate_swap ctx tokens = do
    source_usdc ← load_token tokens ctx.source_usdc
    pool_usdc ← load_token tokens ctx.pool_usdc
    pool_target ← load_token tokens ctx.pool_target
    dest_target ← load_token tokens ctx.dest_target
    check_program rt.token_program_id ctx.token_program
    check_mut ctx.source_usdc
    check_mut ctx.pool_usdc
    check_mut ctx.pool_target
    check_mut ctx.dest_target
    bump ← find_seeds rt (bytes pool_seed ∷ []) ctx.pool_authority
    ok bump

  unfoldable pub swap : MockAccounts → ℕ → ℕ → Tokens → Result Tokens
  unfolding validate_swap
  swap ctx amount_in out_amount tokens = do
    bump ← validate_swap ctx tokens
    paid ←
        rt.transfer
          (record { from = ctx.source_usdc; to = ctx.pool_usdc; authority = ctx.source_authority })
          [] amount_in tokens
    rt.transfer
        (record { from = ctx.pool_target; to = ctx.dest_target; authority = ctx.pool_authority })
        ((bytes pool_seed ∷ bytes (bump ∷ []) ∷ []) ∷ []) out_amount paid

-- ===== src/MockSwap/Exchange.antt =====
-- programs/mock-swap/src/lib.rs: the balances before and after `swap`.
use solana_recurring_buy.Prelude.{ℕ, ◌+◌, ◌≡◌, ◌≢◌, sym, ◌∙◌, ap, arith, some, List}
use solana_recurring_buy.Errors.{ok, >>=-eq-ok}
use solana_recurring_buy.Chain.{TokenAccount, Tokens, Transfer, Seed, Runtime}
use solana_recurring_buy.Chain.Laws.{balance, amount_of, TransferLaws}
use solana_recurring_buy.MockSwap.{MockAccounts, validate_swap, swap}

-- Each of the four accounts of an exchange is another one.
pub record Apart (ctx : MockAccounts) : Type 0 where
  pub source_pool : ctx.source_usdc.key ≢ ctx.pool_usdc.key
  pub source_target : ctx.source_usdc.key ≢ ctx.pool_target.key
  pub source_dest : ctx.source_usdc.key ≢ ctx.dest_target.key
  pub pool_target : ctx.pool_usdc.key ≢ ctx.pool_target.key
  pub pool_dest : ctx.pool_usdc.key ≢ ctx.dest_target.key
  pub target_dest : ctx.pool_target.key ≢ ctx.dest_target.key

-- One transfer, in balances.
moved :
    (rt : Runtime) (t : Transfer) (seeds : List (List Seed)) (n : ℕ) (ts ts' : Tokens)
    (a : TokenAccount)
    → TransferLaws rt
    → rt.transfer t seeds n ts ≡ ok ts'
    → t.from.key ≢ t.to.key
    → ts t.to.key ≡ some a
    → (balance ts' t.from.key + n ≡ balance ts t.from.key)
      × (balance ts' t.to.key ≡ balance ts t.to.key + n)
moved rt t seeds n ts ts' a laws h apart at = (
  laws.debits t seeds n ts ts' h apart,
  ap amount_of (laws.credits t seeds n ts ts' a h apart at)
      ∙ ap (λ x. x + n) (sym (ap amount_of at)),
)

module _ (rt : Runtime) (ctx : MockAccounts) (amount_in out_amount : ℕ) (ts ts' : Tokens)
    (h : swap rt ctx amount_in out_amount ts ≡ ok ts') where
  loaded :
      {bump : ℕ}
      → validate_swap rt ctx ts ≡ ok bump
      → ((a : TokenAccount) × (ts ctx.pool_usdc.key ≡ some a))
        × ((a : TokenAccount) × (ts ctx.dest_target.key ≡ some a))
  unfolding validate_swap
  loaded valid = ground arith

  -- Given the rules of token transfers, a successful swap between four different accounts moves
  -- `amount_in` from the source to the pool's first account and `out_amount` from the pool's second
  -- account to the destination.
  swap_exchanges :
      TransferLaws rt
      → Apart ctx
      → (balance ts' ctx.source_usdc.key + amount_in ≡ balance ts ctx.source_usdc.key)
        × (balance ts' ctx.pool_usdc.key ≡ balance ts ctx.pool_usdc.key + amount_in)
        × (balance ts' ctx.pool_target.key + out_amount ≡ balance ts ctx.pool_target.key)
        × (balance ts' ctx.dest_target.key ≡ balance ts ctx.dest_target.key + out_amount)
  unfolding swap
  swap_exchanges laws apart =
      let (bump, valid, h1) = >>=-eq-ok (validate_swap rt ctx ts) _ h in
      let (paid, pay, give) = >>=-eq-ok (rt.transfer _ _ amount_in ts) _ h1 in
      let ((p, pool_at), (d, dest_at)) = loaded valid in
      let keep = laws.others _ _ amount_in ts paid in
      let kept = laws.others _ _ out_amount paid ts' in
      let first = moved rt _ _ amount_in ts paid p laws pay apart.source_pool pool_at in
      let dest_kept =
        keep ctx.dest_target.key pay (λ e. apart.source_dest (sym e))
          (λ e. apart.pool_dest (sym e)) in
      let target_kept =
        keep ctx.pool_target.key pay (λ e. apart.source_target (sym e))
          (λ e. apart.pool_target (sym e)) in
      let second =
        moved rt _ _ out_amount paid ts' d laws give apart.target_dest (dest_kept ∙ dest_at) in
      let source_kept = kept ctx.source_usdc.key give apart.source_target apart.source_dest in
      let pool_kept = kept ctx.pool_usdc.key give apart.pool_target apart.pool_dest in
      (
        ap (λ x. amount_of x + amount_in) source_kept ∙ first.0,
        ap amount_of pool_kept ∙ first.1,
        second.0 ∙ ap amount_of target_kept,
        second.1 ∙ ap (λ x. amount_of x + out_amount) dest_kept,
      )

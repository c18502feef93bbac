-- ===== src/MockSwap/Success.antt =====
-- programs/mock-swap/src/lib.rs: when `swap` succeeds, and what it leaves.
use mathlib.Core.List.{Memᴰ}
use solana_recurring_buy.Prelude.{
  ℕ, ◌+◌, ◌-◌, ◌≤◌, ◌<◌, ◌≡◌, ◌≢◌, inl, inr, refl, sym, ◌∙◌, ap, arith, true, some, [], ◌∷◌,
}
use solana_recurring_buy.Errors.{ok}
use solana_recurring_buy.Word.{u64_mod}
use solana_recurring_buy.State.{Pubkey}
use solana_recurring_buy.Chain.{TokenAccount, Tokens, bytes, Runtime}
use solana_recurring_buy.Chain.Laws.{TransferLaws, AddressLaws}
use solana_recurring_buy.Chain.Progress.{TransferAccepts, transfer-Paid}
use solana_recurring_buy.MockSwap.{MockAccounts, pool_seed, validate_swap, swap}
use solana_recurring_buy.MockSwap.Exchange.{Apart}

-- The accounts that a swap is called with, and what they hold.
pub record Stocked (vr : Runtime) (ctx : MockAccounts) (amount_in out_amount : ℕ) (ts : Tokens)
    (source dest : TokenAccount) : Type 0 where
  pub pool_in : TokenAccount
  pub pool_out : TokenAccount
  pub source_at : ts ctx.source_usdc.key ≡ some source
  pub pool_in_at : ts ctx.pool_usdc.key ≡ some pool_in
  pub pool_out_at : ts ctx.pool_target.key ≡ some pool_out
  pub dest_at : ts ctx.dest_target.key ≡ some dest
  pub source_owner : source.owner ≡ ctx.source_authority.key
  pub source_signed : ctx.source_authority.is_signer ≡ true
  pub pool_owner : pool_out.owner ≡ ctx.pool_authority.key
  pub mint_in : source.mint ≡ pool_in.mint
  pub mint_out : pool_out.mint ≡ dest.mint
  pub some_in : amount_in ≤ source.amount
  pub some_out : out_amount ≤ pool_out.amount
  pub room_in : pool_in.amount + amount_in < u64_mod
  pub room_out : dest.amount + out_amount < u64_mod
  pub source_writable : ctx.source_usdc.is_writable ≡ true
  pub pool_in_writable : ctx.pool_usdc.is_writable ≡ true
  pub pool_out_writable : ctx.pool_target.is_writable ≡ true
  pub dest_writable : ctx.dest_target.is_writable ≡ true
  pub token_program : ctx.token_program.key ≡ vr.token_program_id
  pub authority : (vr.find_program_address (bytes pool_seed ∷ [])).0 ≡ ctx.pool_authority.key
  pub apart : Apart ctx

-- What it leaves.
pub record Exchanged (ctx : MockAccounts) (amount_in out_amount : ℕ) (ts ts' : Tokens)
    (source dest : TokenAccount) : Type 0 where
  pub source_left :
      ts' ctx.source_usdc.key ≡ some (record source { amount = source.amount - amount_in })
  pub dest_gained :
      ts' ctx.dest_target.key ≡ some (record dest { amount = dest.amount + out_amount })
  pub others :
      (k : Pubkey)
      → k ≢ ctx.source_usdc.key
      → k ≢ ctx.pool_usdc.key
      → k ≢ ctx.pool_target.key
      → k ≢ ctx.dest_target.key
      → ts' k ≡ ts k

module _ (vr : Runtime) (ctx : MockAccounts) (amount_in out_amount : ℕ) (ts : Tokens)
    (source dest : TokenAccount) (s : Stocked vr ctx amount_in out_amount ts source dest) where
  validates : validate_swap vr ctx ts ≡ ok (vr.find_program_address (bytes pool_seed ∷ [])).1
  unfolding validate_swap
  validates = ground arith

  -- A stocked swap succeeds.
  pub swap_succeeds :
      TransferLaws vr
      → TransferAccepts vr
      → AddressLaws vr
      → (ts' : Tokens) × (swap vr ctx amount_in out_amount ts ≡ ok ts')
        × Exchanged ctx amount_in out_amount ts ts' source dest
  unfolding swap
  swap_succeeds laws accepts addresses =
      let apart = s.apart in
      let bump = (vr.find_program_address (bytes pool_seed ∷ [])).1 in
      let (paid, e1, first) =
        transfer-Paid vr laws accepts
          (record { from = ctx.source_usdc; to = ctx.pool_usdc; authority = ctx.source_authority })
          [] amount_in ts source s.pool_in s.source_at s.pool_in_at (inl s.source_signed)
          s.source_owner s.mint_in s.some_in s.room_in apart.source_pool in
      let pool_kept =
        first.others ctx.pool_target.key (λ e. apart.source_target (sym e))
          (λ e. apart.pool_target (sym e)) in
      let dest_kept =
        first.others ctx.dest_target.key (λ e. apart.source_dest (sym e))
          (λ e. apart.pool_dest (sym e)) in
      let signed = addresses.found (bytes pool_seed ∷ []) ∙ ap some s.authority in
      let (ts', e2, second) =
        transfer-Paid vr laws accepts
          (record { from = ctx.pool_target; to = ctx.dest_target; authority = ctx.pool_authority })
          ((bytes pool_seed ∷ bytes (bump ∷ []) ∷ []) ∷ []) out_amount paid s.pool_out dest
          (pool_kept ∙ s.pool_out_at) (dest_kept ∙ s.dest_at) (inr (_, Memᴰ.head refl, signed))
          s.pool_owner s.mint_out s.some_out s.room_out apart.target_dest in
      (
        ts',
        rw (validates, e1) e2,
        record {
          source_left =
              second.others ctx.source_usdc.key apart.source_target apart.source_dest ∙ first.left;
          dest_gained = second.gained;
          others = λ k h1 h2 h3 h4. second.others k h3 h4 ∙ first.others k h1 h2;
        },
      )

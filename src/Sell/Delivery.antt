-- ===== src/Sell/Delivery.antt =====
-- What the user has after a successful `execute_sell`, read off the chain before and after.
use solana_recurring_buy.Prelude.{
  ℕ, ◌+◌, ◌-◌, ◌*◌, ◌/◌, ◌^◌, ◌≤◌, ◌<◌, ◌≡◌, ◌≢◌, refl, sym, ◌∙◌, ap, arith, some, List,
}
use solana_recurring_buy.Prelude.Int.{ℤ}
use solana_recurring_buy.Errors.{Result, ok}
use solana_recurring_buy.Word.{u64_mod}
use solana_recurring_buy.State.{Pubkey, Config}
use solana_recurring_buy.Floor.Band.{sell_floor_protects}
use solana_recurring_buy.Fee.Bounds.{execution_fee_results}
use solana_recurring_buy.Chain.{AccountInfo, ProgramAccount, Tokens, Chain, Runtime}
use solana_recurring_buy.Chain.Laws.{balance, amount_of, IsWide, TransferLaws}
use solana_recurring_buy.Chain.Account.{Inv}
use solana_recurring_buy.Swap.{Route, invoke_venue}
use solana_recurring_buy.Swap.Custody.{skim_fee_debits, skim_fee_credits}
use solana_recurring_buy.Sell.{ExecuteSell, SellExecuted, sell_route}
use solana_recurring_buy.Sell.Refinement.{Sold}

module _ (rt : Runtime) (ctx : ExecuteSell) (remaining : List AccountInfo) (clock : Result ℤ)
    (min_out : ℕ) (swap_data : List ℕ) (chain chain' : Chain) (event : SellExecuted) where
  -- What is delivered.
  pub record Delivered : Type 0 where
    pub dest_is_users :
        (cfg : Config) × (chain.accounts ctx.config.key ≡ some (ProgramAccount.config cfg))
        × (ctx.dest_usdc.key ≡ rt.get_associated_token_address ctx.user.key cfg.usdc_mint)
    pub spent : balance chain.tokens ctx.transient_target.key ≡ event.amount_in
    pub drained : balance chain'.tokens ctx.transient_target.key ≡ 0
    pub received :
        balance chain'.tokens ctx.dest_usdc.key
        ≡ balance chain.tokens ctx.dest_usdc.key + event.amount_out
    pub enough : min_out ≤ event.amount_out
    pub fee_capped : 100 * event.fee ≤ event.amount_in
    pub fee_below : event.fee < event.amount_in

  same_config :
      (k : Pubkey) (a c : Config)
      → chain.accounts k ≡ some (ProgramAccount.config a)
      → chain.accounts k ≡ some (ProgramAccount.config c)
      → a ≡ c
  same_config k a c h1 h2 = ground arith

  module _ (inv : Inv rt chain) (wide : IsWide chain.tokens)
      (b : Sold rt ctx remaining clock min_out swap_data chain chain' event) where
    fee_parts :
        (event.fee ≡ event.amount_in * b.acc.fee_config.fee_bps / 10_000)
        × (100 * event.fee ≤ event.amount_in)
        × (b.net + event.fee ≡ event.amount_in)
        × (0 < b.net)
    fee_parts = rw b.event_amount_in (
        execution_fee_results b.acc.transient_target.amount b.acc.fee_config.fee_bps
          (wide ctx.transient_target.key b.acc.transient_target b.validated.transient_at)
          (inv ctx.fee_config.key _ b.validated.fee_config_at).1.capped b.guards.fee_due
          b.guards.net_due)

    pub Sold-Delivered : Delivered
    Sold-Delivered =
        let v = b.swapped.verified in
        record {
          dest_is_users = (b.acc.config, b.validated.config_at, b.guards.dest_canonical);
          spent = ap amount_of b.validated.transient_at ∙ sym b.event_amount_in;
          drained = ap amount_of v.transient_at ∙ v.drained;
          received =
              ap amount_of v.dest_at
              ∙ v.gained
              ∙ ap (λ n. n + event.amount_out) (sym (ap amount_of b.validated.dest_at));
          enough = v.enough;
          fee_capped = fee_parts.1;
          fee_below = omega (arith, fee_parts);
        }

    -- Below the price, the guard's floor.
    pub price_parts :
        (cfg : Config)
        → chain.accounts ctx.config.key ≡ some (ProgramAccount.config cfg)
        → (event.amount_in - event.fee) * cfg.price_ref_micros / 10 ^ cfg.target_decimals < u64_mod
        → (event.amount_in - event.fee) * cfg.price_ref_micros * (10_000 - cfg.max_slippage_bps)
          < 10 ^ cfg.target_decimals * (10_000 * (event.amount_out + 2))
    price_parts cfg at fits =
        let same : b.acc.config ≡ cfg =
          same_config ctx.config.key b.acc.config cfg b.validated.config_at at in
        let v = (inv ctx.config.key _ at).1 in
        let net : b.net ≡ event.amount_in - event.fee = omega (arith, fee_parts) in
        let wide_in : event.amount_in < u64_mod =
          rw b.event_amount_in (wide ctx.transient_target.key _ b.validated.transient_at) in
        let small : event.amount_in - event.fee < u64_mod = omega (arith, wide_in) in
        sell_floor_protects (event.amount_in - event.fee) cfg.price_ref_micros cfg.target_decimals
          cfg.max_slippage_bps event.amount_out small v.price v.scale v.slippage fits
          (rw (same, net) at b.guards.floor_due)
          (omega (arith, b.guards.floor_met, b.swapped.verified.enough))

    -- What the venue is given.
    pub Sold-Skimmed :
        (laws : TransferLaws rt)
        → ctx.transient_target.key ≢ ctx.fee_ata.key
        → (skimmed : Tokens) × (route : Route) × (route.swap_program ≡ ctx.swap_program)
          × (route.remaining_accounts ≡ remaining)
          × (route.swap_data ≡ swap_data)
          × (invoke_venue rt route skimmed ≡ ok chain'.tokens)
          × (balance skimmed ctx.transient_target.key ≡ event.amount_in - event.fee)
          × (balance skimmed ctx.fee_ata.key ≡ balance chain.tokens ctx.fee_ata.key + event.fee)
    Sold-Skimmed laws apart =
        let r = sell_route rt ctx b.acc remaining swap_data in
        let s = b.swapped in
        let (a, at) = b.validated.fee_ata_at in
        let debit = skim_fee_debits rt r event.fee chain.tokens s.skimmed laws s.skim apart in
        let spent : balance chain.tokens ctx.transient_target.key ≡ event.amount_in =
          ap amount_of b.validated.transient_at ∙ sym b.event_amount_in in
        (
          s.skimmed,
          r,
          refl,
          refl,
          refl,
          s.call,
          omega (arith, debit, spent),
          ap amount_of
                (skim_fee_credits rt r event.fee chain.tokens s.skimmed laws s.skim a apart at)
              ∙ ap (λ n. n + event.fee) (sym (ap amount_of at)),
        )

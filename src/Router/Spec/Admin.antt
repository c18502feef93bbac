-- ===== src/Router/Spec/Admin.antt =====
-- programs/recurring-buy/src/lib.rs: each handler of the admin against its transition.
use solana_recurring_buy.Prelude.{
  ℕ, ◌≤◌, ◌≡◌, ◌↔◌, refl, arith, Bool, true, Option, none, some, List, [], ◌∷◌, length,
}
use solana_recurring_buy.Errors.{ok}
use solana_recurring_buy.State.{Pubkey, Config, max_swap_programs}
use solana_recurring_buy.Chain.{Mint, ProgramAccount, Chain, Runtime, store}
use solana_recurring_buy.Chain.Constraints.{config_seeds, fee_config_seeds}
use solana_recurring_buy.Admin.{
  InitConfig, AdminOnly, InitFeeConfig, SetFee, fill_from, set_swap_programs, init_config,
  set_pause, set_params, set_whitelist, init_fee_config, set_fee,
}
use solana_recurring_buy.Admin.Effects.{AdminSigned, config_of, fee_config_of, initial_config}
use solana_recurring_buy.Router.Spec.{
  with_venues, ConfigCreated, ConfigChanged, FeeCreated, FeeChanged,
}

abbrev mint_of : Option Mint → Mint
mint_of none = record { decimals = 0 }
mint_of (some m) = m

-- The array that the loop of the venues fills.
set_swap_programs-padded :
    (ps : List Pubkey) (cfg : Config)
    → length ps ≤ max_swap_programs
    → set_swap_programs ps cfg ≡ ok (with_venues ps cfg)
unfolding set_swap_programs fill_from
set_swap_programs-padded [] cfg h = refl
set_swap_programs-padded (a ∷ []) cfg h = refl
set_swap_programs-padded (a ∷ b ∷ []) cfg h = refl
set_swap_programs-padded (a ∷ b ∷ c ∷ []) cfg h = refl
set_swap_programs-padded (a ∷ b ∷ c ∷ d ∷ ps) cfg h = absurd (omega arith)

module _ (rt : Runtime) (c : Chain) {c' : Chain} where
  pub set_pause_iff :
      (ctx : AdminOnly) (paused : Bool)
      → (set_pause rt ctx paused c ≡ ok c')
        ↔ ConfigChanged rt ctx (λ cfg. record cfg { paused = paused }) c c'
  unfolding set_pause
  set_pause_iff ctx paused = (
    λ h. record {
      cfg = config_of (c.accounts ctx.config.key);
      access = ground arith;
      writable = ground arith;
      written = ground arith;
    },
    λ s. ground arith,
  )

  pub set_params_iff :
      (ctx : AdminOnly) (price slip : ℕ)
      → (set_params rt ctx price slip c ≡ ok c') ↔ (
          (slip ≤ 10_000)
          × ConfigChanged rt ctx
              (λ cfg. record cfg { price_ref_micros = price; max_slippage_bps = slip })
              c
              c')
  unfolding set_params
  set_params_iff ctx price slip = (
    λ h. (
      ground arith,
      record {
        cfg = config_of (c.accounts ctx.config.key);
        access = ground arith;
        writable = ground arith;
        written = ground arith;
      },
    ),
    λ s. ground arith,
  )

  whitelist_parts :
      (ctx : AdminOnly) (ps : List Pubkey)
      → set_whitelist rt ctx ps c ≡ ok c'
      → (length ps ≤ max_swap_programs)
        × AdminSigned rt ctx.admin ctx.config c (config_of (c.accounts ctx.config.key))
        × (ctx.config.is_writable ≡ true)
        × (c'
            ≡ store ctx.config.key
                (ProgramAccount.config (with_venues ps (config_of (c.accounts ctx.config.key))))
                c)
  unfolding set_whitelist
  whitelist_parts ctx ps h =
      ground (arith, set_swap_programs-padded ps (config_of (c.accounts ctx.config.key)))

  pub set_whitelist_iff :
      (ctx : AdminOnly) (ps : List Pubkey)
      → (set_whitelist rt ctx ps c ≡ ok c')
        ↔ ((length ps ≤ max_swap_programs) × ConfigChanged rt ctx (with_venues ps) c c')
  unfolding set_whitelist
  set_whitelist_iff ctx ps = (
    λ h.
        let (le, access, writable, e) = whitelist_parts ctx ps h in
        (
          le,
          record {
            cfg = config_of (c.accounts ctx.config.key);
            access = access;
            writable = writable;
            written = e;
          },
        ),
    λ s. ground (arith, set_swap_programs-padded ps s.1.cfg),
  )

  pub init_fee_config_iff :
      (ctx : InitFeeConfig) (fee_bps : ℕ) (destination : Pubkey)
      → (init_fee_config rt ctx fee_bps destination c ≡ ok c')
        ↔ FeeCreated rt ctx fee_bps destination c c'
  unfolding init_fee_config
  init_fee_config_iff ctx fee_bps destination = (
    λ h. record {
      cfg = config_of (c.accounts ctx.config.key);
      bump = (rt.find_program_address fee_config_seeds).1;
      access = ground arith;
      pays = ground arith;
      program = ground arith;
      address = ground arith;
      writable = ground arith;
      vacant = ground arith;
      capped = ground arith;
      written = ground arith;
    },
    λ s. ground arith,
  )

  pub set_fee_iff :
      (ctx : SetFee) (fee_bps : ℕ) (destination : Pubkey)
      → (set_fee rt ctx fee_bps destination c ≡ ok c') ↔ FeeChanged rt ctx fee_bps destination c c'
  unfolding set_fee
  set_fee_iff ctx fee_bps destination = (
    λ h. record {
      cfg = config_of (c.accounts ctx.config.key);
      fc = fee_config_of (c.accounts ctx.fee_config.key);
      access = ground arith;
      fee_at = ground arith;
      fee_pda = ground arith;
      writable = ground arith;
      capped = ground arith;
      written = ground arith;
    },
    λ s. ground arith,
  )

  pub init_config_iff :
      (ctx : InitConfig) (ps : List Pubkey) (price slip : ℕ)
      → (init_config rt ctx ps price slip c ≡ ok c') ↔ ConfigCreated rt ctx ps price slip c c'
  unfolding init_config
  init_config_iff ctx ps price slip = (
    λ h. record {
      bump = (rt.find_program_address config_seeds).1;
      target = mint_of (c.mints ctx.target_mint.key);
      quote = mint_of (c.mints ctx.usdc_mint.key);
      signed = ground arith;
      pays = ground arith;
      program = ground arith;
      address = ground arith;
      writable = ground arith;
      vacant = ground arith;
      target_at = ground arith;
      quote_at = ground arith;
      scale = ground arith;
      quote_scale = ground arith;
      few = ground arith;
      band = ground arith;
      written = ground (arith, set_swap_programs-padded ps (initial_config ctx));
    },
    λ s. ground (arith, set_swap_programs-padded ps (initial_config ctx)),
  )

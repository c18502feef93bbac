-- ===== src/Router/Charges.antt =====
-- programs/recurring-buy/src/lib.rs: what a swap charges by the fee configuration of its chain.
use solana_recurring_buy.Prelude.{
  ℕ, ◌+◌, ◌-◌, ◌*◌, ◌/◌, ◌≤◌, ◌≡◌, ◌≢◌, sym, ◌∙◌, ap, subst, arith, Option, none, some,
}
use solana_recurring_buy.Prelude.Int.{ℤ}
use solana_recurring_buy.Errors.{Result, ok}
use solana_recurring_buy.State.{Pubkey, Config, FeeConfig, max_fee_bps, default_pubkey}
use solana_recurring_buy.Chain.{ProgramAccount, Tokens, Chain, Runtime}
use solana_recurring_buy.Chain.Account.{Inv}
use solana_recurring_buy.Chain.Laws.{IsWide, TransferLaws, balance}
use solana_recurring_buy.Swap.{Route, invoke_venue}
use solana_recurring_buy.Buy.Delivery.{Bought-Skimmed}
use solana_recurring_buy.Sell.Delivery.{Sold-Skimmed}
use solana_recurring_buy.Router.{Call, Event, buy_executed, sell_executed}
use solana_recurring_buy.Router.Spec.{Trace, buys, sells}
use solana_recurring_buy.Router.Fees.{charged}

some-injective : {A : Type 0} {a b : A} → some a ≡ some b → a ≡ b
some-injective h = cc

module _ (rt : Runtime) where
  -- There is one fee configuration.
  one_fee :
      (c : Chain) (inv : Inv rt c) (k j : Pubkey) (a b : FeeConfig)
      → c.accounts k ≡ some (ProgramAccount.fee_config a)
      → c.accounts j ≡ some (ProgramAccount.fee_config b)
      → a ≡ b
  one_fee c inv k j a b ha hb =
      let same : k ≡ j =
        ap (λ (r : Pubkey × ℕ). r.0)
          (sym (inv k (ProgramAccount.fee_config a) ha).0
            ∙ (inv j (ProgramAccount.fee_config b) hb).0) in
      let both = sym ha ∙ ap c.accounts same ∙ hb in ground arith

-- The input and the fee of a swap, as its event reports them; the account that it takes the input
-- from, the one that the fee goes to, and the mint of both.
abbrev pub charge_of : Event → Option (ℕ × ℕ)
charge_of (buy_executed e) = some (e.amount_in, e.fee)
charge_of (sell_executed e) = some (e.amount_in, e.fee)
charge_of _ = none

abbrev pub transient_of : Call → Pubkey
transient_of (Call.execute_buy ctx remaining min_out swap_data) = ctx.transient_usdc.key
transient_of (Call.execute_sell ctx remaining min_out swap_data) = ctx.transient_target.key
transient_of _ = default_pubkey

abbrev pub fee_ata_of : Call → Pubkey
fee_ata_of (Call.execute_buy ctx remaining min_out swap_data) = ctx.fee_ata.key
fee_ata_of (Call.execute_sell ctx remaining min_out swap_data) = ctx.fee_ata.key
fee_ata_of _ = default_pubkey

abbrev pub input_mint : Call → Config → Pubkey
input_mint (Call.execute_sell ctx remaining min_out swap_data) cfg = cfg.target_mint
input_mint _ cfg = cfg.usdc_mint

-- The venue, the accounts and the data of the call are those that the route forwards.
abbrev pub Forwards : Call → Route → Type 0
Forwards (Call.execute_buy ctx remaining min_out swap_data) r =
    (r.swap_program ≡ ctx.swap_program)
    × (r.remaining_accounts ≡ remaining)
    × (r.swap_data ≡ swap_data)
Forwards (Call.execute_sell ctx remaining min_out swap_data) r =
    (r.swap_program ≡ ctx.swap_program)
    × (r.remaining_accounts ≡ remaining)
    × (r.swap_data ≡ swap_data)
Forwards _ r = ⊥

-- When the venue is called, which leaves the tokens `ts'`, the fee has moved from the transient account
-- to the destination's account for the mint of the input.
pub record FeePaid (rt : Runtime) (x : Call) (destination : Pubkey) (amount fee : ℕ) (d d' : Chain)
    : Type 0 where
  pub config_key : Pubkey
  pub cfg : Config
  pub config_at : d.accounts config_key ≡ some (ProgramAccount.config cfg)
  pub to_destination : fee_ata_of x ≡ rt.get_associated_token_address destination (input_mint x cfg)
  pub skimmed : Tokens
  pub route : Route
  pub forwards : Forwards x route
  pub call : invoke_venue rt route skimmed ≡ ok d'.tokens
  pub left : balance skimmed (transient_of x) ≡ amount - fee
  pub paid : balance skimmed (fee_ata_of x) ≡ balance d.tokens (fee_ata_of x) + fee

module _ (rt : Runtime) (fc : FeeConfig) (fee_key : Pubkey) (d d' : Chain) (inv : Inv rt d)
    (wide : IsWide d.tokens) (laws : TransferLaws rt)
    (at : d.accounts fee_key ≡ some (ProgramAccount.fee_config fc))
    (capped : fc.fee_bps ≤ max_fee_bps) where
  -- What a swap charges on a chain with that fee configuration.
  abbrev Charges : Call → ℕ → ℕ → Type 0
  Charges x amount fee =
      (fee ≡ amount * fc.fee_bps / 10_000) × FeePaid rt x fc.destination amount fee d d'

  as_reported :
      (x : Call) {a f amount fee : ℕ}
      → ◌≡◌ {A = Option (ℕ × ℕ)} (some (a, f)) (some (amount, fee))
      → Charges x a f
      → Charges x amount fee
  as_reported x c charges = subst (λ (r : ℕ × ℕ). Charges x r.0 r.1) (some-injective c) charges

  pub charged_and_paid :
      {x : Call} {clock : Result ℤ} {e : Event} (amount fee : ℕ)
      → Trace rt clock d d' x e
      → charge_of e ≡ some (amount, fee)
      → transient_of x ≢ fee_ata_of x
      → Charges x amount fee
  charged_and_paid amount fee (buys {ctx} {remaining} {min_out} {swap_data} {event} b) c apart =
      let same : b.acc.fee_config ≡ fc =
        one_fee rt d inv ctx.fee_config.key fee_key b.acc.fee_config fc b.validated.fee_config_at
          at in
      let due : event.fee ≡ event.amount_in * fc.fee_bps / 10_000 =
        charged b.acc.transient_usdc.amount event.amount_in b.acc.fee_config.fee_bps fc.fee_bps
          b.event_amount_in (ap (λ (g : FeeConfig). g.fee_bps) same)
          (wide ctx.transient_usdc.key b.acc.transient_usdc b.validated.transient_at) capped
          b.guards.fee_due b.guards.net_due in
      let (skimmed, route, program, accounts, payload, called, left, paid) =
        Bought-Skimmed rt ctx remaining min_out swap_data d d' event inv wide b laws apart in
      as_reported (Call.execute_buy ctx remaining min_out swap_data) c (
        due,
        record {
          config_key = ctx.config.key;
          cfg = b.acc.config;
          config_at = b.validated.config_at;
          to_destination =
              b.guards.fee_canonical
              ∙ ap
                  (λ (g : FeeConfig).
                    rt.get_associated_token_address g.destination b.acc.config.usdc_mint)
                  same;
          skimmed = skimmed;
          route = route;
          forwards = (program, accounts, payload);
          call = called;
          left = left;
          paid = paid;
        },
      )
  charged_and_paid {clock = clock} amount fee
        (sells {ctx} {remaining} {min_out} {swap_data} {event} s) c apart =
      let same : s.acc.fee_config ≡ fc =
        one_fee rt d inv ctx.fee_config.key fee_key s.acc.fee_config fc s.validated.fee_config_at
          at in
      let due : event.fee ≡ event.amount_in * fc.fee_bps / 10_000 =
        charged s.acc.transient_target.amount event.amount_in s.acc.fee_config.fee_bps fc.fee_bps
          s.event_amount_in (ap (λ (g : FeeConfig). g.fee_bps) same)
          (wide ctx.transient_target.key s.acc.transient_target s.validated.transient_at) capped
          s.guards.fee_due s.guards.net_due in
      let (skimmed, route, program, accounts, payload, called, left, paid) =
        Sold-Skimmed rt ctx remaining clock min_out swap_data d d' event inv wide s laws apart in
      as_reported (Call.execute_sell ctx remaining min_out swap_data) c (
        due,
        record {
          config_key = ctx.config.key;
          cfg = s.acc.config;
          config_at = s.validated.config_at;
          to_destination =
              s.guards.fee_canonical
              ∙ ap
                  (λ (g : FeeConfig).
                    rt.get_associated_token_address g.destination s.acc.config.target_mint)
                  same;
          skimmed = skimmed;
          route = route;
          forwards = (program, accounts, payload);
          call = called;
          left = left;
          paid = paid;
        },
      )
  charged_and_paid amount fee _ c apart = ground arith

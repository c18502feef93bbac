-- ===== src/Router/Standing.antt =====
-- programs/recurring-buy/src/lib.rs: `set_pause` and `set_whitelist`, and the swaps that follow
-- after other calls.
use solana_recurring_buy.Prelude.{
  ◌≡◌, sym, ◌∙◌, ap, subst, arith, inl, inr, true, false, Option, none, some, List, contains,
}
use solana_recurring_buy.Prelude.Int.{ℤ}
use solana_recurring_buy.Errors.{Result, ok, ok-injective}
use solana_recurring_buy.State.{Pubkey, Config, is_whitelisted}
use solana_recurring_buy.Chain.{ProgramAccount, Chain, Runtime}
use solana_recurring_buy.Admin.{AdminOnly, set_pause, set_whitelist}
use solana_recurring_buy.Admin.Venues.{set_swap_programs-Listed}
use solana_recurring_buy.Admin.Effects.{set_pause_writes, set_whitelist_writes}
use solana_recurring_buy.Buy.Refinement.{execute_buy-Bought}
use solana_recurring_buy.Sell.Refinement.{execute_sell-Sold}
use solana_recurring_buy.Router.{Call, Event, process}
use solana_recurring_buy.Router.Results.{bought, sold}
use solana_recurring_buy.Router.Authority.{SignedAs, process-ConfigFate}

-- The configuration and the venue of a swap.
abbrev pub executes : Call → Option (Pubkey × Pubkey)
executes (Call.execute_buy ctx remaining min_out swap_data) =
    some (ctx.config.key, ctx.swap_program.key)
executes (Call.execute_sell ctx remaining min_out swap_data) =
    some (ctx.config.key, ctx.swap_program.key)
executes _ = none

module _ (rt : Runtime) where
  -- Any calls, none of them signed by `admin`, and anything that other programs do in between.
  pub data Calm (admin : Pubkey) (c : Chain) : Chain → Type 0 where
    still : Calm admin c c
    call :
        {d d' : Chain} (x : Call) (clock : Result ℤ) (e : Event)
        → Calm admin c d
        → process rt x clock d ≡ ok (d', e)
        → ¬ (SignedAs x admin)
        → Calm admin c d'
    outside : {d d' : Chain} → Calm admin c d → d'.accounts ≡ d.accounts → Calm admin c d'

  pub Calm-config :
      (k : Pubkey) (cfg : Config) {c d : Chain}
      → c.accounts k ≡ some (ProgramAccount.config cfg)
      → Calm cfg.admin c d
      → d.accounts k ≡ some (ProgramAccount.config cfg)
  Calm-config k cfg at still = at
  Calm-config k cfg at (call x clock e before h unsigned) =
      let (there, same, by) =
        process-ConfigFate rt _ _ e clock k cfg (Calm-config k cfg at before) x h in
      elim by [
        | inl kept ↦ there ∙ ap (λ g. some (ProgramAccount.config g)) kept
        | inr signed ↦ absurd (unsigned signed)
      ]
  Calm-config k cfg at (outside before kept) = ap (λ f. f k) kept ∙ Calm-config k cfg at before

  -- A swap that succeeds reads a configuration that is not paused and lists its venue.
  executes-config :
      (x : Call) (clock : Result ℤ) (d d' : Chain) (e : Event) (k v : Pubkey)
      → executes x ≡ some (k, v)
      → process rt x clock d ≡ ok (d', e)
      → (cfg : Config) × (d.accounts k ≡ some (ProgramAccount.config cfg))
        × (cfg.paused ≡ false)
        × (is_whitelisted cfg v ≡ ok true)
  unfolding process
  executes-config (Call.execute_buy ctx remaining min_out swap_data) clock d d' e k v same h =
      let b = execute_buy-Bought rt ctx remaining min_out swap_data d d' _ (bought _ h) in
      (
        b.acc.config,
        ground (arith, b.validated.config_at),
        b.guards.running,
        ground (arith, b.guards.listed),
      )
  executes-config (Call.execute_sell ctx remaining min_out swap_data) clock d d' e k v same h =
      let s = execute_sell-Sold rt ctx remaining clock min_out swap_data d d' _ (sold _ h) in
      (
        s.acc.config,
        ground (arith, s.validated.config_at),
        s.guards.running,
        ground (arith, s.guards.listed),
      )
  executes-config _ clock d d' e k v same h = ground arith

  module _ (admin : AdminOnly) (c c' d d' : Chain) (x : Call) (clock : Result ℤ) (e : Event)
      (venue : Pubkey) where
    -- Once the admin has paused the router, no buy or sell under that configuration succeeds, after
    -- any calls that the admin did not sign.
    pub set_pause_lasts :
        set_pause rt admin true c ≡ ok c'
        → Calm admin.admin.key c' d
        → executes x ≡ some (admin.config.key, venue)
        → ¬ (process rt x clock d ≡ ok (d', e))
    set_pause_lasts set calm swaps h =
        let (cfg, access, stored) = set_pause_writes rt c admin true set in
        let (now, now_at, running, listed) =
          executes-config x clock d d' e admin.config.key venue swaps h in
        let stands =
          Calm-config admin.config.key (record cfg { paused = true }) (ground arith)
            (subst (λ a. Calm a c' d) (sym access.is_admin) calm) in
        ground (arith, now_at, running, stands)

    -- Once the admin has set the whitelist, every buy or sell under that configuration that
    -- succeeds calls a program of the list, after any calls that the admin did not sign.
    pub set_whitelist_lasts :
        (ps : List Pubkey)
        → set_whitelist rt admin ps c ≡ ok c'
        → Calm admin.admin.key c' d
        → executes x ≡ some (admin.config.key, venue)
        → process rt x clock d ≡ ok (d', e)
        → contains ps venue ≡ true
    set_whitelist_lasts ps set calm swaps h =
        let (cfg, cfg', access, le, made, stored) = set_whitelist_writes rt c admin ps set in
        let l = set_swap_programs-Listed ps cfg cfg' le made in
        let (now, now_at, running, listed) =
          executes-config x clock d d' e admin.config.key venue swaps h in
        let same_admin : cfg'.admin ≡ admin.admin.key =
          ap (λ (g : Config). g.admin) l.rest ∙ access.is_admin in
        let stands =
          Calm-config admin.config.key cfg' (ground arith)
            (subst (λ a. Calm a c' d) (sym same_admin) calm) in
        let same : cfg' ≡ now = ground (arith, now_at, stands) in
        ok-injective
          (sym (l.listed venue) ∙ subst (λ g. is_whitelisted g venue ≡ ok true) (sym same) listed)

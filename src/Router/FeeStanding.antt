-- ===== src/Router/FeeStanding.antt =====
-- programs/recurring-buy/src/lib.rs: `set_fee`, and the fee of the swaps that follow after other
-- calls.
use solana_recurring_buy.Prelude.{ℕ, ◌*◌, ◌/◌, ◌≡◌, ◌≢◌, sym, ◌∙◌, ap, subst, arith, inl, inr, some}
use solana_recurring_buy.Prelude.Int.{ℤ}
use solana_recurring_buy.Errors.{Result, ok}
use solana_recurring_buy.State.{Pubkey, Config, FeeConfig}
use solana_recurring_buy.Chain.{ProgramAccount, Chain, Runtime}
use solana_recurring_buy.Chain.Account.{Inv}
use solana_recurring_buy.Chain.Laws.{IsWide, TransferLaws}
use solana_recurring_buy.Admin.{SetFee, set_fee}
use solana_recurring_buy.Admin.Effects.{set_fee_writes, config_of, fee_config_of}
use solana_recurring_buy.Router.{Call, Event, process}
use solana_recurring_buy.Router.Spec.Refinement.{process_traces}
use solana_recurring_buy.Router.Invariant.{set_fee-Inv}
use solana_recurring_buy.Router.Reach.{process-Inv}
use solana_recurring_buy.Router.Authority.{SignedAs, process-ConfigFate}
use solana_recurring_buy.Router.FeeFate.{FeeFate, process-FeeFate}
use solana_recurring_buy.Router.Completed.{Unattended, alone, call, outside}
use solana_recurring_buy.Router.Charges.{
  charge_of, transient_of, fee_ata_of, FeePaid, charged_and_paid,
}

module _ (rt : Runtime) where
  -- The configuration's admin and the fee configuration, on one chain.
  record Governed (admin : Pubkey) (fee_key : Pubkey) (fc : FeeConfig) (c : Chain) : Type 0 where
    key : Pubkey
    cfg : Config
    config_at : c.accounts key ≡ some (ProgramAccount.config cfg)
    by : cfg.admin ≡ admin
    fee_at : c.accounts fee_key ≡ some (ProgramAccount.fee_config fc)

  -- There is one configuration.
  one_config :
      (c : Chain) (inv : Inv rt c) (k j : Pubkey) (a b : Config)
      → c.accounts k ≡ some (ProgramAccount.config a)
      → c.accounts j ≡ some (ProgramAccount.config b)
      → a ≡ b
  one_config c inv k j a b ha hb =
      let same : k ≡ j =
        ap (λ (r : Pubkey × ℕ). r.0)
          (sym (inv k (ProgramAccount.config a) ha).0 ∙ (inv j (ProgramAccount.config b) hb).0) in
      let both = sym ha ∙ ap c.accounts same ∙ hb in ground arith

  module _ (admin fee_key : Pubkey) (fc : FeeConfig) where
    -- The fee after a call that the admin did not sign.
    fee_kept :
        (x : Call) (d d' : Chain)
        → Inv rt d
        → Governed admin fee_key fc d
        → ¬ (SignedAs x admin)
        → FeeFate x fc d (d'.accounts fee_key)
        → d'.accounts fee_key ≡ some (ProgramAccount.fee_config fc)
    fee_kept x d d' inv now unsigned (there, bump, inl same) =
        there ∙ ap (λ g. some (ProgramAccount.fee_config g)) same
    fee_kept x d d' inv now unsigned (there, bump, inr (key, cfg, at, signed, most)) =
        let same : cfg ≡ now.cfg = one_config d inv key now.key cfg now.cfg at now.config_at in
        absurd (unsigned (subst (SignedAs x) (ap (λ (g : Config). g.admin) same ∙ now.by) signed))

    Unattended-Governed :
        {c d : Chain}
        → Inv rt c
        → Governed admin fee_key fc c
        → Unattended rt admin c d
        → Inv rt d × Governed admin fee_key fc d
    Unattended-Governed inv g alone = (inv, g)
    Unattended-Governed inv g (call {d} {d'} x clock e before typed timely h unsigned) =
        let (inv_d, now) = Unattended-Governed inv g before in
        let (there, same, by) =
          process-ConfigFate rt d d' e clock now.key now.cfg now.config_at x h in
        (
          process-Inv rt x clock d d' e typed timely inv_d h,
          record {
            key = now.key;
            cfg = config_of (d'.accounts now.key);
            config_at = there;
            by = same.admin ∙ now.by;
            fee_at =
                fee_kept x d d' inv_d now unsigned
                  (process-FeeFate rt d d' e clock fee_key fc now.fee_at x h);
          },
        )
    Unattended-Governed inv g (outside before kept) =
        let (inv_d, now) = Unattended-Governed inv g before in
        (
          λ j a h. inv_d j a (rw kept at h),
          record {
            key = now.key;
            cfg = now.cfg;
            config_at = ap (λ f. f now.key) kept ∙ now.config_at;
            by = now.by;
            fee_at = ap (λ f. f fee_key) kept ∙ now.fee_at;
          },
        )

module _ (rt : Runtime) (ctx : SetFee) (fee_bps : ℕ) (destination : Pubkey)
    (c c' d d' : Chain) where
  -- Once the admin has set the fee, on a chain where the accounts of the program are well formed,
  -- and after any calls with arguments and clocks in range that the admin did not sign, every buy or
  -- sell that succeeds on 64-bit token amounts, with a fee account other than the transient account,
  -- charges exactly that share of its input, rounded down: when its venue is called, with its
  -- accounts and data, the transient account holds the input less the fee, and the fee account,
  -- which is the destination's associated account for the mint of the input, has gained exactly the
  -- fee. Token transfers are assumed to follow their rules.
  pub set_fee_lasts :
      TransferLaws rt
      → Inv rt c
      → set_fee rt ctx fee_bps destination c ≡ ok c'
      → Unattended rt ctx.admin.key c' d
      → IsWide d.tokens
      → (x : Call) (clock : Result ℤ) (e : Event) (amount fee : ℕ)
      → process rt x clock d ≡ ok (d', e)
      → charge_of e ≡ some (amount, fee)
      → transient_of x ≢ fee_ata_of x
      → (fee ≡ amount * fee_bps / 10_000) × FeePaid rt x destination amount fee d d'
  set_fee_lasts laws inv set run wide x clock e amount fee h charge apart =
      let (access, most, at, stored) = set_fee_writes rt c ctx fee_bps destination set in
      let cfg = config_of (c.accounts ctx.config.key) in
      let fc : FeeConfig = record (fee_config_of (c.accounts ctx.fee_config.key)) {
        fee_bps = fee_bps;
        destination = destination;
      } in
      let governed : Governed rt ctx.admin.key ctx.fee_config.key fc c' = record {
        key = ctx.config.key;
        cfg = cfg;
        config_at = ground (arith, access.config_at, at, stored);
        by = access.is_admin;
        fee_at = ground (arith, stored);
      } in
      let (inv_d, now) =
        Unattended-Governed rt ctx.admin.key ctx.fee_config.key fc
          (set_fee-Inv rt c inv ctx fee_bps destination set) governed run in
      charged_and_paid rt fc ctx.fee_config.key d d' inv_d wide laws now.fee_at most amount fee
        ((process_traces rt clock d x d' e).0 h) charge apart

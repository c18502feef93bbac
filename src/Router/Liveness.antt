-- ===== src/Router/Liveness.antt =====
-- programs/recurring-buy/src/lib.rs: `close_sell_plan` and `set_pause` after other calls. The owner
-- of a plan and the admin of a configuration keep their way out.
use solana_recurring_buy.Prelude.{
  ◌≡◌, ◌≢◌, refl, Bool, sym, ◌∙◌, ap, subst, subst₂, inl, inr, true, Option, some, ◌++◌, ◌∷◌, [],
}
use solana_recurring_buy.Prelude.Int.{ℤ}
use solana_recurring_buy.Errors.{Result, ok}
use solana_recurring_buy.State.{Pubkey, Config, SellPlan}
use solana_recurring_buy.Chain.{ProgramAccount, Chain, Runtime, bytes, store, remove}
use solana_recurring_buy.Chain.Account.{Inv}
use solana_recurring_buy.Chain.Laws.{AddressLaws, recreated}
use solana_recurring_buy.Chain.Constraints.{config_seeds, sell_plan_seeds}
use solana_recurring_buy.Admin.{AdminOnly}
use solana_recurring_buy.Plan.{CloseSellPlan}
use solana_recurring_buy.Router.{Call, silent, process}
use solana_recurring_buy.Router.Spec.{closes, pauses}
use solana_recurring_buy.Router.Spec.Refinement.{process_traces}
use solana_recurring_buy.Router.Reach.{process-Inv}
use solana_recurring_buy.Router.Plans.{process-PlanFate}
use solana_recurring_buy.Router.Authority.{SignedAs}
use solana_recurring_buy.Router.Standing.{Calm, Calm-config}
use solana_recurring_buy.Router.Completed.{Unattended, alone, call, outside}

-- An account that holds a plan of the user.
record OwnedPlan (user : Pubkey) (a : Option ProgramAccount) : Type 0 where
  plan : SellPlan
  stored : a ≡ some (ProgramAccount.sell_plan plan)
  owner : plan.user ≡ user

module _ (rt : Runtime) (laws : AddressLaws rt) where
  module _ (k : Pubkey) (p : SellPlan) {c : Chain} (inv : Inv rt c)
      (at : c.accounts k ≡ some (ProgramAccount.sell_plan p)) where
    -- The plan stays, with its user, while its owner does not call.
    Unattended-OwnedPlan :
        {d : Chain} → Unattended rt p.user c d → Inv rt d × OwnedPlan p.user (d.accounts k)
    Unattended-OwnedPlan alone = (inv, record { plan = p; stored = at; owner = refl })
    Unattended-OwnedPlan (call {d} {d'} x clock e before typed timely h unsigned) =
        let (inv_d, now) = Unattended-OwnedPlan before in
        (
          process-Inv rt x clock d d' e typed timely inv_d h,
          elim (process-PlanFate rt d d' e clock inv_d timely k now.plan now.stored x h) [
            | inl kept ↦ record { plan = now.plan; stored = kept; owner = now.owner }
            | inr (inl (signed, gone)) ↦ absurd (unsigned (subst (SignedAs x) now.owner signed))
            | inr (inr crank) ↦ record {
              plan = crank.plan;
              stored = crank.stored;
              owner = ap (λ (r : SellPlan). r.user) crank.jumped.rest ∙ now.owner;
            }
          ],
        )
    Unattended-OwnedPlan (outside before kept) =
        let (inv_d, now) = Unattended-OwnedPlan before in
        (
          λ j a h. inv_d j a (rw kept at h),
          record { plan = now.plan; stored = ap (λ f. f k) kept ∙ now.stored; owner = now.owner },
        )

    -- No one can lock a plan in. In a state where the accounts of the program are well formed and a
    -- plan is stored, and after any calls with arguments and clocks in range that the plan's owner did
    -- not sign, the owner's signed call of `close_sell_plan` succeeds at any time, paused or not, and
    -- does nothing but remove the plan. Derived addresses are assumed to be found with a bump that
    -- creates them, the owner's and the plan's accounts are writable, and they are two accounts.
    pub owner_can_close :
        {d : Chain} (ctx : CloseSellPlan) (clock : Result ℤ)
        → Unattended rt p.user c d
        → ctx.user.key ≡ p.user
        → ctx.user.is_signer ≡ true
        → ctx.user.is_writable ≡ true
        → ctx.sell_plan.key ≡ k
        → ctx.sell_plan.is_writable ≡ true
        → k ≢ p.user
        → process rt (Call.close_sell_plan ctx) clock d ≡ ok (remove k d, silent)
    owner_can_close {d} ctx clock run owner signed paid there writable apart =
        let (inv_d, now) = Unattended-OwnedPlan run in
        let (found, valid) = inv_d k (ProgramAccount.sell_plan now.plan) now.stored in
        (process_traces rt clock d (Call.close_sell_plan ctx) (remove k d) silent).1 (
          closes (record {
            plan = now.plan;
            plan_at = ap d.accounts there ∙ now.stored;
            signed = signed;
            paid = paid;
            writable = writable;
            plan_pda =
                subst₂
                  (λ u j.
                    rt.create_program_address (sell_plan_seeds u ++ bytes (now.plan.bump ∷ []) ∷ [])
                    ≡ some j)
                  (now.owner ∙ sym owner) (sym there)
                  (recreated rt laws (sell_plan_seeds now.plan.user) found);
            owner = now.owner ∙ sym owner;
            apart = λ e. apart (sym there ∙ e ∙ owner);
            written = ap (λ j. remove j d) (sym there);
          }))

  -- The admin keeps the switch. In a state where the accounts of the program are well formed and a
  -- configuration is stored, and after any calls that its admin did not sign, the admin's signed call
  -- of `set_pause` with a writable configuration succeeds at any time, and does nothing but set that
  -- flag. Derived addresses are assumed to be found with a bump that creates them.
  pub admin_can_pause :
      (k : Pubkey) (cfg : Config) {c d : Chain} (ctx : AdminOnly) (paused : Bool) (clock : Result ℤ)
      → Inv rt c
      → c.accounts k ≡ some (ProgramAccount.config cfg)
      → Calm rt cfg.admin c d
      → ctx.admin.key ≡ cfg.admin
      → ctx.admin.is_signer ≡ true
      → ctx.config.key ≡ k
      → ctx.config.is_writable ≡ true
      → process rt (Call.set_pause ctx paused) clock d
        ≡ ok (store k (ProgramAccount.config (record cfg { paused = paused })) d, silent)
  admin_can_pause k cfg {c} {d} ctx paused clock inv at calm admin signed there writable =
      let (found, valid) = inv k (ProgramAccount.config cfg) at in
      (process_traces rt clock d (Call.set_pause ctx paused) _ silent).1 (
        pauses (record {
          cfg = cfg;
          access = record {
            signed = signed;
            is_admin = sym admin;
            config_at = ap d.accounts there ∙ Calm-config rt k cfg at calm;
            config_pda = rw there (recreated rt laws config_seeds found);
          };
          writable = writable;
          written =
              ap (λ j. store j (ProgramAccount.config (record cfg { paused = paused })) d)
                (sym there);
        }))

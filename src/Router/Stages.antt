-- ===== src/Router/Stages.antt =====
-- programs/recurring-buy/src/lib.rs: the moves that each instruction makes between the stages of a sell
-- plan.
use solana_recurring_buy.Prelude.{
  ℕ, ◌≡◌, refl, sym, ◌∙◌, ap, subst, subst₂, some, inl, inr, ◌==◌, Bool-cases, ==→eq,
}
use solana_recurring_buy.Prelude.Int.{ℤ}
use solana_recurring_buy.Errors.{Result, ok}
use solana_recurring_buy.State.{Pubkey, Config}
use solana_recurring_buy.State.Valid.{IsTime}
use solana_recurring_buy.Chain.{ProgramAccount, Chain, Runtime, store}
use solana_recurring_buy.Chain.Account.{Inv}
use solana_recurring_buy.Chain.Clock.{IsClock}
use solana_recurring_buy.Chain.Constraints.{sell_plan_seeds}
use solana_recurring_buy.Plan.{OpenSellPlan, CloseSellPlan}
use solana_recurring_buy.Router.{Call, Event, process}
use solana_recurring_buy.Router.Spec.{
  Trace, creates_config, pauses, reprices, relists, creates_fee, changes_fee, opens, closes, buys,
  sells, PlanOpened, PlanClosed,
}
use solana_recurring_buy.Router.Spec.Refinement.{process_traces}
use solana_recurring_buy.Router.Moves.{
  absent, active, plan_stage, stage_of, IsPresent, Names, Move, start, end, written_elsewhere,
  rests, unfinished_active, opened_active, drawn_moves, plan_stage-IsPresent, another,
}

module _ (rt : Runtime) (k : Pubkey) (c c' : Chain) (clock : Result ℤ) where
  opens_moves :
      (ctx : OpenSellPlan) (end_ts period_secs : ℤ)
      → IsClock clock
      → PlanOpened rt ctx clock end_ts period_secs c c'
      → Move rt k
          (Call.open_sell_plan ctx end_ts period_secs)
          (stage_of (c.accounts k))
          (stage_of (c'.accounts k))
  opens_moves ctx end_ts period_secs timely s =
      let t : IsTime s.now = rw s.read at timely in
      elim (Bool-cases (ctx.sell_plan.key == k)) [
        | inl same ↦
            let e : ctx.sell_plan.key ≡ k = ==→eq _ _ same in
            let before : stage_of (c.accounts k) ≡ absent =
              ap stage_of (ap c.accounts (sym e) ∙ s.vacant) in
            let after : stage_of (c'.accounts k) ≡ active =
              ap (λ (d : Chain). stage_of (d.accounts k)) s.written
              ∙ rw same (
                  opened_active ctx.user.key s.now end_ts period_secs s.bump t s.period_min
                    s.horizon) in
            subst₂ (Move rt k (Call.open_sell_plan ctx end_ts period_secs)) (sym before) (sym after)
              (start e (s.signed, ap (λ (r : Pubkey × ℕ). r.0) s.address ∙ e))
        | inr other ↦
            rests rt k c _ c' (another _ k other)
              (ap (λ (d : Chain). stage_of (d.accounts k)) s.written ∙ rw other refl)
      ]

  closes_moves :
      (ctx : CloseSellPlan)
      → Inv rt c
      → PlanClosed rt ctx c c'
      → Move rt k (Call.close_sell_plan ctx) (stage_of (c.accounts k)) (stage_of (c'.accounts k))
  closes_moves ctx inv s = elim (Bool-cases (ctx.sell_plan.key == k)) [
    | inl same ↦
        let e : ctx.sell_plan.key ≡ k = ==→eq _ _ same in
        let after : stage_of (c'.accounts k) ≡ absent =
          ap (λ (d : Chain). stage_of (d.accounts k)) s.written ∙ rw same refl in
        let found = (inv ctx.sell_plan.key (ProgramAccount.sell_plan s.plan) s.plan_at).0 in
        let address : (rt.find_program_address (sell_plan_seeds ctx.user.key)).0 ≡ k =
          ap (λ u. (rt.find_program_address (sell_plan_seeds u)).0) (sym s.owner)
          ∙ ap (λ (r : Pubkey × ℕ). r.0) found
          ∙ e in
        subst (Move rt k (Call.close_sell_plan ctx) (stage_of (c.accounts k))) (sym after) (
          end e (s.signed, address)
            (subst IsPresent (sym (ap stage_of (ap c.accounts (sym e) ∙ s.plan_at)))
              (plan_stage-IsPresent s.plan)))
    | inr other ↦
        rests rt k c _ c' (another _ k other)
          (ap (λ (d : Chain). stage_of (d.accounts k)) s.written ∙ rw other refl)
  ]

  config_moves :
      (x : Call) (key : Pubkey) (cfg new : Config)
      → ¬ (Names k x)
      → c.accounts key ≡ some (ProgramAccount.config cfg)
      → c' ≡ store key (ProgramAccount.config new) c
      → Move rt k x (stage_of (c.accounts k)) (stage_of (c'.accounts k))
  config_moves x key cfg new away at written = rests rt k c x c' away (
      ap (λ (d : Chain). stage_of (d.accounts k)) written
      ∙ written_elsewhere k c key (ProgramAccount.config new) refl (ap stage_of at))

  moves :
      {x : Call} {e : Event}
      → Inv rt c
      → IsClock clock
      → Trace rt clock c c' x e
      → Move rt k x (stage_of (c.accounts k)) (stage_of (c'.accounts k))
  moves inv timely (creates_config {ctx} s) =
      rests rt k c _ c' (λ n. n)
        (ap (λ (d : Chain). stage_of (d.accounts k)) s.written
          ∙ written_elsewhere k c ctx.config.key _ refl (ap stage_of s.vacant))
  moves inv timely (pauses {ctx} s) =
      config_moves _ ctx.config.key s.cfg _ (λ n. n) s.access.config_at s.written
  moves inv timely (reprices {ctx} bound s) =
      config_moves _ ctx.config.key s.cfg _ (λ n. n) s.access.config_at s.written
  moves inv timely (relists {ctx} bound s) =
      config_moves _ ctx.config.key s.cfg _ (λ n. n) s.access.config_at s.written
  moves inv timely (creates_fee {ctx} s) =
      rests rt k c _ c' (λ n. n)
        (ap (λ (d : Chain). stage_of (d.accounts k)) s.written
          ∙ written_elsewhere k c ctx.fee_config.key _ refl (ap stage_of s.vacant))
  moves inv timely (changes_fee {ctx} s) =
      rests rt k c _ c' (λ n. n)
        (ap (λ (d : Chain). stage_of (d.accounts k)) s.written
          ∙ written_elsewhere k c ctx.fee_config.key _ refl (ap stage_of s.fee_at))
  moves inv timely (opens {ctx} {end_ts} {period_secs} s) =
      opens_moves ctx end_ts period_secs timely s
  moves inv timely (closes {ctx} s) = closes_moves ctx inv s
  moves inv timely (buys b) = rests rt k c _ c' (λ n. n) (ap (λ f. stage_of (f k)) b.accounts_kept)
  moves inv timely (sells {ctx} s) = elim (Bool-cases (ctx.sell_plan.key == k)) [
    | inl same ↦
        let e : ctx.sell_plan.key ≡ k = ==→eq _ _ same in
        let before : stage_of (c.accounts k) ≡ active =
          ap (λ i. stage_of (c.accounts i)) (sym e)
          ∙ ap stage_of s.validated.sell_plan_at
          ∙ unfinished_active s.acc.sell_plan s.guards.unfinished in
        let after : stage_of (c'.accounts k) ≡ plan_stage s.plan =
          ap (λ f. stage_of (f k)) s.accounts_set ∙ rw same refl in
        subst₂ (Move rt k _) (sym before) (sym after) (drawn_moves rt k s.plan e)
    | inr other ↦
        rests rt k c _ c' (another _ k other)
          (ap (λ f. stage_of (f k)) s.accounts_set ∙ rw other refl)
  ]

  -- The account at an address, seen as a sell plan that is absent, active or complete, moves with each
  -- successful call only so: a call that does not name the address as its sell plan leaves the stage
  -- as it is; opening, for which the user whose plan has that address signs, takes it from absent to
  -- active; a draw finds it active and leaves it active or completes it; closing, for which that user
  -- signs, takes it from active or complete to absent. So a complete plan can only be closed. The
  -- accounts of the program are well formed and the clock is in range.
  pub process-Move :
      (x : Call) (e : Event)
      → Inv rt c
      → IsClock clock
      → process rt x clock c ≡ ok (c', e)
      → Move rt k x (stage_of (c.accounts k)) (stage_of (c'.accounts k))
  process-Move x e inv timely h = moves inv timely ((process_traces rt clock c x c' e).0 h)

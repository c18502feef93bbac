-- ===== src/Router/Completed.antt =====
-- programs/recurring-buy/src/lib.rs, the terminal state of a sell plan in `execute_sell`, over
-- sequences of calls.
use solana_recurring_buy.Prelude.{ℕ, ◌≡◌, ◌∙◌, ap, subst, arith, inl, inr, some, List}
use solana_recurring_buy.Prelude.Int.{ℤ, ◌≤ℤ◌, ◌<ℤ◌}
use solana_recurring_buy.Errors.{Result, ok}
use solana_recurring_buy.State.{Pubkey, SellPlan}
use solana_recurring_buy.Chain.{AccountInfo, ProgramAccount, Chain, Runtime}
use solana_recurring_buy.Chain.Account.{Inv}
use solana_recurring_buy.Chain.Clock.{IsClock}
use solana_recurring_buy.Sell.{ExecuteSell, SellExecuted, execute_sell}
use solana_recurring_buy.Sell.Refinement.{execute_sell-Sold}
use solana_recurring_buy.Router.{Call, Event, process}
use solana_recurring_buy.Router.Invariant.{IsTyped}
use solana_recurring_buy.Router.Reach.{process-Inv}
use solana_recurring_buy.Router.Authority.{SignedAs}
use solana_recurring_buy.Router.Plans.{process-PlanFate}

module _ (rt : Runtime) where
  -- Any calls, none of them signed by `owner`, and anything that other programs do in between.
  pub data Unattended (owner : Pubkey) (c : Chain) : Chain → Type 0 where
    alone : Unattended owner c c
    call :
        {d d' : Chain} (x : Call) (clock : Result ℤ) (e : Event)
        → Unattended owner c d
        → IsTyped x
        → IsClock clock
        → process rt x clock d ≡ ok (d', e)
        → ¬ (SignedAs x owner)
        → Unattended owner c d'
    outside :
        {d d' : Chain} → Unattended owner c d → d'.accounts ≡ d.accounts → Unattended owner c d'

  module _ (k : Pubkey) (p : SellPlan) {c : Chain} (inv : Inv rt c)
      (at : c.accounts k ≡ some (ProgramAccount.sell_plan p))
      (done : p.end_ts <ℤ p.next_due_ts) where
    Unattended-plan :
        {d : Chain}
        → Unattended p.user c d
        → Inv rt d × (d.accounts k ≡ some (ProgramAccount.sell_plan p))
    Unattended-plan alone = (inv, at)
    Unattended-plan (call {d} {d'} x clock e before typed timely h unsigned) =
        let (inv_d, at_d) = Unattended-plan before in
        (
          process-Inv rt x clock d d' e typed timely inv_d h,
          elim (process-PlanFate rt d d' e clock inv_d timely k p at_d x h) [
            | inl kept ↦ kept
            | inr (inl (signed, gone)) ↦ absurd (unsigned signed)
            | inr (inr crank) ↦ absurd (omega (arith, done, crank.unfinished))
          ],
        )
    Unattended-plan (outside before kept) =
        let (inv_d, at_d) = Unattended-plan before in
        (λ j a h. inv_d j a (rw kept at h), ap (λ f. f k) kept ∙ at_d)

    -- Once the gate of a plan has passed its end, in a state where the accounts of the program are
    -- well formed, no sell on that plan succeeds, whatever its time, amounts and route, after any
    -- calls with arguments and clocks in range that the plan's owner did not sign.
    pub plan_completed_lasts :
        {d : Chain}
        → Unattended p.user c d
        → (ctx : ExecuteSell) (remaining : List AccountInfo) (clock : Result ℤ) (min_out : ℕ)
          (swap_data : List ℕ) (d' : Chain) (event : SellExecuted)
        → ctx.sell_plan.key ≡ k
        → ¬ (execute_sell rt ctx remaining clock min_out swap_data d ≡ ok (d', event))
    plan_completed_lasts {d} run ctx remaining clock min_out swap_data d' event same h =
        let s = execute_sell-Sold rt ctx remaining clock min_out swap_data d d' event h in
        let there = (Unattended-plan run).1 in
        let plan : s.acc.sell_plan ≡ p = ground (arith, s.validated.sell_plan_at, there) in
        let unfinished : p.next_due_ts ≤ℤ p.end_ts =
          subst (λ (q : SellPlan). q.next_due_ts ≤ℤ q.end_ts) plan s.guards.unfinished in
        omega (arith, done, unfinished)

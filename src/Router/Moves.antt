-- ===== src/Router/Moves.antt =====
-- programs/recurring-buy/src/lib.rs: the stages of the sell plan at an address, and the moves between
-- them.
use solana_recurring_buy.Prelude.{
  ℕ, ◌≡◌, ◌≢◌, refl, true, false, List, sym, ◌∙◌, ap, subst, arith, Option, some, inl, inr, ◌==◌,
  Bool-cases, ==→eq, if◌then◌else◌,
}
use solana_recurring_buy.Prelude.Int.{ℤ, ◌+ℤ◌, ◌≤ℤ◌, ◌<ℤ◌, ltb_ℤ}
use solana_recurring_buy.State.{Pubkey, SellPlan, min_period_secs}
use solana_recurring_buy.State.Valid.{IsTime}
use solana_recurring_buy.Chain.{AccountInfo, ProgramAccount, Chain, Runtime, store}
use solana_recurring_buy.Chain.Constraints.{sell_plan_seeds}
use solana_recurring_buy.Word.{saturating_add_i64}
use solana_recurring_buy.Plan.{OpenSellPlan, CloseSellPlan}
use solana_recurring_buy.Sell.{ExecuteSell}
use solana_recurring_buy.Router.{Call}

pub data Stage : Type 0 where
  absent active complete : Stage

abbrev pub plan_stage : SellPlan → Stage
plan_stage p = if ltb_ℤ p.end_ts p.next_due_ts then complete else active

abbrev pub stage_of : Option ProgramAccount → Stage
stage_of (some (ProgramAccount.sell_plan p)) = plan_stage p
stage_of _ = absent

abbrev pub IsPresent : Stage → Type 0
IsPresent absent = ⊥
IsPresent _ = Unit

-- The address is that of the user's plan, and the user signs.
abbrev pub OwnedBy : Runtime → Pubkey → AccountInfo → Type 0
OwnedBy rt k user =
    (user.is_signer ≡ true) × ((rt.find_program_address (sell_plan_seeds user.key)).0 ≡ k)

-- The call names the address as its sell plan.
abbrev pub Names : Pubkey → Call → Type 0
Names k (Call.open_sell_plan ctx end_ts period_secs) = ctx.sell_plan.key ≡ k
Names k (Call.close_sell_plan ctx) = ctx.sell_plan.key ≡ k
Names k (Call.execute_sell ctx remaining min_out swap_data) = ctx.sell_plan.key ≡ k
Names k _ = ⊥

-- The stages before and after a call, by the call.
pub data Move (rt : Runtime) (k : Pubkey) : Call → Stage → Stage → Type 0 where
  rest : {x : Call} {s : Stage} → ¬ (Names k x) → Move rt k x s s
  start :
      {ctx : OpenSellPlan} {end_ts period_secs : ℤ}
      → ctx.sell_plan.key ≡ k
      → OwnedBy rt k ctx.user
      → Move rt k (Call.open_sell_plan ctx end_ts period_secs) absent active
  draw :
      {ctx : ExecuteSell} {remaining : List AccountInfo} {min_out : ℕ} {swap_data : List ℕ}
      → ctx.sell_plan.key ≡ k
      → Move rt k (Call.execute_sell ctx remaining min_out swap_data) active active
  finish :
      {ctx : ExecuteSell} {remaining : List AccountInfo} {min_out : ℕ} {swap_data : List ℕ}
      → ctx.sell_plan.key ≡ k
      → Move rt k (Call.execute_sell ctx remaining min_out swap_data) active complete
  end :
      {ctx : CloseSellPlan} {s : Stage}
      → ctx.sell_plan.key ≡ k
      → OwnedBy rt k ctx.user
      → IsPresent s
      → Move rt k (Call.close_sell_plan ctx) s absent

-- A write of another address, or of an account that is no plan over one that is none.
pub written_elsewhere :
    (k : Pubkey) (c : Chain) (j : Pubkey) (a : ProgramAccount)
    → stage_of (some a) ≡ absent
    → stage_of (c.accounts j) ≡ absent
    → stage_of ((store j a c).accounts k) ≡ stage_of (c.accounts k)
written_elsewhere k c j a new old = elim (Bool-cases (j == k)) [
  | inl same ↦
      let e : j ≡ k = ==→eq j k same in
      rw same (new ∙ sym old ∙ ap (λ i. stage_of (c.accounts i)) e)
  | inr other ↦ rw other refl
]

module _ (rt : Runtime) (k : Pubkey) (c : Chain) (x : Call) where
  pub rests :
      (c' : Chain)
      → ¬ (Names k x)
      → stage_of (c'.accounts k) ≡ stage_of (c.accounts k)
      → Move rt k x (stage_of (c.accounts k)) (stage_of (c'.accounts k))
  rests c' away same = subst (Move rt k x (stage_of (c.accounts k))) (sym same) (rest away)

pub unfinished_active : (p : SellPlan) → p.next_due_ts ≤ℤ p.end_ts → plan_stage p ≡ active
unfinished_active p h = ground arith

pub opened_active :
    (user : Pubkey) (now end_ts period_secs : ℤ) (bump : ℕ)
    → IsTime now
    → min_period_secs ≤ℤ period_secs
    → saturating_add_i64 now period_secs <ℤ end_ts
    → plan_stage (record {
      user = user;
      end_ts = end_ts;
      period_secs = period_secs;
      next_due_ts = now;
      bump = bump;
    })
      ≡ active
unfolding ◌+ℤ◌
opened_active user now end_ts period_secs bump t low later = ground arith

pub drawn_moves :
    (rt : Runtime) (k : Pubkey) {ctx : ExecuteSell} {remaining : List AccountInfo} {min_out : ℕ}
    {swap_data : List ℕ} (q : SellPlan)
    → ctx.sell_plan.key ≡ k
    → Move rt k (Call.execute_sell ctx remaining min_out swap_data) active (plan_stage q)
drawn_moves rt k q e = elim (Bool-cases (ltb_ℤ q.end_ts q.next_due_ts)) [
  | inl over ↦ rw over (finish e)
  | inr open_still ↦ rw open_still (draw e)
]

pub plan_stage-IsPresent : (p : SellPlan) → IsPresent (plan_stage p)
plan_stage-IsPresent p = elim (Bool-cases (ltb_ℤ p.end_ts p.next_due_ts)) [
  | inl over ↦ rw over tt
  | inr open_still ↦ rw open_still tt
]

pub another : (j k : Pubkey) → (j == k) ≡ false → j ≢ k
another j k h = ground arith

-- ===== src/Sell/Run.antt =====
-- programs/recurring-buy/src/lib.rs: runs of `execute_sell` on one plan, by any keepers, at any
-- times and by any routes.
use native.Mathlib.Nat.{le-div_iff_mul-le, mul-le-mul_left, mul-le-mul_right}
use solana_recurring_buy.Prelude.{
  ◌⊎◌, inl, inr, leb, leb→le, Bool-cases, ℕ, zero, suc, ◌+◌, ◌-◌, ◌*◌, ◌/◌, ◌≤◌, ◌<◌, ◌≡◌, ◌↔◌, sym,
  ◌∙◌, ap, subst, subst₂, arith, some, List,
}
use solana_recurring_buy.Prelude.Int.{ℤ, pos, pos_part, neg_part, ◌≤ℤ◌, ◌<ℤ◌}
use solana_recurring_buy.Errors.{Result, ok}
use solana_recurring_buy.State.{Pubkey, SellPlan}
use solana_recurring_buy.State.Valid.{IsValidSellPlan, eq-pos}
use solana_recurring_buy.State.Periods.{periods_left}
use solana_recurring_buy.Schedule.Gate.{Jumped}
use solana_recurring_buy.Chain.{AccountInfo, ProgramAccount, Chain, Runtime}
use solana_recurring_buy.Chain.Laws.{balance, IsWide}
use solana_recurring_buy.Chain.Account.{Inv}
use solana_recurring_buy.Chain.Clock.{IsClock}
use solana_recurring_buy.Sell.{ExecuteSell, SellExecuted, execute_sell}
use solana_recurring_buy.Sell.Progress.{Drawn, execute_sell_draws, periods_at}
use solana_recurring_buy.Sell.Runway.{draw_step, periods_step}

-- `Run rt key start pot0 p pot n`: from the plan `start` and a pot of `pot0`, `n` successful calls
-- of `execute_sell` on the plan at `key` lead to the plan `p` and a wallet of `pot`. Between two
-- draws the wallet may grow, and what it loses is pulled by the next draw.
pub data Run (rt : Runtime) (key : Pubkey) (start : SellPlan) (pot0 : ℕ)
    : SellPlan → ℕ → ℕ → Type 0 where
  begin : Run rt key start pot0 start pot0 zero
  draw :
      {p q : SellPlan} {pot rest n : ℕ} (ctx : ExecuteSell) (remaining : List AccountInfo)
      (clock : Result ℤ) (min_out : ℕ) (swap_data : List ℕ) (chain chain' : Chain)
      (event : SellExecuted)
      → Run rt key start pot0 p pot n
      → execute_sell rt ctx remaining clock min_out swap_data chain ≡ ok (chain', event)
      → Inv rt chain
      → IsWide chain.tokens
      → IsClock clock
      → ctx.sell_plan.key ≡ key
      → chain.accounts key ≡ some (ProgramAccount.sell_plan p)
      → chain'.accounts key ≡ some (ProgramAccount.sell_plan q)
      → rest ≡ balance chain.tokens ctx.user_target_ata.key
      → pot ≤ rest + event.amount_in
      → Run rt key start pot0 q rest (suc n)

-- The whole periods of a plan from its gate to its end.
abbrev pub whole_periods : SellPlan → ℕ
whole_periods p = (pos_part p.end_ts - pos_part p.next_due_ts) / pos_part p.period_secs

pub record Held (start : SellPlan) (pot0 : ℕ) (p : SellPlan) (pot n : ℕ) : Type 0 where
  pub slots : ℕ
  pub one_each : n ≤ slots
  pub counted : n ≤ whole_periods start + 1
  pub on_grid : p ≡ record start {
    next_due_ts = pos (pos_part start.next_due_ts + slots * pos_part start.period_secs);
  }
  pub left : pot0 * (whole_periods start - 1 - slots) ≤ pot * (whole_periods start - 1)

module _ (start : SellPlan) (pot0 : ℕ) (v : IsValidSellPlan start) where
  begin-Held : Held start pot0 start pot0 zero
  begin-Held = record {
    slots = 0;
    one_each = omega arith;
    counted = omega arith;
    on_grid = ground (arith, eq-pos start.next_due_ts v.due_nonneg);
    left = mul-le-mul_left pot0 (omega arith);
  }

  -- The gate of a held plan in numbers.
  grid_due :
      (p : SellPlan) (pot n : ℕ) (held : Held start pot0 p pot n)
      → (p.next_due_ts ≡ pos (pos_part start.next_due_ts + held.slots * pos_part start.period_secs))
        × (p.end_ts ≡ start.end_ts)
        × (p.period_secs ≡ start.period_secs)
  grid_due p pot n held = (
    ap (λ (x : SellPlan). x.next_due_ts) held.on_grid,
    ap (λ (x : SellPlan). x.end_ts) held.on_grid,
    ap (λ (x : SellPlan). x.period_secs) held.on_grid,
  )

  -- A plan that is not complete has used at most its whole periods.
  slots_le :
      (p : SellPlan) (pot n : ℕ) (held : Held start pot0 p pot n)
      → p.next_due_ts ≤ℤ p.end_ts
      → held.slots ≤ whole_periods start
  slots_le p pot n held unfinished =
      let (due, end, period) = grid_due p pot n held in
      let within : pos (pos_part start.next_due_ts + held.slots * pos_part start.period_secs)
          ≤ℤ start.end_ts =
        subst₂ (λ a b. a ≤ℤ b) due end unfinished in
      (le-div_iff_mul-le {x = held.slots} (ground (arith, v.period_min))).1
        (omega (arith, within, v.end_nonneg))

  draw-Held :
      (p q : SellPlan) (pot rest n amount : ℕ) (now : ℤ)
      → Held start pot0 p pot n
      → p.next_due_ts ≤ℤ p.end_ts
      → Jumped p now q
      → amount * periods_at p now ≤ rest + amount
      → pot ≤ rest + amount
      → Held start pot0 q rest (suc n)
  draw-Held p q pot rest n amount now held unfinished j capped kept =
      let (due, end, period) = grid_due p pot n held in
      let few = slots_le p pot n held unfinished in
      let l = held.slots + j.periods in
      let next : pos_part now < pos_part start.next_due_ts + l * pos_part start.period_secs =
        omega (
          arith,
          subst₂ (λ (d m : ℤ). pos_part now < pos_part d + j.periods * pos_part m) due period
              j.after_now,
        ) in
      let moved : q.next_due_ts
          ≡ pos (pos_part start.next_due_ts + l * pos_part start.period_secs) =
        j.moved
        ∙ (λ i. pos (pos_part (due i) + j.periods * pos_part (period i)))
        ∙ ap pos (omega arith) in
      record {
        slots = l;
        one_each = omega (arith, held.one_each, j.some_period);
        counted = omega (arith, few, held.one_each);
        on_grid = j.rest ∙ (λ i. record (held.on_grid i) { next_due_ts = moved i });
        left =
            draw_step (whole_periods start - 1) held.slots l pot0 rest amount (periods_at p now)
              (omega (arith, held.left, mul-le-mul_right (whole_periods start - 1) kept))
              (omega (arith, j.some_period))
              (subst₂
                (λ (e m : ℤ).
                  whole_periods start - 1 - l
                  < periods_left (pos_part e) (pos_part now) (pos_part m))
                (sym end) (sym period)
                (periods_step (pos_part start.end_ts) (pos_part start.next_due_ts) (pos_part now)
                  (pos_part start.period_secs) l (ground (arith, v.period_min)) next))
              capped;
      }

plan-injective :
    {p q : SellPlan} → some (ProgramAccount.sell_plan p) ≡ some (ProgramAccount.sell_plan q) → p ≡ q
plan-injective h = ground arith

module _ (rt : Runtime) (key : Pubkey) (start : SellPlan) (pot0 : ℕ)
    (v : IsValidSellPlan start) where
  draw_numbers :
      (p q : SellPlan) (rest amount : ℕ) (ctx : ExecuteSell) (clock : Result ℤ)
      (chain chain' : Chain)
      → Drawn ctx clock chain chain' amount
      → ctx.sell_plan.key ≡ key
      → chain.accounts key ≡ some (ProgramAccount.sell_plan p)
      → chain'.accounts key ≡ some (ProgramAccount.sell_plan q)
      → rest ≡ balance chain.tokens ctx.user_target_ata.key
      → (now : ℤ) × (p.next_due_ts ≤ℤ p.end_ts)
        × Jumped p now q
        × (amount * periods_at p now ≤ rest + amount)
  draw_numbers p q rest amount ctx clock chain chain' d k at at' r =
      let before : d.before ≡ p = plan-injective (sym d.before_at ∙ ap chain.accounts k ∙ at) in
      let after : d.after ≡ q = plan-injective (sym d.after_at ∙ ap chain'.accounts k ∙ at') in
      (
        d.now,
        subst (λ x. x.next_due_ts ≤ℤ x.end_ts) before d.unfinished,
        subst₂ (λ x y. Jumped x d.now y) before after d.jumped,
        subst₂ (λ (x : SellPlan) (w : ℕ). amount * periods_at x d.now ≤ w + amount) before (sym r)
            d.amortized,
      )

  Run-Held : {p : SellPlan} {pot n : ℕ} → Run rt key start pot0 p pot n → Held start pot0 p pot n
  Run-Held begin = begin-Held start pot0 v
  Run-Held
        (draw {p} {q} {pot} {rest} {n} ctx remaining clock min_out swap_data chain chain' event run
          h inv wide timely k at at' r kept) =
      let d =
        execute_sell_draws rt ctx remaining clock min_out swap_data chain chain' event h inv wide
          timely in
      let (now, unfinished, j, capped) =
        draw_numbers p q rest event.amount_in ctx clock chain chain' d k at at' r in
      draw-Held start pot0 v p q pot rest n event.amount_in now (Run-Held run) unfinished j capped
        kept

  -- More slots than whole periods lie past the end.
  past_end :
      (slots : ℕ) (end due : ℤ)
      → end ≡ start.end_ts
      → due ≡ pos (pos_part start.next_due_ts + slots * pos_part start.period_secs)
      → whole_periods start < slots
      → end <ℤ due
  past_end slots end due e d more =
      let fits : (slots ≤ whole_periods start) ↔ (
          slots * pos_part start.period_secs ≤ pos_part start.end_ts - pos_part start.next_due_ts) =
        le-div_iff_mul-le (ground (arith, v.period_min)) in
      let over : ¬ (
          slots * pos_part start.period_secs ≤ pos_part start.end_ts - pos_part start.next_due_ts) =
        λ h. omega (arith, more, fits.1 h) in
      omega (arith, v.end_nonneg, over, ap pos_part d, ap neg_part d, ap pos_part e, ap neg_part e)

  -- A keeper cannot outrun the schedule. After any draws on a valid plan, between which the wallet
  -- loses only what the next draw pulls, the plan has used up `slots` grid points, at least one for
  -- each draw, its gate stands that many periods after its start, and of the pot at least the share
  -- (w - 1 - slots) / (w - 1) is left in the wallet, where w is the number of whole periods from the
  -- first gate to the end.
  pub sell_runway :
      {p : SellPlan} {pot n : ℕ}
      → Run rt key start pot0 p pot n
      → (slots : ℕ) × (n ≤ slots)
        × (p.next_due_ts ≡ pos (pos_part start.next_due_ts + slots * pos_part start.period_secs))
        × (pot0 * (whole_periods start - 1 - slots) ≤ pot * (whole_periods start - 1))
  sell_runway run =
      let held = Run-Held run in
      (held.slots, held.one_each, ap (λ (x : SellPlan). x.next_due_ts) held.on_grid, held.left)

  -- Selling terminates. However the draws are timed, on a valid plan there are at most as many as
  -- whole periods from its gate to its end, or there is one more and the gate has passed the end.
  pub sell_terminates :
      {p : SellPlan} {pot n : ℕ}
      → Run rt key start pot0 p pot n
      → (n ≤ whole_periods start) ⊎ ((n ≡ whole_periods start + 1) × (p.end_ts <ℤ p.next_due_ts))
  sell_terminates {p} {pot} {n} run =
      let held = Run-Held run in
      let (due, end, period) = grid_due start pot0 v p pot n held in
      elim (Bool-cases (leb n (whole_periods start))) [
        | inl few ↦ inl (leb→le _ _ few)
        | inr many ↦
            let last : n ≡ whole_periods start + 1 = ground (arith, held.counted) in
            inr (
              last,
              past_end held.slots p.end_ts p.next_due_ts end due
                  (omega (arith, last, held.one_each)),
            )
      ]

-- ===== src/Schedule/Gate.antt =====
-- programs/recurring-buy/src/lib.rs, the clock gate of `execute_sell` on a well-formed plan.
use native.Mathlib.Nat.{mul-le-mul_right}
use solana_recurring_buy.Prelude.{ℕ, ◌+◌, ◌*◌, ◌≤◌, ◌<◌, ◌≡◌, refl, sym, ◌∙◌, subst, ap, arith}
use solana_recurring_buy.Prelude.Int.{ℤ, pos, pos_part, ◌≤ℤ◌}
use solana_recurring_buy.Errors.{ok, ok-injective}
use solana_recurring_buy.State.{SellPlan}
use solana_recurring_buy.State.Valid.{IsValidSellPlan, IsTime, eq-pos}
use solana_recurring_buy.Schedule.{advance}
use solana_recurring_buy.Schedule.Advance.{advance_jumps}

-- The plan `q` is `p` with its gate moved by `k` periods, one or more, to the first point of the
-- grid that lies after `now`.
pub record Jumped (p : SellPlan) (now : ℤ) (q : SellPlan) : Type 0 where
  pub periods : ℕ
  pub some_period : 1 ≤ periods
  pub rest : q ≡ record p { next_due_ts = q.next_due_ts }
  pub moved : q.next_due_ts ≡ pos (pos_part p.next_due_ts + periods * pos_part p.period_secs)
  pub after_now : pos_part now < pos_part p.next_due_ts + periods * pos_part p.period_secs
  pub first :
      pos_part p.next_due_ts + periods * pos_part p.period_secs
      ≤ pos_part now + pos_part p.period_secs

module _ (p : SellPlan) (now : ℤ) (v : IsValidSellPlan p) (t : IsTime now)
    (due : p.next_due_ts ≤ℤ now) where
  -- The gate of a valid plan that is due, at a time in range, advances without an overflow, by one
  -- period or more, to the first point of its grid after the time, and nothing else of the plan
  -- changes.
  pub advance_gate : (q : SellPlan) × (advance p now ≡ ok q) × Jumped p now q
  advance_gate =
      let (k, e, some_period, after_now, first) =
        advance_jumps p (pos_part p.next_due_ts) (pos_part now) (pos_part p.period_secs)
          (eq-pos p.next_due_ts v.due_nonneg) (eq-pos p.period_secs (omega arith)) (ground arith)
          (ground arith) (ground arith) in
      (
        _,
        ap (advance p) (eq-pos now t.nonneg) ∙ e,
        record {
          periods = k;
          some_period = some_period;
          rest = refl;
          moved = refl;
          after_now = after_now;
          first = first;
        },
      )

  pub advance-Jumped : (q : SellPlan) → advance p now ≡ ok q → Jumped p now q
  advance-Jumped q h =
      let (made, e, j) = advance_gate in subst (Jumped p now) (ok-injective (sym e ∙ h)) j

-- There is one such point of the grid.
one_point :
    (due now period a b : ℕ)
    → now < due + a * period
    → due + a * period ≤ now + period
    → now < due + b * period
    → due + b * period ≤ now + period
    → a ≡ b
one_point due now period a b a_after a_first b_after b_first =
    let low : ¬ (a + 1 ≤ b) = λ h. omega (arith, mul-le-mul_right {m = a + 1} {n = b} period h) in
    let high : ¬ (b + 1 ≤ a) = λ h. omega (arith, mul-le-mul_right {m = b + 1} {n = a} period h) in
    omega (arith, low, high)

-- The gate of a valid plan that is due moves there.
pub Jumped-advance :
    (p : SellPlan) (now : ℤ) (q : SellPlan)
    → IsValidSellPlan p
    → IsTime now
    → p.next_due_ts ≤ℤ now
    → Jumped p now q
    → advance p now ≡ ok q
Jumped-advance p now q v t due j =
    let (made, e, i) = advance_gate p now v t due in
    let same : i.periods ≡ j.periods =
      one_point (pos_part p.next_due_ts) (pos_part now) (pos_part p.period_secs) i.periods j.periods
        i.after_now i.first j.after_now j.first in
    let ts : made.next_due_ts ≡ q.next_due_ts =
      i.moved
      ∙ ap (λ k. pos (pos_part p.next_due_ts + k * pos_part p.period_secs)) same
      ∙ sym j.moved in
    e ∙ ap ok (i.rest ∙ ap (λ z. record p { next_due_ts = z }) ts ∙ sym j.rest)

-- A plan stays well formed when its gate moves.
pub Jumped-IsValidSellPlan :
    (p q : SellPlan) (now : ℤ) → Jumped p now q → IsValidSellPlan p → IsValidSellPlan q
Jumped-IsValidSellPlan p q now j v = ground arith

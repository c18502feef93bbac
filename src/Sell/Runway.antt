-- ===== src/Sell/Runway.antt =====
-- programs/recurring-buy/src/lib.rs, the amortization over several draws, in numbers.
use native.Mathlib.Nat.{
  mul-le-mul_left, mul-le-mul_right, le_of_mul-le-mul_left, div-mul-le_self, le-div_iff_mul-le,
}
use solana_recurring_buy.Prelude.{
  ℕ, zero, suc, ◌+◌, ◌-◌, ◌*◌, ◌/◌, ◌≤◌, ◌<◌, ◌≡◌, refl, ◌∙◌, ap, arith,
}
use solana_recurring_buy.State.Periods.{periods_left}

draw_core :
    (n h j pot0 rest draw : ℕ)
    → draw * (j + 1) ≤ rest + draw
    → pot0 * h ≤ (rest + draw) * n
    → j + 1 ≤ h
    → pot0 * j ≤ rest * n
draw_core n h j pot0 rest draw capped held room =
    let covered : draw * j ≤ rest = omega arith in
    le_of_mul-le-mul_left {k = j + 1}
      (omega (
        arith,
        mul-le-mul_right n covered,
        mul-le-mul_right j held,
        mul-le-mul_left (pot0 * j) room,
      ))
      (omega arith)

-- One draw, in numbers: `k` grid slots are used before it and `l` after it, of `n` and one more;
-- `rest` is what the draw leaves.
pub draw_step :
    (n k l pot0 rest draw periods : ℕ)
    → pot0 * (n - k) ≤ (rest + draw) * n
    → k < l
    → n - l < periods
    → draw * periods ≤ rest + draw
    → pot0 * (n - l) ≤ rest * n
draw_step n k zero pot0 rest draw periods held next enough capped = absurd (omega arith)
draw_step n k (suc l) pot0 rest draw periods held next enough capped = draw_or_done (n - suc l) refl
  where
    draw_or_done : (j : ℕ) → n - suc l ≡ j → pot0 * (n - suc l) ≤ rest * n
    draw_or_done zero e = rw e (omega arith)
    draw_or_done (suc j) e =
        let left : suc j + 1 ≤ periods = omega arith in
        rw e (
          draw_core n (n - k) (suc j) pot0 rest draw (omega (arith, mul-le-mul_left draw left)) held
            (omega arith))

periods_core :
    (end due now period c l i : ℕ)
    → 0 < period
    → c * period ≤ end - due
    → now < due + l * period
    → c ≡ i + 1 + l
    → i + 1 ≤ (end - now) / period
periods_core end due now period c l i hq whole next e =
    let spread : c * period ≡ (i + 1) * period + l * period =
      ap (λ (t : ℕ). t * period) e ∙ omega arith in
    (le-div_iff_mul-le {x = i + 1} {y = end - now} hq).1 (omega (arith, spread))

-- The periods left at a time before the gate that a draw sets are no fewer than the slots left.
pub periods_step :
    (end due now period l : ℕ)
    → 0 < period
    → now < due + l * period
    → (end - due) / period - 1 - l < periods_left end now period
periods_step end due now period l hq next = go ((end - due) / period - 1 - l) refl
  where
    go :
        (i : ℕ)
        → (end - due) / period - 1 - l ≡ i
        → (end - due) / period - 1 - l < periods_left end now period
    go zero e = ground arith
    go (suc i) e =
        let more =
          periods_core end due now period ((end - due) / period) l (suc i) hq
            (div-mul-le_self (end - due) period) next (omega arith) in
        ground arith

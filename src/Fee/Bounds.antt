-- ===== src/Fee/Bounds.antt =====
-- The execution fee against the cap, and the split of an input into fee and net amount.
use solana_recurring_buy.Prelude.{ℕ, ◌+◌, ◌-◌, ◌*◌, ◌/◌, ◌≤◌, ◌<◌, ◌≡◌, sym, ◌∙◌, arith}
use solana_recurring_buy.Errors.{ok, ok-injective}
use solana_recurring_buy.Word.{u64_mod}
use solana_recurring_buy.State.{max_fee_bps}
use solana_recurring_buy.Fee.{execution_fee, net_input}
use native.Mathlib.Nat.{mul-le-mul_left}

pub execution_fee_exact :
    (a b : ℕ) → a < u64_mod → b ≤ max_fee_bps → execution_fee a b ≡ ok (a * b / 10_000)
unfolding execution_fee
execution_fee_exact a b ha hb =
    let product : a * b ≤ u64_mod * 100 = omega (arith, mul-le-mul_left a hb) in ground arith

-- At a fee rate within the compiled-in cap, fee and net input are computed, with no error, for every
-- positive 64-bit amount; the fee is rounded down from the exact rate by less than one unit, is at
-- most a hundredth of the input, and fee and net input add up to the input.
pub execution_fee_split :
    (a b : ℕ)
    → 0 < a
    → a < u64_mod
    → b ≤ max_fee_bps
    → (fee : ℕ) × (net : ℕ) × (execution_fee a b ≡ ok fee)
      × (net_input a fee ≡ ok net)
      × (10_000 * fee ≤ a * b)
      × (a * b < 10_000 * (fee + 1))
      × (100 * fee ≤ a)
      × (net + fee ≡ a)
unfolding net_input
execution_fee_split a b pos ha hb =
    let fee = a * b / 10_000 in
    let most : a * b ≤ a * 100 = mul-le-mul_left a hb in
    let net : ℕ = a - fee in
    (
      fee,
      net,
      execution_fee_exact a b ha hb,
      ground arith,
      omega arith,
      omega arith,
      omega arith,
      omega arith,
    )

-- The same of any fee and net amount that were computed.
pub execution_fee_results :
    (a b : ℕ) {fee net : ℕ}
    → a < u64_mod
    → b ≤ max_fee_bps
    → execution_fee a b ≡ ok fee
    → net_input a fee ≡ ok net
    → (fee ≡ a * b / 10_000) × (100 * fee ≤ a) × (net + fee ≡ a) × (0 < net)
unfolding net_input
execution_fee_results a b {fee} ha hb e1 e2 =
    let exact : a * b / 10_000 ≡ fee = ok-injective (sym (execution_fee_exact a b ha hb) ∙ e1) in
    let most : a * b ≤ a * 100 = mul-le-mul_left a hb in ground arith

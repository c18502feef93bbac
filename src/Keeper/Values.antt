-- ===== src/Keeper/Values.antt =====
-- The keepers' arithmetic in closed form, on amounts and times that are natural numbers.
use native.Mathlib.Nat.{div-le_self}
use solana_recurring_buy.Prelude.{
  ℕ, zero, suc, ◌+◌, ◌-◌, ◌*◌, ◌/◌, ◌^◌, ◌≤◌, ◌<◌, ◌≡◌, arith, some, inl, inr, ltb, leb, Bool-cases,
  leb→le, if◌then◌else◌,
}
use solana_recurring_buy.Prelude.Int.{ℤ, pos, negsuc, ◌+ℤ◌, ◌-ℤ◌, ◌*ℤ◌, ◌/ℤ◌, ◌≤ℤ◌, ◌<ℤ◌}
use solana_recurring_buy.State.Periods.{periods_left}
use solana_recurring_buy.State.{Pubkey}
use solana_recurring_buy.Keeper.{Delegation, Client}
use solana_recurring_buy.Keeper.Daemon.{bal}
use solana_recurring_buy.Keeper.Numbers.{low_bytes, le_value, max_number, floor_div, at_least_one}
use solana_recurring_buy.Keeper.Amounts.{available, floor_out, keeper_fee, capped_pull, sell_pull}

pub le_value-low_bytes : (k n : ℕ) → n < 256 ^ k → le_value (low_bytes k (pos n)) ≡ n
unfolding low_bytes le_value
le_value-low_bytes zero n h = omega arith
le_value-low_bytes (suc k) n h =
    let rest = le_value-low_bytes k (n / 256) (omega arith) in omega arith

pub keeper_fee_exact : (b a : ℕ) → keeper_fee (pos b) (pos a) ≡ pos (a * b / 10_000)
unfolding keeper_fee ◌*ℤ◌ ◌/ℤ◌
keeper_fee_exact b a = ground arith

pub floor_out_exact :
    (s a : ℕ) → s ≤ 10_000 → floor_out (pos s) (pos a) ≡ pos (a * (10_000 - s) / 10_000)
unfolding floor_out ◌*ℤ◌ ◌/ℤ◌ ◌-ℤ◌
floor_out_exact s a h = ground arith

pub available_nonneg : (del : Delegation) (now : ℤ) → pos 0 ≤ℤ available del now
unfolding available
available_nonneg del now = ground arith

pub sub_exact : (a b : ℕ) → b ≤ a → pos a -ℤ pos b ≡ pos (a - b)
unfolding ◌-ℤ◌
sub_exact a b h = ground arith

pub add_exact : (a b : ℕ) → pos a +ℤ pos b ≡ pos (a + b)
unfolding ◌+ℤ◌
add_exact a b = ground arith

pub capped_pull_exact :
    (pot residue periods : ℕ)
    → capped_pull (pos pot) (pos residue) (pos periods) ≡ pos ((pot + residue) / periods - residue)
unfolding capped_pull ◌+ℤ◌ ◌-ℤ◌ ◌/ℤ◌
capped_pull_exact pot residue periods = ground arith

abbrev pub least : ℕ → ℕ → ℕ
least a b = if ltb b a then b else a

pub least_le : (a b : ℕ) → least a b ≤ a
least_le a b = ground arith

pub sell_pull_exact :
    (pot residue periods avail : ℕ)
    → sell_pull (pos pot) (pos residue) (pos periods) (pos avail)
      ≡ pos (least ((pot + residue) / periods - residue) avail)
unfolding sell_pull
sell_pull_exact pot residue periods avail =
    rw (capped_pull_exact pot residue periods) (ground arith)

floor_div_pos : (a b : ℕ) → floor_div (pos a) (pos b) ≡ pos (a / b)
unfolding floor_div ◌/ℤ◌ ◌*ℤ◌ ◌-ℤ◌
floor_div_pos a b = ground arith

floor_div_negsuc : (n b : ℕ) → floor_div (negsuc n) (pos b) ≤ℤ pos 0
unfolding floor_div ◌/ℤ◌ ◌*ℤ◌ ◌-ℤ◌
floor_div_negsuc n b = ground arith

max_one_small : (q : ℤ) → q ≤ℤ pos 0 → max_number q (pos 1) ≡ pos 1
max_one_small q h = ground arith

pub at_least_one_pos :
    (a b : ℕ)
    → 0 < b
    → at_least_one (pos a) (pos b) ≡ some (pos (if ltb (a / b) 1 then 1 else a / b))
unfolding at_least_one
at_least_one_pos a b h = rw (floor_div_pos a b) (ground arith)

at_least_one_negsuc : (n b : ℕ) → 0 < b → at_least_one (negsuc n) (pos b) ≡ some (pos 1)
unfolding at_least_one
at_least_one_negsuc n b h =
    rw (max_one_small (floor_div (negsuc n) (pos b)) (floor_div_negsuc n b)) (ground arith)

zero_div : (b : ℕ) → 0 / b ≡ 0
zero_div b = omega (arith, div-le_self 0 b)

sub_negsuc : (a b : ℕ) → a < b → pos a -ℤ pos b ≡ negsuc (b - a - 1)
unfolding ◌-ℤ◌
sub_negsuc a b h = ground arith

-- The whole periods from a time to an end, and one where there is none.
pub at_least_one_exact :
    (end now period : ℕ)
    → 0 < period
    → at_least_one (pos end -ℤ pos now) (pos period) ≡ some (pos (periods_left end now period))
at_least_one_exact end now period h = elim (Bool-cases (leb now end)) [
  | inl ahead ↦ rw (sub_exact end now (leb→le _ _ ahead)) (at_least_one_pos (end - now) period h)
  | inr over ↦
      let past : end < now = ground arith in
      let nothing : end - now ≡ 0 = omega arith in
      rw (sub_negsuc end now past, nothing, zero_div period)
        (at_least_one_negsuc (now - end - 1) period h)
]

pub bal_nonneg : (client : Client) (k : Pubkey) → pos 0 ≤ℤ bal client k
bal_nonneg client k = ground arith

pub sum_pos : (a b : ℤ) (n : ℕ) → pos 0 <ℤ a → pos 0 ≤ℤ b → a +ℤ b ≡ pos n → 0 < n
unfolding ◌+ℤ◌
sum_pos a b n ha hb h = ground arith

-- ===== src/State.antt =====
-- programs/recurring-buy/src/state.rs: the accounts that the program owns.
-- A public key is a number that is only compared; the default key (all bytes zero) is 0.
pub mod Periods
pub mod Valid
use solana_recurring_buy.Prelude.{
  ℕ, ◌*◌, ◌≡◌, Bool, Option, none, some, List, [], ◌∷◌, ltb, if◌then◌else◌, length, take, replicate,
  contains,
}
use solana_recurring_buy.Prelude.Int.{ℤ, pos}
use solana_recurring_buy.Errors.{Result, ok, err, panicked, ◌>>=◌, or_panic}
use solana_recurring_buy.Word.{saturating_sub_i64, checked_div_i64, max_i64}

abbrev pub Pubkey : Type 0
Pubkey = ℕ

abbrev pub default_pubkey : Pubkey
default_pubkey = 0

abbrev pub max_swap_programs : ℕ
max_swap_programs = 3

-- The seeds, as bytes: "config", "buy", "sell-plan", "fee".
abbrev pub config_seed : List ℕ
config_seed = b'c' ∷ b'o' ∷ b'n' ∷ b'f' ∷ b'i' ∷ b'g' ∷ []

abbrev pub buy_auth_seed : List ℕ
buy_auth_seed = b'b' ∷ b'u' ∷ b'y' ∷ []

abbrev pub sell_plan_seed : List ℕ
sell_plan_seed = b's' ∷ b'e' ∷ b'l' ∷ b'l' ∷ b'-' ∷ b'p' ∷ b'l' ∷ b'a' ∷ b'n' ∷ []

abbrev pub fee_config_seed : List ℕ
fee_config_seed = b'f' ∷ b'e' ∷ b'e' ∷ []

abbrev pub max_fee_bps : ℕ
max_fee_bps = 100

abbrev pub min_period_secs : ℤ
min_period_secs = pos 60

abbrev pub max_period_secs : ℤ
max_period_secs = pos (366 * 86_400)

pub record Config : Type 0 where
  pub admin : Pubkey
  pub target_mint : Pubkey
  pub usdc_mint : Pubkey
  pub swap_programs : List Pubkey  -- an array of max_swap_programs keys
  pub swap_program_count : ℕ  -- u8
  pub price_ref_micros : ℕ  -- u64
  pub target_decimals : ℕ  -- u8
  pub max_slippage_bps : ℕ  -- u16
  pub paused : Bool
  pub bump : ℕ  -- u8

-- `swap_programs[..count].contains(id)`: a count past the array's end panics.
unfoldable pub is_whitelisted : Config → Pubkey → Result Bool
is_whitelisted c program_id =
    if ltb (length c.swap_programs) c.swap_program_count
    then err panicked
    else ok (contains (take c.swap_program_count c.swap_programs) program_id)

pub record FeeConfig : Type 0 where
  pub fee_bps : ℕ  -- u16
  pub destination : Pubkey
  pub bump : ℕ  -- u8

pub record SellPlan : Type 0 where
  pub user : Pubkey
  pub end_ts : ℤ  -- i64
  pub period_secs : ℤ  -- i64
  pub next_due_ts : ℤ  -- i64
  pub bump : ℕ  -- u8

-- `(end_ts.saturating_sub(now) / period_secs).max(1)`; the division panics on a zero period.
unfoldable pub remaining_periods : SellPlan → ℤ → Result ℤ
remaining_periods p now = do
  periods ← or_panic (checked_div_i64 (saturating_sub_i64 p.end_ts now) p.period_secs)
  ok (max_i64 periods (pos 1))

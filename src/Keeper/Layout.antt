-- ===== src/Keeper/Layout.antt =====
-- keeper/native/daemon.mjs reads accounts by byte offsets and writes instruction data byte by byte:
-- `fetchSellPlan`, `loadFeeConfig` and `execData` against the structs of
-- programs/recurring-buy/src/state.rs and the arguments of the two swaps in lib.rs.
use mathlib.Core.List.{append_assoc}
use solana_recurring_buy.Prelude.{
  ℕ, ◌+◌, ◌<◌, ◌≡◌, refl, ◌∙◌, ap, arith, some, List, [], ◌∷◌, ◌++◌, length,
}
use solana_recurring_buy.Prelude.Int.{ℤ, pos, ◌≤ℤ◌}
use solana_recurring_buy.Word.{u64_mod}
use solana_recurring_buy.State.{Pubkey, SellPlan, FeeConfig}
use solana_recurring_buy.State.Valid.{IsValidSellPlan}
use solana_recurring_buy.Chain.{Runtime}
use solana_recurring_buy.Keeper.{Client, SellPlanView}
use solana_recurring_buy.Keeper.Numbers.{
  max_safe_integer, low_bytes, le_value, u64, u32, subarray, read_bigint64_le, read_uint16_le,
}
use solana_recurring_buy.Keeper.Amounts.{exec_data}
use solana_recurring_buy.Keeper.Values.{le_value-low_bytes}
use solana_recurring_buy.Keeper.Daemon.{
  sell_plan_pda, fee_config_pda, fetch_sell_plan, load_fee_config,
}
use solana_recurring_buy.Keeper.Fields.{
  length-append, length-low_bytes, field_at, field_reads, u16_at,
}

-- The data that the daemon sends to `execute_buy` and `execute_sell` are the discriminator and then
-- the arguments in their order: eight bytes that stand for `min_out`, four that stand for the length
-- of the route, the lowest byte first, and the route, for a 64-bit `min_out` and a route of less than
-- 2^32 bytes.
exec_data_arguments :
    (disc : List ℕ) (m : ℕ) (swap_data : List ℕ)
    → m < u64_mod
    → length swap_data < 4_294_967_296
    → (ms : List ℕ) × (ls : List ℕ) × (length ms ≡ 8)
      × (le_value ms ≡ m)
      × (length ls ≡ 4)
      × (le_value ls ≡ length swap_data)
      × (exec_data disc (pos m) swap_data ≡ disc ++ ms ++ ls ++ swap_data)
unfolding exec_data
exec_data_arguments disc m swap_data wide short = (
  u64 (pos m),
  u32 (length swap_data),
  length-low_bytes 8 (pos m),
  le_value-low_bytes 8 m (omega arith),
  length-low_bytes 4 _,
  le_value-low_bytes 4 _ (omega arith) ∙ omega arith,
  refl,
)

-- The data of an account: the discriminator and the fields in the order of the struct, integers
-- with the lowest byte first, a key as 32 bytes.
pub record PlanData (p : SellPlan) (d : List ℕ) : Type 0 where
  pub disc : List ℕ
  pub user_key : List ℕ
  pub disc_length : length disc ≡ 8
  pub key_length : length user_key ≡ 32
  pub layout :
      d ≡ disc ++ user_key ++ u64 p.end_ts ++ u64 p.period_secs ++ u64 p.next_due_ts ++ p.bump ∷ []

pub record FeeData (decode : List ℕ → Pubkey) (c : FeeConfig) (d : List ℕ) : Type 0 where
  pub disc : List ℕ
  pub destination_key : List ℕ
  pub disc_length : length disc ≡ 8
  pub key_length : length destination_key ≡ 32
  pub decoded : decode destination_key ≡ c.destination
  pub layout : d ≡ disc ++ low_bytes 2 (pos c.fee_bps) ++ destination_key ++ c.bump ∷ []

abbrev pub view_of : Runtime → SellPlan → SellPlanView
view_of rt p = record {
  pda = sell_plan_pda rt p.user;
  end_ts = p.end_ts;
  period_secs = p.period_secs;
  next_due_ts = p.next_due_ts;
}

module _ (rt : Runtime) (client : Client) where
  fetch_parts :
      (p : SellPlan) (d : List ℕ) (at : client.account_data (sell_plan_pda rt p.user) ≡ some d)
      → read_bigint64_le d 40 ≡ some p.end_ts
      → read_bigint64_le d 48 ≡ some p.period_secs
      → read_bigint64_le d 56 ≡ some p.next_due_ts
      → fetch_sell_plan rt client p.user ≡ some (some (view_of rt p))
  unfolding fetch_sell_plan
  fetch_parts p d at e1 e2 e3 = ground arith

  -- The daemon reads the plan of a user as the program stores it, when the account's data are the
  -- discriminator and the fields of the struct in their order, the plan is well formed and its end
  -- and gate are numbers that JavaScript holds exactly.
  pub fetch_sell_plan_reads :
      (p : SellPlan) (d : List ℕ)
      → PlanData p d
      → IsValidSellPlan p
      → p.end_ts ≤ℤ pos max_safe_integer
      → p.next_due_ts ≤ℤ pos max_safe_integer
      → client.account_data (sell_plan_pda rt p.user) ≡ some d
      → fetch_sell_plan rt client p.user ≡ some (some (view_of rt p))
  fetch_sell_plan_reads p d held v end_safe due_safe at =
      let head = held.disc ++ held.user_key in
      let head_length : length head ≡ 40 =
        length-append held.disc held.user_key ∙ omega (arith, held.disc_length, held.key_length) in
      let after : (xs : List ℕ) (n : ℕ) (z : ℤ) → length xs ≡ n → length (xs ++ u64 z) ≡ n + 8 =
        λ xs n z h. length-append xs (u64 z) ∙ omega (arith, h, length-low_bytes 8 z) in
      let period_at = after head 40 p.end_ts head_length in
      let due_at = after (head ++ u64 p.end_ts) 48 p.period_secs period_at in
      let tail = p.bump ∷ [] in
      let by_due =
        held.layout
        ∙ append_assoc (head ++ u64 p.end_ts ++ u64 p.period_secs) (u64 p.next_due_ts) tail in
      fetch_parts p d at
        (field_reads d head (u64 p.period_secs ++ (u64 p.next_due_ts ++ tail)) 40 p.end_ts
          (by_due
            ∙ append_assoc (head ++ u64 p.end_ts) (u64 p.period_secs) (u64 p.next_due_ts ++ tail))
          head_length v.end_nonneg v.end_range)
        (field_reads d (head ++ u64 p.end_ts) (u64 p.next_due_ts ++ tail) 48 p.period_secs by_due
          period_at (omega (arith, v.period_min)) (omega (arith, v.period_max)))
        (field_reads d (head ++ u64 p.end_ts ++ u64 p.period_secs) tail 56 p.next_due_ts held.layout
          due_at v.due_nonneg (omega (arith, due_safe)))

  -- The daemon reads the fee and its destination as the program stores them, when the account's data
  -- are the discriminator and the fields of the struct in their order and the fee is a 16-bit number.
  pub load_fee_config_reads :
      (c : FeeConfig) (d : List ℕ)
      → FeeData client.base58_decode c d
      → c.fee_bps < 65_536
      → client.account_data (fee_config_pda rt) ≡ some d
      → load_fee_config rt client
        ≡ some (record {
          pda = fee_config_pda rt;
          bps = pos c.fee_bps;
          destination = some c.destination;
        })
  unfolding load_fee_config
  load_fee_config_reads c d held small at =
      let bps = low_bytes 2 (pos c.fee_bps) in
      let key = held.destination_key in
      let key_at : length (held.disc ++ bps) ≡ 10 =
        length-append held.disc bps
        ∙ omega (arith, held.disc_length, length-low_bytes 2 (pos c.fee_bps)) in
      let rate : read_uint16_le d 8 ≡ some c.fee_bps =
        ap (λ e. read_uint16_le e 8)
          (held.layout ∙ append_assoc (held.disc ++ bps) key (c.bump ∷ []))
        ∙ u16_at held.disc bps (key ++ c.bump ∷ []) 8 held.disc_length
            (length-low_bytes 2 (pos c.fee_bps))
        ∙ ap some (le_value-low_bytes 2 c.fee_bps (omega (arith, small))) in
      let found : subarray 10 42 d ≡ key =
        ap (subarray 10 42) held.layout
        ∙ field_at (held.disc ++ bps) key (c.bump ∷ []) 10 32 key_at held.key_length in
      ground (arith, held.decoded)

-- ===== src/Keeper/Accepted.antt =====
-- What the daemon's fixtures and fee view have to agree with on the chain.
use native.Mathlib.Nat.{mul-le-mul_left}
use solana_recurring_buy.Prelude.{
  ltb, lt→ltb, if◌then◌else◌, ℕ, ◌+◌, ◌-◌, ◌*◌, ◌/◌, ◌≤◌, ◌<◌, ◌≡◌, ◌∙◌, ap, arith, true, false,
  some,
}
use solana_recurring_buy.Prelude.Int.{pos, ◌-ℤ◌}
use solana_recurring_buy.Errors.{ok, err, buy, overflow}
use solana_recurring_buy.Word.{as_u64, u64_mod, u128_mod}
use solana_recurring_buy.State.{Config, FeeConfig, is_whitelisted}
use solana_recurring_buy.State.Valid.{IsValidConfig, IsValidFeeConfig}
use solana_recurring_buy.Floor.{price_floor, sell_floor}
use solana_recurring_buy.Floor.Exact.{price_floor_exact, sell_floor_exact}
use solana_recurring_buy.Fee.{execution_fee, net_input}
use solana_recurring_buy.Fee.Bounds.{execution_fee_split}
use solana_recurring_buy.Chain.{ProgramAccount, Chain, Runtime}
use solana_recurring_buy.Keeper.{Fixtures, FeeView}
use solana_recurring_buy.Keeper.Amounts.{keeper_fee, floor_out}
use solana_recurring_buy.Keeper.Values.{keeper_fee_exact, floor_out_exact, sub_exact}
use solana_recurring_buy.Keeper.Daemon.{fee_config_pda}

-- The router runs with the fixtures' mints, venue and slippage, at one dollar and six decimals, and
-- the fee view is what the fee account holds.
pub record Serves (rt : Runtime) (f : Fixtures) (view : FeeView) (c : Chain) (cfg : Config)
    (fc : FeeConfig) : Type 0 where
  pub config_at : c.accounts f.config ≡ some (ProgramAccount.config cfg)
  pub usdc : cfg.usdc_mint ≡ f.usdc
  pub target : cfg.target_mint ≡ f.target
  pub dollar : cfg.price_ref_micros ≡ 1_000_000
  pub scale : cfg.target_decimals ≡ 6
  pub slippage : f.slippage_bps ≡ pos cfg.max_slippage_bps
  pub running : cfg.paused ≡ false
  pub listed : is_whitelisted cfg f.mock_swap ≡ ok true
  pub fee_at : c.accounts (fee_config_pda rt) ≡ some (ProgramAccount.fee_config fc)
  pub view_pda : view.pda ≡ fee_config_pda rt
  pub view_bps : view.bps ≡ pos fc.fee_bps
  pub view_destination : view.destination ≡ some fc.destination

-- The amounts of a crank, as the daemon computes them and as the program does.
pub record Agreed (f : Fixtures) (view : FeeView) (cfg : Config) (fc : FeeConfig) (amount : ℕ)
    : Type 0 where
  pub fee : ℕ
  pub net : ℕ
  pub min_out : ℕ
  pub fee_due : execution_fee amount fc.fee_bps ≡ ok fee
  pub net_due : net_input amount fee ≡ ok net
  pub buy_floor_due :
      price_floor net cfg.price_ref_micros cfg.target_decimals cfg.max_slippage_bps ≡ ok min_out
  pub sell_floor_due :
      sell_floor net cfg.price_ref_micros cfg.target_decimals cfg.max_slippage_bps ≡ ok min_out
  pub keeper_fee_is : keeper_fee view.bps (pos amount) ≡ pos fee
  pub keeper_net_is : pos amount -ℤ keeper_fee view.bps (pos amount) ≡ pos net
  pub keeper_min_out : floor_out f.slippage_bps (pos net) ≡ pos min_out
  pub wide : min_out < u64_mod
  pub within : min_out ≤ net
  pub split : net + fee ≡ amount

kept_within : (n s : ℕ) → n * (10_000 - s) / 10_000 ≤ n
kept_within n s =
    let most : n * (10_000 - s) ≤ n * 10_000 = mul-le-mul_left n (omega arith) in omega arith

module _ (n s : ℕ) (hn : n < u64_mod) (hs : s ≤ 10_000) where
  kept_share : n * (10_000 - s) / 10_000 < u64_mod
  kept_share =
      let most : n * (10_000 - s) ≤ n * 10_000 = mul-le-mul_left n (omega arith) in omega arith

  whole : n * 1_000_000 / 1_000_000 ≡ n
  whole = omega arith

  dollar_price_floor : price_floor n 1_000_000 6 s ≡ ok (n * (10_000 - s) / 10_000)
  dollar_price_floor =
      let small = kept_share in
      price_floor_exact n 1_000_000 6 s hn (omega arith) (omega arith) hs
      ∙ ap (λ x. ok (as_u64 (x * (10_000 - s) / 10_000))) whole
      ∙ ap ok (omega arith)

  dollar_sell_floor : sell_floor n 1_000_000 6 s ≡ ok (n * (10_000 - s) / 10_000)
  dollar_sell_floor =
      let small = kept_share in
      let most : n * (10_000 - s) ≤ n * 10_000 = mul-le-mul_left n (omega arith) in
      let inside : ltb (n * (10_000 - s)) u128_mod ≡ true = lt→ltb _ _ (omega arith) in
      sell_floor_exact n 1_000_000 6 s hn (omega arith) (omega arith) hs
      ∙ ap
          (λ x.
            if ltb (x * (10_000 - s)) u128_mod
            then ok (as_u64 (x * (10_000 - s) / 10_000))
            else err (buy overflow))
          whole
      ∙ rw inside (ap ok (omega arith))

module _ (rt : Runtime) (f : Fixtures) (view : FeeView) (c : Chain) (cfg : Config) (fc : FeeConfig)
    (serves : Serves rt f view c cfg fc) (vc : IsValidConfig cfg) (vf : IsValidFeeConfig fc)
    (amount : ℕ) (some_in : 0 < amount) (fits : amount < u64_mod) where
  -- The daemon and the program agree on the fee, the net input and the floor.
  pub amounts_agree : Agreed f view cfg fc amount
  amounts_agree =
      let (fee, net, e1, e2, lo, hi, most, sum) =
        execution_fee_split amount fc.fee_bps some_in fits vf.capped in
      let due : keeper_fee view.bps (pos amount) ≡ pos fee =
        ap (λ b. keeper_fee b (pos amount)) serves.view_bps
        ∙ keeper_fee_exact fc.fee_bps amount
        ∙ ap pos (omega arith) in
      record {
        fee = fee;
        net = net;
        min_out = net * (10_000 - cfg.max_slippage_bps) / 10_000;
        fee_due = e1;
        net_due = e2;
        buy_floor_due =
            rw (serves.dollar, serves.scale)
              (dollar_price_floor net cfg.max_slippage_bps (omega arith) vc.slippage);
        sell_floor_due =
            rw (serves.dollar, serves.scale)
              (dollar_sell_floor net cfg.max_slippage_bps (omega arith) vc.slippage);
        keeper_fee_is = due;
        keeper_net_is =
            ap (λ z. pos amount -ℤ z) due
            ∙ sub_exact amount fee (omega arith)
            ∙ ap pos (omega arith);
        keeper_min_out =
            ap (λ z. floor_out z (pos net)) serves.slippage
            ∙ floor_out_exact cfg.max_slippage_bps net vc.slippage;
        split = sum;
        within = kept_within net cfg.max_slippage_bps;
        wide = kept_share net cfg.max_slippage_bps (omega arith) vc.slippage;
      }

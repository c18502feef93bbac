-- ===== src/Keeper/Daemon.antt =====
-- keeper/native/daemon.mjs: the cranks of one delegation. A transaction is its list of
-- instructions, and an exception, which `tick` logs, is `none`.
use solana_recurring_buy.Prelude.{true, false, Option, none, some, [], ◌∷◌, ◌++◌}
use solana_recurring_buy.Prelude.Int.{ℤ, pos}
use solana_recurring_buy.State.{Pubkey}
use solana_recurring_buy.Chain.{AccountInfo, Runtime}
use solana_recurring_buy.Chain.Constraints.{fee_config_seeds, sell_plan_seeds, buy_auth_seeds}
use solana_recurring_buy.Keeper.{
  Fixtures, Client, Delegation, SellPlanView, FeeView, PullIx, SwapLeg,
}
use solana_recurring_buy.Keeper.Numbers.{◌>>=◌, u64, subarray, read_uint16_le, read_bigint64_le}

-- `acc(key, role)`.
abbrev pub readonly : Pubkey → AccountInfo
readonly key = record { key = key; is_signer = false; is_writable = false }

abbrev pub writable : Pubkey → AccountInfo
writable key = record { key = key; is_signer = false; is_writable = true }

abbrev pub writable_signer : Pubkey → AccountInfo
writable_signer key = record { key = key; is_signer = true; is_writable = true }

-- `destination ?? keeper.address`.
abbrev pub destination_or : Option Pubkey → Pubkey → Pubkey
destination_or none keeper = keeper
destination_or (some destination) keeper = destination

-- A missing account reads as an empty one.
abbrev pub bal : Client → Pubkey → ℤ
bal client ata = elim (client.token_balance ata) [ none ↦ pos 0 | some amount ↦ pos amount ]

module _ (rt : Runtime) where
  abbrev pub ata : Pubkey → Pubkey → Pubkey
  ata owner mint = rt.get_associated_token_address owner mint

  abbrev pub sell_plan_pda : Pubkey → Pubkey
  sell_plan_pda user = (rt.find_program_address (sell_plan_seeds user)).0

  abbrev pub buy_auth_pda : Pubkey → Pubkey
  buy_auth_pda user = (rt.find_program_address (buy_auth_seeds user)).0

  abbrev pub fee_config_pda : Pubkey
  fee_config_pda = (rt.find_program_address fee_config_seeds).0

  module _ (client : Client) where
    -- The account of a plan by its byte offsets; no account is `null`, that is `some none`.
    unfoldable pub fetch_sell_plan : Pubkey → Option (Option SellPlanView)
    fetch_sell_plan user = elim (client.account_data (sell_plan_pda user)) [
      | none ↦ some none
      | some d ↦ do
        end_ts ← read_bigint64_le d 40
        period_secs ← read_bigint64_le d 48
        next_due_ts ← read_bigint64_le d 56
        some (
            some (record {
              pda = sell_plan_pda user;
              end_ts = end_ts;
              period_secs = period_secs;
              next_due_ts = next_due_ts;
            }))
    ]

    unfoldable pub load_fee_config : Option FeeView
    load_fee_config = elim (client.account_data fee_config_pda) [
      | none ↦ some (record { pda = fee_config_pda; bps = pos 0; destination = none })
      | some d ↦ do
        bps ← read_uint16_le d 8
        some (record {
          pda = fee_config_pda;
          bps = pos bps;
          destination = some (client.base58_decode (subarray 10 42 d));
        })
    ]

  -- The instruction of the test venue.
  unfoldable pub mock_swap_ix :
      Fixtures → (source source_auth pool_in pool_out dest : Pubkey) → ℤ → ℤ → SwapLeg
  mock_swap_ix f source source_auth pool_in pool_out dest amount_in out = record {
    program = f.mock_swap;
    accounts =
        writable source
        ∷ readonly source_auth
        ∷ writable pool_in
        ∷ writable pool_out
        ∷ writable dest
        ∷ readonly f.pool_authority
        ∷ readonly rt.token_program_id
        ∷ [];
    data_bytes = f.swap_disc ++ u64 amount_in ++ u64 out;
  }

abbrev pub pull_ix :
    Delegation
    → (delegatee delegator_ata receiver_ata : Pubkey) → ℤ
    → (subscription_authority event_authority mint : Pubkey) → PullIx
pull_ix del delegatee delegator_ata receiver_ata amount sa event_authority mint = record {
  delegation_pda = del.address;
  subscription_authority = sa;
  delegator_ata = delegator_ata;
  receiver_ata = receiver_ata;
  token_mint = mint;
  delegatee = delegatee;
  event_authority = event_authority;
  amount = amount;
  delegator = del.delegator;
}

-- ===== src/Examples/World.antt =====
-- A configured router, a user with a buy and a sell plan in progress, and a keeper.
use solana_recurring_buy.Prelude.{
  ℕ, ◌+◌, ◌<◌, refl, inl, inr, arith, true, false, none, some, List, [], ◌∷◌, ◌==◌, update,
  Bool-cases,
}
use solana_recurring_buy.Prelude.Int.{pos}
use solana_recurring_buy.Word.{u64_mod}
use solana_recurring_buy.State.{Pubkey, Config, FeeConfig, SellPlan}
use solana_recurring_buy.Chain.{AccountInfo, TokenAccount, ProgramAccount, Tokens, Chain, store}
use solana_recurring_buy.Chain.Constraints.{
  config_seeds, fee_config_seeds, sell_plan_seeds, buy_auth_seeds,
}
use solana_recurring_buy.Chain.Laws.{IsWide}
use solana_recurring_buy.Chain.Account.{Inv}
use solana_recurring_buy.Buy.{ExecuteBuy}
use solana_recurring_buy.Sell.{ExecuteSell}
use solana_recurring_buy.Router.Invariant.{store-Inv}
use solana_recurring_buy.Examples.Ledger.{runtime, find_address, ata_of}
use solana_recurring_buy.Examples.Calls.{pool_authority}

abbrev pub admin : Pubkey
admin = 1

abbrev pub keeper : Pubkey
keeper = 2

abbrev pub user : Pubkey
user = 3

abbrev pub usdc_mint : Pubkey
usdc_mint = 4

abbrev pub target_mint : Pubkey
target_mint = 5

abbrev pub treasury : Pubkey
treasury = 6

abbrev pub venue : Pubkey
venue = 7

abbrev pub token_program : Pubkey
token_program = 8

abbrev pub system_program : Pubkey
system_program = 9

abbrev pub config_key : Pubkey
config_key = (find_address config_seeds).0

abbrev pub fee_config_key : Pubkey
fee_config_key = (find_address fee_config_seeds).0

abbrev pub plan_key : Pubkey
plan_key = (find_address (sell_plan_seeds user)).0

abbrev pub buy_auth_key : Pubkey
buy_auth_key = (find_address (buy_auth_seeds user)).0

abbrev pub account : Pubkey → AccountInfo
account k = record { key = k; is_signer = false; is_writable = false }

abbrev pub writable : Pubkey → AccountInfo
writable k = record { key = k; is_signer = false; is_writable = true }

abbrev pub signer : Pubkey → AccountInfo
signer k = record { key = k; is_signer = true; is_writable = true }

abbrev pub config : Config
config = record {
  admin = admin;
  target_mint = target_mint;
  usdc_mint = usdc_mint;
  swap_programs = venue ∷ 0 ∷ 0 ∷ [];
  swap_program_count = 1;
  price_ref_micros = 100_000_000;
  target_decimals = 9;
  max_slippage_bps = 100;
  paused = false;
  bump = 255;
}

abbrev pub fee_config : FeeConfig
fee_config = record { fee_bps = 20; destination = treasury; bump = 255 }

abbrev pub now : ℕ
now = 1_700_000_000

-- Ten daily periods are left.
abbrev pub plan : SellPlan
plan = record {
  user = user;
  end_ts = pos (now + 864_000);
  period_secs = pos 86_400;
  next_due_ts = pos now;
  bump = 255;
}

abbrev token_at : Pubkey → Pubkey → Pubkey → ℕ → Tokens → Tokens
token_at k owner mint amount ts =
    update ts k (some (record { mint = mint; owner = owner; delegate = none; amount = amount }))

abbrev ata_with : Pubkey → Pubkey → ℕ → Tokens → Tokens
ata_with owner mint amount ts = token_at (ata_of owner mint) owner mint amount ts

abbrev pub pool_usdc : Pubkey
pool_usdc = 200

abbrev pub pool_target : Pubkey
pool_target = 201

abbrev pub tokens : Tokens
tokens = token_at pool_usdc pool_authority usdc_mint 1_000_000_000_000 (
    token_at pool_target pool_authority target_mint 1_000_000_000_000 (
      ata_with treasury usdc_mint 5 (
        ata_with treasury target_mint 6 (
          ata_with user usdc_mint 0 (
            ata_with user target_mint 1_000_000_000 (
              ata_with buy_auth_key usdc_mint 10_000_000
                (ata_with buy_auth_key target_mint 100_000_000 (λ k. none))))))))

abbrev pub empty : Chain
empty = record {
  accounts = λ k. none;
  tokens = tokens;
  mints =
      update (update (λ k. none) usdc_mint (some (record { decimals = 6 }))) target_mint
        (some (record { decimals = 9 }));
}

abbrev pub configured : Chain
configured = store config_key (ProgramAccount.config config) empty

abbrev pub charged : Chain
charged = store fee_config_key (ProgramAccount.fee_config fee_config) configured

abbrev pub chain : Chain
chain = store plan_key (ProgramAccount.sell_plan plan) charged

configured-Inv : Inv runtime configured
configured-Inv =
    store-Inv runtime empty (λ k a h. ground arith) config_key (ProgramAccount.config config)
      (refl, ground arith)

pub charged-Inv : Inv runtime charged
charged-Inv =
    store-Inv runtime configured configured-Inv fee_config_key
      (ProgramAccount.fee_config fee_config) (refl, ground arith)

pub chain-Inv : Inv runtime chain
chain-Inv =
    store-Inv runtime charged charged-Inv plan_key (ProgramAccount.sell_plan plan)
      (refl, ground arith)

pub update-IsWide :
    (ts : Tokens) (k : Pubkey) (a : TokenAccount)
    → IsWide ts
    → a.amount < u64_mod
    → IsWide (update ts k (some a))
update-IsWide ts k a wide small j b h = elim (Bool-cases (k == j)) [
  | inl same ↦ ground arith
  | inr other ↦ wide j b (rw other at h)
]

pub tokens-IsWide : IsWide tokens
tokens-IsWide =
    update-IsWide _ _ _
      (update-IsWide _ _ _
        (update-IsWide _ _ _
          (update-IsWide _ _ _
            (update-IsWide _ _ _
              (update-IsWide _ _ _
                (update-IsWide _ _ _ (update-IsWide _ _ _ (λ k a h. ground arith) (omega arith))
                  (omega arith))
                (omega arith))
              (omega arith))
            (omega arith))
          (omega arith))
        (omega arith))
      (omega arith)

abbrev pub buy_ctx : ExecuteBuy
buy_ctx = record {
  keeper = signer keeper;
  config = account config_key;
  user = account user;
  buy_authority = account buy_auth_key;
  transient_usdc = writable (ata_of buy_auth_key usdc_mint);
  dest_ata = writable (ata_of user target_mint);
  swap_program = account venue;
  token_program = account token_program;
  fee_config = account fee_config_key;
  fee_ata = writable (ata_of treasury usdc_mint);
}

abbrev pub buy_accounts : List AccountInfo
buy_accounts =
    writable (ata_of buy_auth_key usdc_mint)
    ∷ account buy_auth_key
    ∷ writable pool_usdc
    ∷ writable pool_target
    ∷ writable (ata_of user target_mint)
    ∷ account pool_authority
    ∷ account token_program
    ∷ []

abbrev pub sell_ctx : ExecuteSell
sell_ctx = record {
  keeper = signer keeper;
  config = account config_key;
  user = account user;
  sell_plan = writable plan_key;
  buy_authority = account buy_auth_key;
  transient_target = writable (ata_of buy_auth_key target_mint);
  user_target_ata = account (ata_of user target_mint);
  dest_usdc = writable (ata_of user usdc_mint);
  swap_program = account venue;
  token_program = account token_program;
  fee_config = account fee_config_key;
  fee_ata = writable (ata_of treasury target_mint);
}

abbrev pub sell_accounts : List AccountInfo
sell_accounts =
    writable (ata_of buy_auth_key target_mint)
    ∷ account buy_auth_key
    ∷ writable pool_target
    ∷ writable pool_usdc
    ∷ writable (ata_of user usdc_mint)
    ∷ account pool_authority
    ∷ account token_program
    ∷ []

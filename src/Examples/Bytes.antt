-- ===== src/Examples/Bytes.antt =====
-- The runtime of the daemon's transactions: the ledger of Examples/Ledger and the test venue behind its
-- instruction data.
use mathlib.Core.List.{Memᴰ, append-nil}
use solana_recurring_buy.Prelude.{
  ℕ, ◌+◌, ◌-◌, ◌≤◌, ◌<◌, ◌≡◌, ◌≢◌, inl, inr, refl, sym, ◌∙◌, ap, arith, true, ◌||◌, some, List, [],
  ◌∷◌, ◌++◌, take, drop, length, replicate,
}
use solana_recurring_buy.Prelude.Int.{pos}
use solana_recurring_buy.Errors.{Result, ok, err, program}
use solana_recurring_buy.Word.{u64_mod}
use solana_recurring_buy.Chain.{
  AccountInfo, TokenAccount, Tokens, Seed, AccountMeta, Transfer, Runtime,
}
use solana_recurring_buy.Chain.Progress.{Signs}
use solana_recurring_buy.MockSwap.{swap}
use solana_recurring_buy.Keeper.Numbers.{le_value, u64}
use solana_recurring_buy.Keeper.Values.{le_value-low_bytes}
use solana_recurring_buy.Keeper.Fields.{field_at, length-append, length-low_bytes}
use solana_recurring_buy.Keeper.{Fixtures}
use solana_recurring_buy.Keeper.Settles.{Sound}
use solana_recurring_buy.Keeper.Venue.{RunsMockSwap}
use solana_recurring_buy.Examples.World.{
  usdc_mint, target_mint, venue, config_key, pool_usdc, pool_target,
}
use solana_recurring_buy.Examples.Calls.{pool_authority}
use solana_recurring_buy.Examples.Ledger.{
  ledger_transfer, ledger_laws, mock_runtime, info_of, move, address_of, signs,
}

-- The two amounts behind a discriminator of eight bytes.
abbrev amount_at : ℕ → List ℕ → ℕ
amount_at offset d = le_value (take 8 (drop offset d))

abbrev entry_point : List AccountMeta → List ℕ → Tokens → Result Tokens
entry_point (m0 ∷ m1 ∷ m2 ∷ m3 ∷ m4 ∷ m5 ∷ m6 ∷ []) d ts =
    swap mock_runtime
      (record {
        source_usdc = info_of m0;
        source_authority = info_of m1;
        pool_usdc = info_of m2;
        pool_target = info_of m3;
        dest_target = info_of m4;
        pool_authority = info_of m5;
        token_program = info_of m6;
      })
      (amount_at 8 d) (amount_at 16 d) ts
entry_point _ d ts = err (program 3)

abbrev pub byte_runtime : Runtime
byte_runtime = record mock_runtime {
  invoke_signed = λ ix infos seeds ts. entry_point ix.accounts ix.swap_data ts;
}

seeds_member :
    (s : List Seed) (seeds : List (List Seed)) → Memᴰ s seeds → signs seeds (address_of s) ≡ true
seeds_member s [] h = elim h [ ]
seeds_member s (x ∷ xs) (Memᴰ.head e) = ground arith
seeds_member s (x ∷ xs) (Memᴰ.tail h) = let rest = seeds_member s xs h in ground arith

may_sign :
    (a : AccountInfo) (seeds : List (List Seed))
    → Signs mock_runtime a seeds
    → (a.is_signer || signs seeds a.key) ≡ true
may_sign a seeds (inl e) = ground arith
may_sign a seeds (inr (s, member, e)) = let by = seeds_member s seeds member in ground arith

ledger_accepts :
    (t : Transfer) (seeds : List (List Seed)) (n : ℕ) (ts : Tokens) (a b : TokenAccount)
    → ts t.from.key ≡ some a
    → ts t.to.key ≡ some b
    → Signs mock_runtime t.authority seeds
    → a.owner ≡ t.authority.key
    → a.mint ≡ b.mint
    → n ≤ a.amount
    → b.amount + n < u64_mod
    → t.from.key ≢ t.to.key
    → (ts' : Tokens) × (ledger_transfer t seeds n ts ≡ ok ts')
      × (ts' t.from.key ≡ some (record a { amount = a.amount - n }))
ledger_accepts t seeds n ts a b from_at to_at signed owner mint enough room apart =
    let may = may_sign t.authority seeds signed in (move t n a b ts, ground arith, ground arith)

pub mock-Sound : Sound mock_runtime
mock-Sound = record {
  transfers = record {
    debits = ledger_laws.debits;
    credits = ledger_laws.credits;
    others = ledger_laws.others;
  };
  accepts = record { accepts = ledger_accepts };
  addresses = record { found = λ seeds. refl };
}

pub byte-Sound : Sound byte_runtime
byte-Sound = record {
  transfers = record {
    debits = ledger_laws.debits;
    credits = ledger_laws.credits;
    others = ledger_laws.others;
  };
  accepts = record { accepts = ledger_accepts };
  addresses = record { found = λ seeds. refl };
}

module _ (disc : List ℕ) (eight : length disc ≡ 8) (a b : ℕ) (ha : a < u64_mod)
    (hb : b < u64_mod) where
  first_amount : amount_at 8 (disc ++ u64 (pos a) ++ u64 (pos b)) ≡ a
  first_amount =
      ap le_value (field_at disc (u64 (pos a)) (u64 (pos b)) 8 8 eight (length-low_bytes 8 (pos a)))
      ∙ le_value-low_bytes 8 a ha

  second_amount : amount_at 16 (disc ++ u64 (pos a) ++ u64 (pos b)) ≡ b
  second_amount =
      ap (amount_at 16) (sym (append-nil (disc ++ u64 (pos a) ++ u64 (pos b))))
      ∙ ap le_value (
          field_at (disc ++ u64 (pos a)) (u64 (pos b)) [] 16 8
            (rw (length-append disc (u64 (pos a)), eight, length-low_bytes 8 (pos a)) refl)
            (length-low_bytes 8 (pos b)))
      ∙ le_value-low_bytes 8 b hb

abbrev pub fixtures : Fixtures
fixtures = record {
  usdc = usdc_mint;
  target = target_mint;
  config = config_key;
  mock_swap = venue;
  pool_usdc = pool_usdc;
  pool_target = pool_target;
  pool_authority = pool_authority;
  slippage_bps = pos 100;
  execute_buy_disc = replicate 8 1;
  execute_sell_disc = replicate 8 2;
  swap_disc = replicate 8 3;
}

pub byte-RunsMockSwap : RunsMockSwap byte_runtime mock_runtime fixtures
byte-RunsMockSwap = record {
  runs = λ ctx x y infos seeds ts hx hy listed signed.
      rw
        (
          first_amount fixtures.swap_disc refl x y hx hy,
          second_amount fixtures.swap_disc refl x y hx hy,
        )
        refl;
  pool_signer = refl;
  same_token_program = refl;
}

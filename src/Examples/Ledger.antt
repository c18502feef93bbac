-- ===== src/Examples/Ledger.antt =====
-- A concrete runtime: derived addresses by a checksum, the rules of a token ledger, and the test
-- venue of programs/mock-swap/src/lib.rs behind every cross-program call.
use solana_recurring_buy.Prelude.{
  ℕ, ◌+◌, ◌-◌, ◌*◌, refl, arith, Bool, false, ◌||◌, ◌&&◌, none, some, List, [], ◌∷◌, ◌++◌, leb,
  ◌==◌, if◌then◌else◌, update,
}
use solana_recurring_buy.Errors.{Result, ok, err, program}
use solana_recurring_buy.State.{Pubkey}
use solana_recurring_buy.Chain.{
  AccountInfo, TokenAccount, Tokens, Seed, bytes, key_bytes, AccountMeta, Transfer, Runtime,
}
use solana_recurring_buy.Chain.Laws.{TransferLaws, AddressLaws}
use solana_recurring_buy.MockSwap.{swap}

abbrev sum : List ℕ → ℕ
sum [] = 0
sum (b ∷ bs) = b + sum bs

abbrev weight : Seed → ℕ
weight (bytes bs) = sum bs
weight (key_bytes k) = k * 10_000

abbrev pub address_of : List Seed → Pubkey
address_of [] = 1_000_000
address_of (s ∷ ss) = weight s + address_of ss

abbrev pub find_address : List Seed → Pubkey × ℕ
find_address seeds = (address_of (seeds ++ bytes (255 ∷ []) ∷ []), 255)

abbrev pub ata_of : Pubkey → Pubkey → Pubkey
ata_of owner mint = 100_000_000 + owner * 10 + mint

abbrev pub holds : TokenAccount → Pubkey → Bool
holds a w = a.owner == w || elim a.delegate [ none ↦ false | some d ↦ d == w ]

abbrev pub signs : List (List Seed) → Pubkey → Bool
signs [] w = false
signs (s ∷ ss) w = address_of s == w || signs ss w

abbrev may_move : Transfer → List (List Seed) → ℕ → TokenAccount → Bool
may_move t seeds n a =
    (t.authority.is_signer || signs seeds t.authority.key)
    && holds a t.authority.key
    && leb n a.amount

abbrev pub move : Transfer → ℕ → TokenAccount → TokenAccount → Tokens → Tokens
move t n a b ts =
    if t.from.key == t.to.key
    then ts
    else update (update ts t.from.key (some (record a { amount = a.amount - n }))) t.to.key
        (some (record b { amount = b.amount + n }))

abbrev pub ledger_transfer : Transfer → List (List Seed) → ℕ → Tokens → Result Tokens
ledger_transfer t seeds n ts = elim (ts t.from.key) [
  | none ↦ err (program 1)
  | some a ↦ elim (ts t.to.key) [
    | none ↦ err (program 1)
    | some b ↦ if may_move t seeds n a then ok (move t n a b ts) else err (program 2)
  ]
]

abbrev pub mock_runtime : Runtime
mock_runtime = record {
  system_program_id = 9;
  token_program_id = 8;
  find_program_address = find_address;
  create_program_address = λ seeds. some (address_of seeds);
  get_associated_token_address = ata_of;
  transfer = ledger_transfer;
  invoke_signed = λ ix infos seeds ts. err (program 3);
}

abbrev pub info_of : AccountMeta → AccountInfo
info_of m = record { key = m.pubkey; is_signer = m.is_signer; is_writable = m.is_writable }

-- The venue's instruction is its seven accounts and two amounts.
abbrev pub venue_swap : List AccountMeta → List ℕ → Tokens → Result Tokens
venue_swap (m0 ∷ m1 ∷ m2 ∷ m3 ∷ m4 ∷ m5 ∷ m6 ∷ []) (amount_in ∷ out_amount ∷ []) ts =
    swap mock_runtime
      (record {
        source_usdc = info_of m0;
        source_authority = info_of m1;
        pool_usdc = info_of m2;
        pool_target = info_of m3;
        dest_target = info_of m4;
        pool_authority = info_of m5;
        token_program = info_of m6;
      })
      amount_in out_amount ts
venue_swap _ _ ts = err (program 3)

abbrev pub runtime : Runtime
runtime = record mock_runtime {
  invoke_signed = λ ix infos seeds ts. venue_swap ix.accounts ix.swap_data ts;
}

pub ledger_laws : TransferLaws runtime
ledger_laws = record {
  debits = λ t seeds n ts ts' h apart. ground arith;
  credits = λ t seeds n ts ts' a h apart at. ground arith;
  others = λ t seeds n ts ts' k h n1 n2. ground arith;
}

pub address_laws : AddressLaws runtime
address_laws = record { found = λ seeds. refl }

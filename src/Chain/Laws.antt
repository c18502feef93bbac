-- ===== src/Chain/Laws.antt =====
-- Documented behaviour of the runtime and of the SPL Token program, as hypotheses.
use solana_recurring_buy.Prelude.{
  ℕ, ◌+◌, ◌<◌, ◌≡◌, ◌≢◌, subst, ◌⊎◌, true, Option, none, some, List, [], ◌∷◌, ◌++◌,
}
use mathlib.Core.List.{Memᴰ}
use solana_recurring_buy.Errors.{ok}
use solana_recurring_buy.Word.{u64_mod}
use solana_recurring_buy.State.{Pubkey}
use solana_recurring_buy.Chain.{
  AccountInfo, TokenAccount, Tokens, Seed, bytes, AccountMeta, Instruction, Transfer, Runtime,
}

abbrev pub amount_of : Option TokenAccount → ℕ
amount_of none = 0
amount_of (some a) = a.amount

-- The balance at an address; a missing account has none.
abbrev pub balance : Tokens → Pubkey → ℕ
balance ts k = amount_of (ts k)

-- A transfer between two accounts lowers the first by its amount, raises the second by it and
-- leaves all else of the second and every other account as they were.
pub record TransferLaws (rt : Runtime) : Type 0 where
  pub debits :
      (t : Transfer) (seeds : List (List Seed)) (n : ℕ) (ts ts' : Tokens)
      → rt.transfer t seeds n ts ≡ ok ts'
      → t.from.key ≢ t.to.key
      → balance ts' t.from.key + n ≡ balance ts t.from.key
  pub credits :
      (t : Transfer) (seeds : List (List Seed)) (n : ℕ) (ts ts' : Tokens) (a : TokenAccount)
      → rt.transfer t seeds n ts ≡ ok ts'
      → t.from.key ≢ t.to.key
      → ts t.to.key ≡ some a
      → ts' t.to.key ≡ some (record a { amount = a.amount + n })
  pub others :
      (t : Transfer) (seeds : List (List Seed)) (n : ℕ) (ts ts' : Tokens) (k : Pubkey)
      → rt.transfer t seeds n ts ≡ ok ts'
      → k ≢ t.from.key
      → k ≢ t.to.key
      → ts' k ≡ ts k

-- The keys with which the token program lets an account be debited.
abbrev pub Authority : TokenAccount → Pubkey → Type 0
Authority a w = (a.owner ≡ w) ⊎ (a.delegate ≡ some w)

-- A program that is called can lower a balance only with the signature of the account's owner or
-- delegate: one among the accounts of the instruction, or that of an address for which the called
-- programs sign themselves, such as the authority of a venue's pools (`foreign`).
pub record CallLaws (rt : Runtime) (foreign : Pubkey → Type 0) : Type 0 where
  pub debit_is_signed :
      (ix : Instruction) (infos : List AccountInfo) (seeds : List (List Seed)) (ts ts' : Tokens)
      (k : Pubkey) (a : TokenAccount)
      → rt.invoke_signed ix infos seeds ts ≡ ok ts'
      → ts k ≡ some a
      → balance ts' k < a.amount
      → (w : Pubkey) × Authority a w
        × (foreign w
            ⊎ ((m : AccountMeta) × Memᴰ m ix.accounts × (m.is_signer ≡ true) × (m.pubkey ≡ w)))

-- The search for a derived address returns a bump with which the address is created again.
pub record AddressLaws (rt : Runtime) : Type 0 where
  pub found :
      (seeds : List Seed)
      → let (k, bump) = rt.find_program_address seeds in
        rt.create_program_address (seeds ++ bytes (bump ∷ []) ∷ []) ≡ some k

-- An address that the search returned is created again from the bump that came with it.
pub recreated :
    (rt : Runtime)
    → AddressLaws rt
    → (seeds : List Seed) {k : Pubkey} {bump : ℕ} → rt.find_program_address seeds ≡ (k, bump)
    → rt.create_program_address (seeds ++ bytes (bump ∷ []) ∷ []) ≡ some k
recreated rt laws seeds e =
    subst
      (λ (r : Pubkey × ℕ). rt.create_program_address (seeds ++ bytes (r.1 ∷ []) ∷ []) ≡ some r.0) e
      (laws.found seeds)

-- Token amounts are 64-bit words.
abbrev pub IsWide : Tokens → Type 0
IsWide ts = (k : Pubkey) (a : TokenAccount) → ts k ≡ some a → a.amount < u64_mod

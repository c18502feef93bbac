-- ===== src/Chain/Progress.antt =====
-- When a token transfer succeeds: documented behaviour of the SPL Token program and of signing with
-- seeds, as a hypothesis, and what a transfer that succeeds leaves.
use mathlib.Core.List.{Memᴰ}
use solana_recurring_buy.Prelude.{ℕ, ◌+◌, ◌-◌, ◌≤◌, ◌<◌, ◌≡◌, ◌≢◌, ◌⊎◌, true, some, List}
use solana_recurring_buy.Errors.{ok}
use solana_recurring_buy.Word.{u64_mod}
use solana_recurring_buy.State.{Pubkey}
use solana_recurring_buy.Chain.{AccountInfo, TokenAccount, Tokens, Seed, Transfer, Runtime}
use solana_recurring_buy.Chain.Laws.{TransferLaws}

-- An address for which the calling program signs with one of the seeds.
abbrev pub SeedsSign : Runtime → Pubkey → List (List Seed) → Type 0
SeedsSign rt k seeds = (s : List Seed) × Memᴰ s seeds × (rt.create_program_address s ≡ some k)

-- An account that signs an instruction.
abbrev pub Signs : Runtime → AccountInfo → List (List Seed) → Type 0
Signs rt a seeds = (a.is_signer ≡ true) ⊎ SeedsSign rt a.key seeds

-- A transfer that the owner signs, between two accounts of one mint that are not frozen (a state that
-- the model leaves out), of an amount that the one holds and the other has room for, succeeds; it lowers the amount of the first and changes nothing else of it.
pub record TransferAccepts (rt : Runtime) : Type 0 where
  pub accepts :
      (t : Transfer) (seeds : List (List Seed)) (n : ℕ) (ts : Tokens) (a b : TokenAccount)
      → ts t.from.key ≡ some a
      → ts t.to.key ≡ some b
      → Signs rt t.authority seeds
      → a.owner ≡ t.authority.key
      → a.mint ≡ b.mint
      → n ≤ a.amount
      → b.amount + n < u64_mod
      → t.from.key ≢ t.to.key
      → (ts' : Tokens) × (rt.transfer t seeds n ts ≡ ok ts')
        × (ts' t.from.key ≡ some (record a { amount = a.amount - n }))

-- The tokens after a payment from one account to another.
pub record Paid (from to : Pubkey) (n : ℕ) (ts : Tokens) (a b : TokenAccount) (ts' : Tokens)
    : Type 0 where
  pub left : ts' from ≡ some (record a { amount = a.amount - n })
  pub gained : ts' to ≡ some (record b { amount = b.amount + n })
  pub others : (k : Pubkey) → k ≢ from → k ≢ to → ts' k ≡ ts k

module _ (rt : Runtime) (laws : TransferLaws rt) (accepts : TransferAccepts rt) where
  pub transfer-Paid :
      (t : Transfer) (seeds : List (List Seed)) (n : ℕ) (ts : Tokens) (a b : TokenAccount)
      → ts t.from.key ≡ some a
      → ts t.to.key ≡ some b
      → Signs rt t.authority seeds
      → a.owner ≡ t.authority.key
      → a.mint ≡ b.mint
      → n ≤ a.amount
      → b.amount + n < u64_mod
      → t.from.key ≢ t.to.key
      → (ts' : Tokens) × (rt.transfer t seeds n ts ≡ ok ts') × Paid t.from.key t.to.key n ts a b ts'
  transfer-Paid t seeds n ts a b from_at to_at signs owner mint enough room apart =
      let (ts', e, left) =
        accepts.accepts t seeds n ts a b from_at to_at signs owner mint enough room apart in
      (
        ts',
        e,
        record {
          left = left;
          gained = laws.credits t seeds n ts ts' b e apart to_at;
          others = λ k h1 h2. laws.others t seeds n ts ts' k e h1 h2;
        },
      )

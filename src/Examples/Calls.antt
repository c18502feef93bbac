-- ===== src/Examples/Calls.antt =====
-- The venue of the concrete runtime and the rules of cross-program calls.
use mathlib.Core.List.{Memᴰ}
use solana_recurring_buy.Prelude.{
  ℕ, ◌<◌, ◌≡◌, ◌⊎◌, inl, inr, refl, sym, ◌∙◌, ap, arith, Bool, true, false, ◌||◌, Option, none,
  some, List, [], ◌∷◌, ltb, Bool-cases, ltb→lt,
}
use solana_recurring_buy.Errors.{ok, >>=-eq-ok}
use solana_recurring_buy.State.{Pubkey}
use solana_recurring_buy.Chain.{TokenAccount, Tokens, Seed, bytes, AccountMeta, Transfer}
use solana_recurring_buy.Chain.Laws.{balance, Authority, CallLaws}
use solana_recurring_buy.MockSwap.{MockAccounts, pool_seed, validate_swap, swap}
use solana_recurring_buy.Examples.Ledger.{
  ledger_transfer, find_address, mock_runtime, venue_swap, runtime, signs,
}

abbrev pub pool_authority : Pubkey
pool_authority = (find_address (bytes pool_seed ∷ [])).0

abbrev pub Foreign : Pubkey → Type 0
Foreign w = w ≡ pool_authority

abbrev token_of : Option TokenAccount → TokenAccount
token_of none = record { mint = 0; owner = 0; delegate = none; amount = 0 }
token_of (some a) = a

-- A transfer lowers a balance only with its authority's signature.
transfer_debit :
    (t : Transfer) (seeds : List (List Seed)) (n : ℕ) (ts ts' : Tokens) (k : Pubkey)
    (a : TokenAccount)
    → ledger_transfer t seeds n ts ≡ ok ts'
    → ts k ≡ some a
    → balance ts' k < a.amount
    → ((t.authority.is_signer || signs seeds t.authority.key) ≡ true) × Authority a t.authority.key
transfer_debit t seeds n ts ts' k a h at less = ground arith

-- And it keeps who owns an account.
transfer_keeps :
    (t : Transfer) (seeds : List (List Seed)) (n : ℕ) (ts ts' : Tokens) (k : Pubkey)
    (a : TokenAccount)
    → ledger_transfer t seeds n ts ≡ ok ts'
    → ts k ≡ some a
    → (b : TokenAccount) × (ts' k ≡ some b) × (b.owner ≡ a.owner) × (b.delegate ≡ a.delegate)
transfer_keeps t seeds n ts ts' k a h at =
    (token_of (ts' k), ground arith, ground arith, ground arith)

abbrev pub pay_in : MockAccounts → Transfer
pay_in ctx = record { from = ctx.source_usdc; to = ctx.pool_usdc; authority = ctx.source_authority }

abbrev pub pay_out : MockAccounts → Transfer
pay_out ctx = record {
  from = ctx.pool_target;
  to = ctx.dest_target;
  authority = ctx.pool_authority;
}

or_false : {b : Bool} → (b || false) ≡ true → b ≡ true
or_false h = ground arith

lowered :
    (ts' paid : Tokens) (k : Pubkey) (a b : TokenAccount)
    → paid k ≡ some b
    → balance ts' k < a.amount
    → ltb (balance paid k) a.amount ≡ false
    → balance ts' k < b.amount
lowered ts' paid k a b kept less later = ground arith

same-Authority :
    (a b : TokenAccount) {v w : Pubkey}
    → v ≡ w
    → b.owner ≡ a.owner
    → b.delegate ≡ a.delegate
    → Authority b v
    → Authority a w
same-Authority a b same owner delegate (inl e) = inl (sym owner ∙ e ∙ same)
same-Authority a b same owner delegate (inr e) = inr (sym delegate ∙ e ∙ ap some same)

pool_signs :
    (ctx : MockAccounts) (ts : Tokens) {bump : ℕ}
    → validate_swap mock_runtime ctx ts ≡ ok bump
    → ctx.pool_authority.key ≡ pool_authority
unfolding validate_swap
pool_signs ctx ts h = ground arith

swap_debit :
    (ctx : MockAccounts) (x y : ℕ) (ts ts' : Tokens) (k : Pubkey) (a : TokenAccount)
    → swap mock_runtime ctx x y ts ≡ ok ts'
    → ts k ≡ some a
    → balance ts' k < a.amount
    → ((ctx.source_authority.is_signer ≡ true) × Authority a ctx.source_authority.key)
      ⊎ Authority a pool_authority
unfolding swap
swap_debit ctx x y ts ts' k a h at less =
    let (bump, valid, h1) = >>=-eq-ok (validate_swap mock_runtime ctx ts) _ h in
    let (paid, pay, give) = >>=-eq-ok (ledger_transfer (pay_in ctx) [] x ts) _ h1 in
    elim (Bool-cases (ltb (balance paid k) a.amount)) [
      | inl first ↦
          let by = transfer_debit (pay_in ctx) [] x ts paid k a pay at (ltb→lt _ _ first) in
          inl (or_false by.0, by.1)
      | inr later ↦
          let (b, kept, same_owner, same_delegate) =
            transfer_keeps (pay_in ctx) [] x ts paid k a pay at in
          let by =
            transfer_debit (pay_out ctx) ((bytes pool_seed ∷ bytes (bump ∷ []) ∷ []) ∷ []) y paid
              ts' k b give kept (lowered ts' paid k a b kept less later) in
          inr (same-Authority a b (pool_signs ctx ts valid) same_owner same_delegate by.1)
    ]

venue_debit :
    (ms : List AccountMeta) (swap_data : List ℕ) (ts ts' : Tokens) (k : Pubkey) (a : TokenAccount)
    → venue_swap ms swap_data ts ≡ ok ts'
    → ts k ≡ some a
    → balance ts' k < a.amount
    → (w : Pubkey) × Authority a w
      × (Foreign w ⊎ ((m : AccountMeta) × Memᴰ m ms × (m.is_signer ≡ true) × (m.pubkey ≡ w)))
venue_debit (m0 ∷ m1 ∷ m2 ∷ m3 ∷ m4 ∷ m5 ∷ m6 ∷ []) (x ∷ y ∷ []) ts ts' k a h at less =
    elim (swap_debit _ x y ts ts' k a h at less) [
      | inl (signed, by) ↦ (m1.pubkey, by, inr (m1, Memᴰ.tail (Memᴰ.head refl), signed, refl))
      | inr by ↦ (pool_authority, by, inl refl)
    ]
venue_debit _ _ ts ts' k a h at less = ground arith

pub call_laws : CallLaws runtime Foreign
call_laws = record {
  debit_is_signed = λ ix infos seeds ts ts' k a h at less.
      venue_debit ix.accounts ix.swap_data ts ts' k a h at less;
}

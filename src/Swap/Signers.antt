-- ===== src/Swap/Signers.antt =====
-- Whose signature the forwarded instruction carries.
use mathlib.Core.List.{Memᴰ}
use solana_recurring_buy.Prelude.{
  ◌≡◌, ◌<◌, ◌⊎◌, inl, inr, refl, arith, true, some, List, [], ◌∷◌, map, ap, subst,
}
use solana_recurring_buy.State.{Pubkey}
use solana_recurring_buy.Errors.{ok}
use solana_recurring_buy.Chain.{AccountInfo, AccountMeta, TokenAccount, Tokens, Runtime}
use solana_recurring_buy.Chain.Laws.{CallLaws, Authority, balance}
use solana_recurring_buy.Swap.{Route, account_metas, invoke_venue}

-- A signer of the transaction among the accounts that the keeper passed.
abbrev pub SignedBy : Pubkey → List AccountInfo → Type 0
SignedBy k [] = ⊥
SignedBy k (ai ∷ ais) = ((ai.key ≡ k) × (ai.is_signer ≡ true)) ⊎ SignedBy k ais

-- The forced signature raises no other account: every meta of the forwarded instruction that signs
-- is the transient PDA or has the key of an account that signed the transaction.
pub account_metas-signers :
    (buy_auth_key : Pubkey) (ais : List AccountInfo) (m : AccountMeta)
    → Memᴰ m (account_metas buy_auth_key ais)
    → m.is_signer ≡ true
    → (m.pubkey ≡ buy_auth_key) ⊎ SignedBy m.pubkey ais
unfolding account_metas
account_metas-signers b [] m h s = elim h [ ]
account_metas-signers b (ai ∷ ais) m (Memᴰ.head e) s = ground arith
account_metas-signers b (ai ∷ ais) m (Memᴰ.tail h) s = elim (account_metas-signers b ais m h s) [
  | inl e ↦ inl e
  | inr d ↦ inr (inr d)
]

-- The keys and the write flags of the forwarded instruction are those of the accounts that were
-- passed, in their order.
account_metas_forward :
    (buy_auth_key : Pubkey) (ais : List AccountInfo)
    → (map (λ (m : AccountMeta). m.pubkey) (account_metas buy_auth_key ais)
        ≡ map (λ (a : AccountInfo). a.key) ais)
      × (map (λ (m : AccountMeta). m.is_writable) (account_metas buy_auth_key ais)
          ≡ map (λ (a : AccountInfo). a.is_writable) ais)
unfolding account_metas
account_metas_forward b [] = (refl, refl)
account_metas_forward b (ai ∷ ais) =
    let (keys, flags) = account_metas_forward b ais in
    (ap (◌∷◌ ai.key) keys, ap (◌∷◌ ai.is_writable) flags)

-- An authority over a token account that the venue call can act with.
abbrev pub CanSpend : (Pubkey → Type 0) → Pubkey → List AccountInfo → TokenAccount → Type 0
CanSpend foreign buy_auth_key remaining a =
    (w : Pubkey) × Authority a w × (foreign w ⊎ (w ≡ buy_auth_key) ⊎ SignedBy w remaining)

-- The venue lowers a balance only if the account's owner or delegate is the transient PDA, signed
-- the transaction or is an address for which the called programs sign.
pub invoke_venue_debits :
    (rt : Runtime) (foreign : Pubkey → Type 0) (r : Route) (ts ts' : Tokens) (k : Pubkey)
    (a : TokenAccount)
    → CallLaws rt foreign
    → invoke_venue rt r ts ≡ ok ts'
    → ts k ≡ some a
    → balance ts' k < a.amount
    → CanSpend foreign r.buy_authority.key r.remaining_accounts a
unfolding invoke_venue
invoke_venue_debits rt foreign r ts ts' k a laws h at less =
    let (w, may, by) = laws.debit_is_signed _ _ _ ts ts' k a h at less in
    elim by [
      | inl own ↦ (w, may, inl own)
      | inr (m, member, signs, same) ↦ (
        w,
        may,
        inr (
            subst (λ x. (x ≡ r.buy_authority.key) ⊎ SignedBy x r.remaining_accounts) same
              (account_metas-signers r.buy_authority.key r.remaining_accounts m member signs)),
      )
    ]

-- ===== src/Swap/Custody.antt =====
-- Where the tokens of a verified swap went.
use solana_recurring_buy.Prelude.{
  ℕ, ◌+◌, ◌<◌, ◌≡◌, ◌≢◌, inl, inr, sym, ◌∙◌, ap, arith, some, ltb, ◌==◌, ==→eq, Bool-cases,
}
use solana_recurring_buy.Errors.{ok}
use solana_recurring_buy.State.{Pubkey}
use solana_recurring_buy.Chain.{TokenAccount, Tokens, Runtime}
use solana_recurring_buy.Chain.Laws.{balance, TransferLaws, CallLaws}
use solana_recurring_buy.Swap.{Route, skim_fee, fee_transfer, signer_seeds}
use solana_recurring_buy.Swap.Outcome.{Swapped}
use solana_recurring_buy.Swap.Signers.{CanSpend, invoke_venue_debits}

module _ (rt : Runtime) (r : Route) (fee : ℕ) (ts skimmed : Tokens) (laws : TransferLaws rt)
    (h : skim_fee rt r fee ts ≡ ok skimmed) where
  -- The skim takes exactly the fee from the transient.
  pub skim_fee_debits :
      r.transient.key ≢ r.fee_ata.key
      → balance skimmed r.transient.key + fee ≡ balance ts r.transient.key
  unfolding skim_fee
  skim_fee_debits apart = elim (Bool-cases (ltb 0 fee)) [
    | inl some_fee ↦
        laws.debits (fee_transfer r) (signer_seeds r) fee ts skimmed (rw some_fee at h) apart
    | inr no_fee ↦ ground arith
  ]

  -- The skim gives the fee account exactly the fee.
  pub skim_fee_credits :
      (a : TokenAccount)
      → r.transient.key ≢ r.fee_ata.key
      → ts r.fee_ata.key ≡ some a
      → skimmed r.fee_ata.key ≡ some (record a { amount = a.amount + fee })
  unfolding skim_fee
  skim_fee_credits a apart at = elim (Bool-cases (ltb 0 fee)) [
    | inl some_fee ↦
        laws.credits (fee_transfer r) (signer_seeds r) fee ts skimmed a (rw some_fee at h) apart at
    | inr no_fee ↦ ground arith
  ]

  pub skim_fee_others : (k : Pubkey) → k ≢ r.transient.key → k ≢ r.fee_ata.key → skimmed k ≡ ts k
  unfolding skim_fee
  skim_fee_others k n1 n2 = elim (Bool-cases (ltb 0 fee)) [
    | inl some_fee ↦
        laws.others (fee_transfer r) (signer_seeds r) fee ts skimmed k (rw some_fee at h) n1 n2
    | inr no_fee ↦ ground arith
  ]

  -- Outside the transient the skim keeps every account but for what it adds.
  pub skim_fee_keeps :
      (k : Pubkey) (a : TokenAccount)
      → k ≢ r.transient.key
      → ts k ≡ some a
      → (added : ℕ) × (skimmed k ≡ some (record a { amount = a.amount + added }))
  skim_fee_keeps k a apart at = elim (Bool-cases (k == r.fee_ata.key)) [
    | inl same ↦
        let q = ==→eq k r.fee_ata.key same in
        (fee, ap skimmed q ∙ skim_fee_credits a (λ p. apart (q ∙ sym p)) (sym (ap ts q) ∙ at))
    | inr other ↦
        let n2 : k ≢ r.fee_ata.key = ground arith in (0, ground (arith, skim_fee_others k apart n2))
  ]

-- No account but the transient loses tokens in a verified swap, unless its owner or delegate is
-- the transient PDA, signed the transaction or is an address for which the called programs sign.
pub Swapped-custody :
    (rt : Runtime) (foreign : Pubkey → Type 0) (r : Route) (fee dest_before min_out : ℕ)
    (ts ts' : Tokens) (out : ℕ) (k : Pubkey) (a : TokenAccount)
    → TransferLaws rt
    → CallLaws rt foreign
    → Swapped rt r fee dest_before min_out ts ts' out
    → k ≢ r.transient.key
    → ts k ≡ some a
    → balance ts' k < a.amount
    → CanSpend foreign r.buy_authority.key r.remaining_accounts a
Swapped-custody rt foreign r fee dest_before min_out ts ts' out k a laws calls s apart at less =
    let (added, kept) = skim_fee_keeps rt r fee ts s.skimmed laws s.skim k a apart at in
    invoke_venue_debits rt foreign r s.skimmed ts' k (record a { amount = a.amount + added }) calls
      s.call kept (omega arith)

-- ===== src/Swap/Contract.antt =====
-- programs/recurring-buy/src/lib.rs: what `execute_buy` and `execute_sell` promise of the tokens, from
-- the fee transfer to the check of the outcome, in terms of the runtime alone.
use solana_recurring_buy.Prelude.{
  ℕ, ◌<◌, ◌≡◌, ◌⊎◌, ◌||◌, ◌==◌, inl, inr, refl, ◌∙◌, ap, arith, true, List, [], ◌∷◌, ◌++◌, map, ltb,
  Bool-cases,
}
use solana_recurring_buy.Errors.{ok}
use solana_recurring_buy.State.{Pubkey, buy_auth_seed}
use solana_recurring_buy.Chain.{AccountInfo, AccountMeta, Tokens, Seed, Runtime, bytes, key_bytes}
use solana_recurring_buy.Swap.{Route, account_metas, skim_fee, invoke_venue}
use solana_recurring_buy.Swap.Outcome.{Verified, Swapped}

-- An account of the forwarded instruction: as the caller passed it, but for the transient PDA, which
-- signs.
abbrev forwarded : Pubkey → AccountInfo → AccountMeta
forwarded pda a = record {
  pubkey = a.key;
  is_signer = a.is_signer || a.key == pda;
  is_writable = a.is_writable;
}

abbrev pda_seeds : Route → List (List Seed)
pda_seeds r = (bytes buy_auth_seed ∷ key_bytes r.user ∷ bytes (r.bump ∷ []) ∷ []) ∷ []

-- A fee that is not zero moves from the transient account to the fee account, and the PDA signs.
abbrev Skimmed : Runtime → Route → ℕ → Tokens → Tokens → Type 0
Skimmed rt r fee ts skimmed =
    ((fee ≡ 0) × (skimmed ≡ ts))
    ⊎ ((0 < fee)
        × (rt.transfer (record { from = r.transient; to = r.fee_ata; authority = r.buy_authority })
              (pda_seeds r) fee ts
            ≡ ok skimmed))

pub record SwapContract (rt : Runtime) (r : Route) (fee dest_before min_out : ℕ) (ts ts' : Tokens)
    (out : ℕ) : Type 0 where
  pub skimmed : Tokens
  pub skim : Skimmed rt r fee ts skimmed
  pub call :
      rt.invoke_signed
        (record {
          program_id = r.swap_program.key;
          accounts = map (forwarded r.buy_authority.key) r.remaining_accounts;
          swap_data = r.swap_data;
        })
        (r.remaining_accounts ++ r.swap_program ∷ [])
        (pda_seeds r)
        skimmed
      ≡ ok ts'
  pub verified : Verified r dest_before min_out ts' out

account_metas-forwarded :
    (pda : Pubkey) (infos : List AccountInfo) → account_metas pda infos ≡ map (forwarded pda) infos
unfolding account_metas
account_metas-forwarded pda [] = refl
account_metas-forwarded pda (a ∷ infos) =
    ap (λ ms. forwarded pda a ∷ ms) (account_metas-forwarded pda infos)

module _ (rt : Runtime) (r : Route) where
  skim_fee-Skimmed :
      (fee : ℕ) (ts skimmed : Tokens)
      → skim_fee rt r fee ts ≡ ok skimmed
      → Skimmed rt r fee ts skimmed
  unfolding skim_fee
  skim_fee-Skimmed fee ts skimmed h = elim (Bool-cases (ltb 0 fee)) [
    | inl some_fee ↦ inr (ground arith, rw some_fee at h)
    | inr no_fee ↦ inl (ground arith, ground arith)
  ]

  Skimmed-skim_fee :
      (fee : ℕ) (ts skimmed : Tokens)
      → Skimmed rt r fee ts skimmed
      → skim_fee rt r fee ts ≡ ok skimmed
  unfolding skim_fee
  Skimmed-skim_fee fee ts skimmed (inl (none, same)) = rw (none, same) refl
  Skimmed-skim_fee fee ts skimmed (inr (some_fee, paid)) =
      let test : ltb 0 fee ≡ true = ground arith in rw test paid

  module _ (fee dest_before min_out : ℕ) (ts ts' : Tokens) (out : ℕ) where
    pub Swapped-SwapContract :
        Swapped rt r fee dest_before min_out ts ts' out
        → SwapContract rt r fee dest_before min_out ts ts' out
    unfolding invoke_venue
    Swapped-SwapContract s = record {
      skimmed = s.skimmed;
      skim = skim_fee-Skimmed fee ts s.skimmed s.skim;
      call = rw (← account_metas-forwarded r.buy_authority.key r.remaining_accounts) s.call;
      verified = s.verified;
    }

    pub SwapContract-Swapped :
        SwapContract rt r fee dest_before min_out ts ts' out
        → Swapped rt r fee dest_before min_out ts ts' out
    unfolding invoke_venue
    SwapContract-Swapped s = record {
      skimmed = s.skimmed;
      skim = Skimmed-skim_fee fee ts s.skimmed s.skim;
      call =
          ap
            (λ ms.
              rt.invoke_signed
                (record { program_id = r.swap_program.key; accounts = ms; swap_data = r.swap_data })
                (r.remaining_accounts ++ r.swap_program ∷ []) (pda_seeds r) s.skimmed)
            (account_metas-forwarded r.buy_authority.key r.remaining_accounts)
          ∙ s.call;
      verified = s.verified;
    }

-- ===== src/Keeper/Venue.antt =====
-- The venue of keeper/native/daemon.mjs: `mockSwapIx` is a call of programs/mock-swap/src/lib.rs.
use mathlib.Core.List.{Memᴰ}
use solana_recurring_buy.Prelude.{
  ℕ, ◌<◌, ◌≡◌, ◌==◌, ◌||◌, refl, arith, inl, inr, Bool, true, false, List, [], ◌∷◌, ◌++◌, map,
}
use solana_recurring_buy.Prelude.Int.{pos}
use solana_recurring_buy.Word.{u64_mod}
use solana_recurring_buy.State.{Pubkey}
use solana_recurring_buy.Chain.{AccountInfo, AccountMeta, Tokens, Seed, bytes, Runtime}
use solana_recurring_buy.Chain.Constraints.{buy_auth_seeds}
use solana_recurring_buy.Chain.Laws.{AddressLaws}
use solana_recurring_buy.Chain.Progress.{SeedsSign}
use solana_recurring_buy.Swap.{Route, account_metas, signer_seeds, invoke_venue}
use solana_recurring_buy.Swap.Signers.{SignedBy, account_metas-signers}
use solana_recurring_buy.MockSwap.{MockAccounts, pool_seed, swap}
use solana_recurring_buy.Keeper.{Fixtures, SwapLeg}
use solana_recurring_buy.Keeper.Numbers.{u64}
use solana_recurring_buy.Keeper.Daemon.{readonly, writable, buy_auth_pda, mock_swap_ix}

abbrev pub meta_of : AccountInfo → AccountMeta
meta_of a = record { pubkey = a.key; is_signer = a.is_signer; is_writable = a.is_writable }

abbrev pub metas_of : MockAccounts → List AccountMeta
metas_of ctx =
    meta_of ctx.source_usdc
    ∷ meta_of ctx.source_authority
    ∷ meta_of ctx.pool_usdc
    ∷ meta_of ctx.pool_target
    ∷ meta_of ctx.dest_target
    ∷ meta_of ctx.pool_authority
    ∷ meta_of ctx.token_program
    ∷ []

-- The keys and write flags of an instruction, and of what is passed along with it.
abbrev places : List AccountMeta → List (Pubkey × Bool)
places ms = map (λ (m : AccountMeta). (m.pubkey, m.is_writable)) ms

abbrev passed : List AccountInfo → List (Pubkey × Bool)
passed infos = map (λ (a : AccountInfo). (a.key, a.is_writable)) infos

-- A program at the fixtures' address whose entry point, as Anchor generates it, reads the seven
-- accounts and the two little-endian amounts behind the discriminator, and runs `swap`, when the
-- caller passes these accounts and the program, and each account that signs is one for which the
-- caller's seeds sign. `vr` is the runtime that this program sees.
pub record RunsMockSwap (rt vr : Runtime) (f : Fixtures) : Type 0 where
  pub runs :
      (ctx : MockAccounts) (amount_in out_amount : ℕ) (infos : List AccountInfo)
      (seeds : List (List Seed)) (ts : Tokens)
      → amount_in < u64_mod
      → out_amount < u64_mod
      → passed infos ≡ places (metas_of ctx) ++ (f.mock_swap, false) ∷ []
      → ((m : AccountMeta)
          → Memᴰ m (metas_of ctx)
          → m.is_signer ≡ true
          → SeedsSign rt m.pubkey seeds)
      → rt.invoke_signed
          (record {
            program_id = f.mock_swap;
            accounts = metas_of ctx;
            swap_data = f.swap_disc ++ u64 (pos amount_in) ++ u64 (pos out_amount);
          })
          infos
          seeds
          ts
        ≡ swap vr ctx amount_in out_amount ts
  pub pool_signer : (vr.find_program_address (bytes pool_seed ∷ [])).0 ≡ f.pool_authority
  pub same_token_program : vr.token_program_id ≡ rt.token_program_id

-- An account as the router forwards it.
abbrev pub forwarded : Pubkey → AccountInfo → AccountInfo
forwarded buy_auth_key a = record a { is_signer = a.is_signer || a.key == buy_auth_key }

module _ (rt : Runtime) (f : Fixtures) (user from to fee_ata pool_in pool_out : Pubkey)
    (net : ℕ) where
  abbrev leg : SwapLeg
  leg = mock_swap_ix rt f from (buy_auth_pda rt user) pool_in pool_out to (pos net) (pos net)

  -- The swap of a crank, on the accounts that the daemon names.
  abbrev pub leg_route : Route
  leg_route = record {
    user = user;
    buy_authority = readonly (buy_auth_pda rt user);
    bump = (rt.find_program_address (buy_auth_seeds user)).1;
    transient = writable from;
    dest = writable to;
    fee_ata = writable fee_ata;
    swap_program = readonly f.mock_swap;
    remaining_accounts = leg.accounts;
    swap_data = leg.data_bytes;
  }

  -- The accounts that the venue receives.
  abbrev pub venue_accounts : MockAccounts
  venue_accounts = record {
    source_usdc = forwarded (buy_auth_pda rt user) (writable from);
    source_authority = forwarded (buy_auth_pda rt user) (readonly (buy_auth_pda rt user));
    pool_usdc = forwarded (buy_auth_pda rt user) (writable pool_in);
    pool_target = forwarded (buy_auth_pda rt user) (writable pool_out);
    dest_target = forwarded (buy_auth_pda rt user) (writable to);
    pool_authority = forwarded (buy_auth_pda rt user) (readonly f.pool_authority);
    token_program = forwarded (buy_auth_pda rt user) (readonly rt.token_program_id);
  }

  none_signed : (k : Pubkey) → SignedBy k leg.accounts → ⊥
  unfolding mock_swap_ix
  none_signed k h = ground arith

  -- The seeds that the router signs with are those of the transient PDA.
  pub seeds_sign : AddressLaws rt → SeedsSign rt (buy_auth_pda rt user) (signer_seeds leg_route)
  seeds_sign laws = (_, Memᴰ.head refl, laws.found (buy_auth_seeds user))

  signers_sign :
      AddressLaws rt
      → (m : AccountMeta) → Memᴰ m (account_metas (buy_auth_pda rt user) leg.accounts)
      → m.is_signer ≡ true
      → SeedsSign rt m.pubkey (signer_seeds leg_route)
  signers_sign laws m member signed =
      elim (account_metas-signers (buy_auth_pda rt user) leg.accounts m member signed) [
        | inl same ↦ rw same (seeds_sign laws)
        | inr by ↦ elim (none_signed m.pubkey by) [ ]
      ]

  -- What the router forwards is a call of `swap`.
  pub venue_runs :
      {vr : Runtime}
      → AddressLaws rt
      → RunsMockSwap rt vr f
      → net < u64_mod
      → (ts : Tokens) → invoke_venue rt leg_route ts ≡ swap vr venue_accounts net net ts
  unfolding invoke_venue account_metas mock_swap_ix
  venue_runs laws venue fits ts =
      venue.runs venue_accounts net net _ (signer_seeds leg_route) ts fits fits refl
        (signers_sign laws)

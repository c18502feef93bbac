-- ===== src/Keeper/Settles.antt =====
-- A swap of keeper/native/daemon.mjs at the mock venue: programs/recurring-buy/src/lib.rs from the fee
-- transfer to the check of the outcome.
use solana_recurring_buy.Prelude.{
  ℕ, ◌+◌, ◌-◌, ◌≤◌, ◌<◌, ◌≡◌, ◌≢◌, inl, inr, refl, sym, ◌∙◌, ap, arith, some, ltb, Bool-cases,
}
use solana_recurring_buy.Errors.{ok}
use solana_recurring_buy.Word.{u64_mod}
use solana_recurring_buy.State.{Pubkey}
use solana_recurring_buy.Chain.{TokenAccount, Tokens, Runtime}
use solana_recurring_buy.Chain.Laws.{TransferLaws, AddressLaws}
use solana_recurring_buy.Chain.Progress.{TransferAccepts, Paid, Signs, transfer-Paid}
use solana_recurring_buy.Swap.{Route, skim_fee, fee_transfer, signer_seeds, swap_and_verify}
use solana_recurring_buy.Swap.Outcome.{Swapped-swap_and_verify}
use solana_recurring_buy.MockSwap.Exchange.{Apart}
use solana_recurring_buy.MockSwap.Success.{Stocked, Exchanged, swap_succeeds}
use solana_recurring_buy.Keeper.{Fixtures}
use solana_recurring_buy.Keeper.Daemon.{buy_auth_pda}
use solana_recurring_buy.Keeper.Venue.{
  RunsMockSwap, leg_route, venue_accounts, seeds_sign, venue_runs,
}

-- The program's own assumptions on a runtime and on the token program.
pub record Sound (rt : Runtime) : Type 0 where
  pub transfers : TransferLaws rt
  pub accepts : TransferAccepts rt
  pub addresses : AddressLaws rt

-- A fee that the transient account can pay is skimmed.
pub skim_succeeds :
    (rt : Runtime) (r : Route) (fee : ℕ) (ts : Tokens) (a b : TokenAccount)
    → Sound rt
    → ts r.transient.key ≡ some a
    → ts r.fee_ata.key ≡ some b
    → Signs rt r.buy_authority (signer_seeds r)
    → a.owner ≡ r.buy_authority.key
    → a.mint ≡ b.mint
    → fee ≤ a.amount
    → b.amount + fee < u64_mod
    → r.transient.key ≢ r.fee_ata.key
    → (skimmed : Tokens) × (skim_fee rt r fee ts ≡ ok skimmed)
      × Paid r.transient.key r.fee_ata.key fee ts a b skimmed
unfolding skim_fee
skim_succeeds rt r fee ts a b sound at to_at signs owner mint enough room apart =
    elim (Bool-cases (ltb 0 fee)) [
      | inl some_fee ↦ rw some_fee (
          transfer-Paid rt sound.transfers sound.accepts (fee_transfer r) (signer_seeds r) fee ts a
            b at to_at signs owner mint enough room apart)
      | inr no_fee ↦
          let none : fee ≡ 0 = ground arith in
          rw none (
            ts,
            refl,
            record {
              left = at ∙ ap (λ n. some (record a { amount = n })) (omega arith);
              gained = to_at ∙ ap (λ n. some (record b { amount = n })) (omega arith);
              others = λ k h1 h2. refl;
            },
          )
    ]

module _ (rt : Runtime) (f : Fixtures) (user from to fee_ata pool_in pool_out : Pubkey)
    (ts : Tokens) (transient dest charged : TokenAccount) where
  -- The token accounts of the swap of a crank: the pool has as much as the transient account, the
  -- receiving accounts have room for as much, and no account is another one.
  pub record Funded : Type 0 where
    pub source_pool : TokenAccount
    pub target_pool : TokenAccount
    pub transient_at : ts from ≡ some transient
    pub dest_at : ts to ≡ some dest
    pub fee_ata_at : ts fee_ata ≡ some charged
    pub source_pool_at : ts pool_in ≡ some source_pool
    pub target_pool_at : ts pool_out ≡ some target_pool
    pub transient_owner : transient.owner ≡ buy_auth_pda rt user
    pub pool_owner : target_pool.owner ≡ f.pool_authority
    pub fee_mint : transient.mint ≡ charged.mint
    pub mint_in : transient.mint ≡ source_pool.mint
    pub mint_out : target_pool.mint ≡ dest.mint
    pub stock : transient.amount ≤ target_pool.amount
    pub room_fee : charged.amount + transient.amount < u64_mod
    pub room_in : source_pool.amount + transient.amount < u64_mod
    pub room_out : dest.amount + transient.amount < u64_mod
    pub apart : Apart (venue_accounts rt f user from to fee_ata pool_in pool_out 0)
    pub fee_apart_transient : from ≢ fee_ata
    pub fee_apart_source : pool_in ≢ fee_ata
    pub fee_apart_target : pool_out ≢ fee_ata
    pub fee_apart_dest : to ≢ fee_ata

  -- The three accounts after a swap with a fee and a net input.
  pub record Settled (fee net : ℕ) (ts' : Tokens) : Type 0 where
    pub drained : ts' from ≡ some (record transient { amount = 0 })
    pub received : ts' to ≡ some (record dest { amount = dest.amount + net })
    pub paid : ts' fee_ata ≡ some (record charged { amount = charged.amount + fee })

module _ (rt vr : Runtime) (f : Fixtures) (user from to fee_ata pool_in pool_out : Pubkey)
    (fee net : ℕ) (ts : Tokens) (transient dest charged : TokenAccount)
    (funded : Funded rt f user from to fee_ata pool_in pool_out ts transient dest charged)
    (venue : RunsMockSwap rt vr f) (split : net + fee ≡ transient.amount) where
  stocked :
      (skimmed : Tokens)
      → Paid from fee_ata fee ts transient charged skimmed
      → Stocked vr
          (venue_accounts rt f user from to fee_ata pool_in pool_out net)
          net
          net
          skimmed
          (record transient { amount = transient.amount - fee })
          dest
  stocked skimmed p =
      let apart = funded.apart in
      record {
        pool_in = funded.source_pool;
        pool_out = funded.target_pool;
        source_at = p.left;
        pool_in_at =
            p.others pool_in (λ e. apart.source_pool (sym e)) funded.fee_apart_source
            ∙ funded.source_pool_at;
        pool_out_at =
            p.others pool_out (λ e. apart.source_target (sym e)) funded.fee_apart_target
            ∙ funded.target_pool_at;
        dest_at =
            p.others to (λ e. apart.source_dest (sym e)) funded.fee_apart_dest ∙ funded.dest_at;
        source_owner = funded.transient_owner;
        source_signed = ground arith;
        pool_owner = funded.pool_owner;
        mint_in = funded.mint_in;
        mint_out = funded.mint_out;
        some_in = omega (arith, split);
        some_out = omega (arith, split, funded.stock);
        room_in = omega (arith, split, funded.room_in);
        room_out = omega (arith, split, funded.room_out);
        source_writable = refl;
        pool_in_writable = refl;
        pool_out_writable = refl;
        dest_writable = refl;
        token_program = sym venue.same_token_program;
        authority = venue.pool_signer;
        apart = apart;
      }

  settled :
      (skimmed ts' : Tokens)
      → Paid from fee_ata fee ts transient charged skimmed
      → Exchanged
          (venue_accounts rt f user from to fee_ata pool_in pool_out net)
          net
          net
          skimmed
          ts'
          (record transient { amount = transient.amount - fee })
          dest
      → Settled rt f user from to fee_ata pool_in pool_out ts transient dest charged fee net ts'
  settled skimmed ts' p x = record {
    drained =
        x.source_left ∙ ap (λ n. some (record transient { amount = n })) (omega (arith, split));
    received = x.dest_gained;
    paid =
        x.others fee_ata (λ e. funded.fee_apart_transient (sym e))
          (λ e. funded.fee_apart_source (sym e)) (λ e. funded.fee_apart_target (sym e))
          (λ e. funded.fee_apart_dest (sym e))
        ∙ p.gained;
  }

  -- The swap of a crank succeeds at the mock venue.
  pub leg_settles :
      (min_out : ℕ)
      → Sound rt
      → Sound vr
      → net < u64_mod
      → min_out ≤ net
      → (ts' : Tokens) × (swap_and_verify rt
            (leg_route rt f user from to fee_ata pool_in pool_out net)
            fee
            dest.amount
            min_out
            ts
          ≡ ok (ts', net))
        × Settled rt f user from to fee_ata pool_in pool_out ts transient dest charged fee net ts'
  leg_settles min_out sound sound' fits enough =
      let r = leg_route rt f user from to fee_ata pool_in pool_out net in
      let (skimmed, skim, p) =
        skim_succeeds rt r fee ts transient charged sound funded.transient_at funded.fee_ata_at
          (inr (seeds_sign rt f user from to fee_ata pool_in pool_out net sound.addresses))
          funded.transient_owner funded.fee_mint (omega (arith, split))
          (omega (arith, split, funded.room_fee)) funded.fee_apart_transient in
      let (ts', call, x) =
        swap_succeeds vr _ net net skimmed _ dest (stocked skimmed p) sound'.transfers
          sound'.accepts sound'.addresses in
      let done = settled skimmed ts' p x in
      (
        ts',
        Swapped-swap_and_verify rt r fee dest.amount min_out ts ts' (record {
          skimmed = skimmed;
          skim = skim;
          call =
              venue_runs rt f user from to fee_ata pool_in pool_out net sound.addresses venue fits
                skimmed
              ∙ call;
          verified = record {
            transient = record transient { amount = 0 };
            dest = record dest { amount = dest.amount + net };
            transient_at = done.drained;
            dest_at = done.received;
            drained = refl;
            gained = refl;
            enough = enough;
          };
        }),
        done,
      )

-- ===== src/Swap/Outcome.antt =====
-- What a verified swap has done, in both directions, and what its signatures can reach.
use solana_recurring_buy.Prelude.{ℕ, ◌+◌, ◌≤◌, ◌≡◌, arith, some}
use solana_recurring_buy.Errors.{ok, >>=-eq-ok}
use solana_recurring_buy.Chain.{TokenAccount, Tokens, Runtime}
use solana_recurring_buy.Swap.{Route, skim_fee, invoke_venue, verify_outcome, swap_and_verify}

-- The verdict on the tokens after the call.
pub record Verified (r : Route) (dest_before min_out : ℕ) (tokens : Tokens) (out : ℕ) : Type 0 where
  pub transient : TokenAccount
  pub dest : TokenAccount
  pub transient_at : tokens r.transient.key ≡ some transient
  pub dest_at : tokens r.dest.key ≡ some dest
  pub drained : transient.amount ≡ 0
  pub gained : dest.amount ≡ dest_before + out
  pub enough : min_out ≤ out

pub record Swapped (rt : Runtime) (r : Route) (fee dest_before min_out : ℕ)
    (tokens tokens' : Tokens) (out : ℕ) : Type 0 where
  pub skimmed : Tokens
  pub skim : skim_fee rt r fee tokens ≡ ok skimmed
  pub call : invoke_venue rt r skimmed ≡ ok tokens'
  pub verified : Verified r dest_before min_out tokens' out

module _ (rt : Runtime) (r : Route) where
  pub verify_outcome-Verified :
      (dest_before min_out : ℕ) (tokens : Tokens) {out : ℕ}
      → verify_outcome rt r dest_before min_out tokens ≡ ok out
      → Verified r dest_before min_out tokens out
  unfolding verify_outcome
  verify_outcome-Verified dest_before min_out tokens h = ground arith

  pub Verified-verify_outcome :
      (dest_before min_out : ℕ) (tokens : Tokens) {out : ℕ}
      → Verified r dest_before min_out tokens out
      → verify_outcome rt r dest_before min_out tokens ≡ ok out
  unfolding verify_outcome
  Verified-verify_outcome dest_before min_out tokens v = ground arith

  pub swap_and_verify-Swapped :
      (fee dest_before min_out : ℕ) (tokens tokens' : Tokens) {out : ℕ}
      → swap_and_verify rt r fee dest_before min_out tokens ≡ ok (tokens', out)
      → Swapped rt r fee dest_before min_out tokens tokens' out
  unfolding swap_and_verify
  swap_and_verify-Swapped fee dest_before min_out tokens tokens' h =
      let (skimmed, e1, h1) = >>=-eq-ok (skim_fee rt r fee tokens) _ h in
      let (swapped, e2, h2) = >>=-eq-ok (invoke_venue rt r skimmed) _ h1 in
      let (out', e3, h3) = >>=-eq-ok (verify_outcome rt r dest_before min_out swapped) _ h2 in
      record {
        skimmed = skimmed;
        skim = e1;
        call = ground arith;
        verified = verify_outcome-Verified dest_before min_out tokens' (ground arith);
      }

  pub Swapped-swap_and_verify :
      (fee dest_before min_out : ℕ) (tokens tokens' : Tokens) {out : ℕ}
      → Swapped rt r fee dest_before min_out tokens tokens' out
      → swap_and_verify rt r fee dest_before min_out tokens ≡ ok (tokens', out)
  unfolding swap_and_verify
  Swapped-swap_and_verify fee dest_before min_out tokens tokens' s =
      rw (s.skim, s.call, Verified-verify_outcome dest_before min_out tokens' s.verified)

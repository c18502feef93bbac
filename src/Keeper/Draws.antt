-- ===== src/Keeper/Draws.antt =====
-- The pull of `crankSell` and of `amortizedDraw` against the amortization cap of `execute_sell`
-- (programs/recurring-buy/src/lib.rs).
use native.Mathlib.Nat.{
  le-div_iff_mul-le, div-mul-le_self, mul-le-mul_left, mul-le-mul_right, le-add_left,
}
use solana_recurring_buy.Prelude.{
  ℕ, ◌+◌, ◌-◌, ◌*◌, ◌/◌, ◌≤◌, ◌<◌, ◌≡◌, ◌↔◌, ◌∙◌, ap, arith, false, some, [], ◌∷◌,
}
use solana_recurring_buy.Prelude.Int.{ℤ, pos, pos_part, ◌-ℤ◌, leb_ℤ}
use solana_recurring_buy.Errors.{ok}
use solana_recurring_buy.Word.{u64_mod}
use solana_recurring_buy.State.{Pubkey, SellPlan}
use solana_recurring_buy.State.Valid.{eq-pos}
use solana_recurring_buy.State.Periods.{periods_left}
use solana_recurring_buy.Schedule.{check_cap}
use solana_recurring_buy.Schedule.Cap.{check_cap_iff, periods_left_pos}
use solana_recurring_buy.Chain.{Runtime}
use solana_recurring_buy.Keeper.{Fixtures, Client, Delegation, FeeView, Ix, sent}
use solana_recurring_buy.Keeper.Daemon.{bal, ata, buy_auth_pda}
use solana_recurring_buy.Keeper.Cranks.{create_transient, sell_ix, draw_plan}
use solana_recurring_buy.Keeper.Layout.{view_of}
use solana_recurring_buy.Keeper.Numbers.{max_safe_integer, max_number, at_least_one}
use solana_recurring_buy.Keeper.Amounts.{available, capped_pull, sell_pull, amortized_draw}
use solana_recurring_buy.Keeper.Values.{
  least, add_exact, available_nonneg, sell_pull_exact, at_least_one_pos, at_least_one_exact,
  capped_pull_exact,
}

-- What the residue leaves of the cap.
abbrev pub room : ℕ → ℕ → ℕ → ℕ
room pot residue periods = (pot + residue) / periods - residue

clamped : (end now : ℕ) → max_number (pos end -ℤ pos now) (pos 0) ≡ pos (end - now)
unfolding ◌-ℤ◌
clamped end now = ground arith

amortized_draw_exact :
    (pot end period now residue : ℕ)
    → 0 < period
    → amortized_draw (pos pot) (pos end) (pos period) (pos now) (pos residue)
      ≡ some (pos (room pot residue (periods_left end now period)))
unfolding amortized_draw capped_pull
amortized_draw_exact pot end period now residue h =
    rw (clamped end now, at_least_one_pos (end - now) period h)
      (ap some (capped_pull_exact pot residue (periods_left end now period)))

module _ (p : SellPlan) (end now period pot residue x : ℕ) (e : p.end_ts ≡ pos end)
    (q : p.period_secs ≡ pos period) (hq : 0 < period) (he : end ≤ max_safe_integer)
    (hn : now ≤ max_safe_integer) (hx : x ≤ pot) (hp : pot + residue < u64_mod) where
  -- A pull passes the cap when it and the residue, taken once for each period, fit the pot.
  pull_passes :
      (check_cap p (pos now) (pot - x) (x + residue) ≡ ok tt)
      ↔ ((x + residue) * periods_left end now period ≤ pot + residue)
  pull_passes =
      let both : pot - x + (x + residue) ≡ pot + residue = omega arith in
      let i =
        check_cap_iff p end now period (pot - x) (x + residue) e q hq (omega arith) (omega arith)
          (omega arith) (omega arith) in
      (λ h. rw (← both) (i.0 h), λ h. i.1 (rw both h))

  share :
      (b : ℕ)
      → (b ≤ (pot + residue) / periods_left end now period)
        ↔ (b * periods_left end now period ≤ pot + residue)
  share b = le-div_iff_mul-le (periods_left_pos end now period)

  -- The periods that the daemon counts, and its pull for a delegation.
  periods_found :
      at_least_one (p.end_ts -ℤ pos now) p.period_secs ≡ some (pos (periods_left end now period))
  periods_found = rw (e, q) (at_least_one_exact end now period hq)

  daemon_pull :
      (del : Delegation)
      → sell_pull
          (pos pot)
          (pos residue)
          (pos (periods_left end now period))
          (available del (pos now))
        ≡ pos (
            least
              (room pot residue (periods_left end now period))
              (pos_part (available del (pos now))))
  daemon_pull del =
      ap (sell_pull (pos pot) (pos residue) (pos (periods_left end now period)))
        (eq-pos (available del (pos now)) (available_nonneg del (pos now)))
      ∙ sell_pull_exact pot residue (periods_left end now period) _

  -- The two keepers pull as much as the program lets them. For a plan with an end and a positive
  -- period that are natural numbers, an end and a time that JavaScript holds exactly, and a pot and a
  -- residue that together are a 64-bit number, there is an amount such that the client pulls it, the
  -- daemon pulls it or what the delegation has available, whichever is less, and the program's cap
  -- passes a pull from the pot exactly when the residue in the transient account is within the share
  -- of one period and the pull is at most that amount.
  pub pull_is_largest :
      (del : Delegation)
      → (periods : ℤ) × (m : ℕ) × (avail : ℕ) × (at_least_one (p.end_ts -ℤ pos now) p.period_secs
          ≡ some periods)
        × (available del (pos now) ≡ pos avail)
        × (sell_pull (pos pot) (pos residue) periods (available del (pos now))
            ≡ pos (least m avail))
        × (amortized_draw (pos pot) p.end_ts p.period_secs (pos now) (pos residue) ≡ some (pos m))
        × ((check_cap p (pos now) (pot - x) (x + residue) ≡ ok tt)
            ↔ ((residue * periods_left end now period ≤ pot + residue) × (x ≤ m)))
  pull_is_largest del =
      let n = periods_left end now period in
      (
        pos n,
        room pot residue n,
        pos_part (available del (pos now)),
        periods_found,
        eq-pos (available del (pos now)) (available_nonneg del (pos now)),
        daemon_pull del,
        rw (e, q) (amortized_draw_exact pot end period now residue hq),
        (
          λ h.
              let all = pull_passes.0 h in
              (
                omega (arith, all, mul-le-mul_right n (le-add_left residue x)),
                omega (arith, (share (x + residue)).1 all),
              ),
          λ h. pull_passes.1 ((share (x + residue)).0 (omega (arith, h.1, (share residue).1 h.0))),
        ),
      )

  module _ (over : pot + residue < residue * periods_left end now period) where
    no_room : room pot residue (periods_left end now period) ≡ 0
    no_room =
        let short : ¬ (residue ≤ (pot + residue) / periods_left end now period) =
          λ h. omega (arith, over, (share residue).0 h) in
        omega (arith, short)

    some_residue : 0 < residue
    some_residue = grind arith

    -- For a plan with an end and a positive period that are natural numbers, an end and a time that
    -- JavaScript holds exactly, and a pot and a residue that together are a 64-bit number: when the
    -- residue alone is above the share of one period, the client pulls nothing; the daemon, which
    -- reads that pot and that residue, pulls nothing either but sends `execute_sell` with the
    -- residue as its input; and the program's cap passes no pull from the pot, nothing among them.
    pub residue_blocks :
        (rt : Runtime) (f : Fixtures) (client : Client) (keeper : Pubkey) (del : Delegation)
        (event_authority : Pubkey) (view : FeeView)
        → bal client (ata rt del.delegator f.target) ≡ pos pot
        → bal client (ata rt (buy_auth_pda rt del.delegator) f.target) ≡ pos residue
        → (amortized_draw (pos pot) p.end_ts p.period_secs (pos now) (pos residue) ≡ some (pos 0))
          × (draw_plan rt f client keeper del (pos now) event_authority view (view_of rt p)
              ≡ some (
                  sent (
                    create_transient rt f del.delegator f.target
                    ∷ Ix.create_ata (ata rt del.delegator f.usdc) del.delegator f.usdc
                    ∷ sell_ix rt f keeper del.delegator (view_of rt p) view (pos residue)
                    ∷ [])))
          × ¬ (check_cap p (pos now) (pot - x) (x + residue) ≡ ok tt)
    unfolding draw_plan
    residue_blocks rt f client keeper del event_authority view pot_seen residue_seen =
        let n = periods_left end now period in
        let pulls_none : sell_pull (pos pot) (pos residue) (pos n) (available del (pos now))
            ≡ pos 0 =
          daemon_pull del ∙ rw no_room (ap pos (ground arith)) in
        let some_input : leb_ℤ (pos residue) (pos 0) ≡ false = ground (arith, some_residue) in
        (
          rw (e, q, ← no_room) (amortized_draw_exact pot end period now residue hq),
          rw (periods_found, pot_seen, residue_seen, pulls_none, some_input)
              (ap
                (λ y. some (
                  sent (
                    create_transient rt f del.delegator f.target
                    ∷ Ix.create_ata (ata rt del.delegator f.usdc) del.delegator f.usdc
                    ∷ sell_ix rt f keeper del.delegator (view_of rt p) view y
                    ∷ [])))
                (add_exact 0 residue ∙ ap pos (omega arith))),
          λ h. omega (arith, over, pull_passes.0 h, mul-le-mul_right n (le-add_left residue x)),
        )

periods_fall :
    (end now later period : ℕ)
    → now ≤ later
    → 0 < period
    → periods_left end later period ≤ periods_left end now period
periods_fall end now later period h hp =
    let fewer : (end - later) / period ≤ (end - now) / period =
      (le-div_iff_mul-le hp).1 (omega (arith, div-mul-le_self (end - later) period)) in
    ground arith

-- A draw that fits the share at one time fits it at every later time.
pub draw_fits :
    (end now later period pot residue x : ℕ)
    → now ≤ later
    → 0 < period
    → residue * periods_left end now period ≤ pot + residue
    → x ≤ room pot residue (periods_left end now period)
    → (x + residue) * periods_left end later period ≤ pot + residue
draw_fits end now later period pot residue x h hp fits small =
    let n = periods_left end now period in
    let inside : residue ≤ (pot + residue) / n =
      (le-div_iff_mul-le (periods_left_pos end now period)).1 fits in
    let all : (x + residue) * n ≤ pot + residue =
      (le-div_iff_mul-le (periods_left_pos end now period)).0 (omega (arith, inside, small)) in
    omega (arith, all, mul-le-mul_left (x + residue) (periods_fall end now later period h hp))

-- ===== src/Keeper/Tick.antt =====
-- keeper/native/daemon.mjs: `tick` selects one delegation for each delegator and mint, and cranks
-- it. The map `best` is the list of its values, in the order in which their keys came in.
use solana_recurring_buy.Prelude.{
  Bool, ◌&&◌, ◌||◌, Option, some, List, [], ◌∷◌, ◌==◌, if◌then◌else◌,
}
use solana_recurring_buy.Prelude.Int.{ℤ, ltb_ℤ}
use solana_recurring_buy.State.{Pubkey}
use solana_recurring_buy.Chain.{Runtime}
use solana_recurring_buy.Keeper.{Fixtures, Client, Delegation, FeeView, Crank}
use solana_recurring_buy.Keeper.Cranks.{crank_buy, crank_sell}

abbrev pub is_relevant : Fixtures → Delegation → Bool
is_relevant f d = d.mint == f.usdc || d.mint == f.target

-- The keys of the map, a delegator and a mint, are equal.
abbrev pub same_key : Delegation → Delegation → Bool
same_key d b = d.delegator == b.delegator && d.mint == b.mint

abbrev pub later : Delegation → Delegation → Delegation
later d cur = if ltb_ℤ cur.expiry_ts d.expiry_ts then d else cur

-- `best.set(key, d)` where the key is new or `d` expires later than its value.
unfoldable pub consider : Delegation → List Delegation → List Delegation
consider d [] = d ∷ []
consider d (cur ∷ rest) =
    let others = consider d rest in if same_key d cur then later d cur ∷ rest else cur ∷ others

unfoldable pub select : Fixtures → List Delegation → List Delegation → List Delegation
select f best [] = best
select f best (d ∷ dels) = select f (if is_relevant f d then consider d best else best) dels

-- One turn of the loop; `client` is what the node answers in that turn.
unfoldable pub crank :
    Runtime
    → Fixtures
    → Client
    → (keeper : Pubkey) → Delegation
    → ℤ
    → Pubkey
    → FeeView
    → Option Crank
crank rt f client keeper d now event_authority fee_cfg =
    if d.mint == f.usdc
    then some (crank_buy rt f client keeper d now event_authority fee_cfg)
    else crank_sell rt f client keeper d now event_authority fee_cfg

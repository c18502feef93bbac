-- ===== src/Admin/Venues.antt =====
-- The whitelist: `set_swap_programs` of Admin and `Config::is_whitelisted` of programs/recurring-
-- buy/src/state.rs.
use solana_recurring_buy.Prelude.{
  ◌≤◌, ◌≡◌, refl, sym, ◌∙◌, subst, ap, arith, List, [], ◌∷◌, length, take, contains,
}
use solana_recurring_buy.Errors.{ok, ok-injective}
use solana_recurring_buy.State.{Pubkey, Config, max_swap_programs, is_whitelisted}
use solana_recurring_buy.State.Valid.{IsValidConfig}
use solana_recurring_buy.Admin.{fill_from, set_swap_programs}

-- The configuration `cfg'` is `cfg` with exactly the programs of `ps` whitelisted.
pub record Listed (ps : List Pubkey) (cfg cfg' : Config) : Type 0 where
  pub slots : length cfg'.swap_programs ≡ max_swap_programs
  pub count : cfg'.swap_program_count ≡ length ps
  pub rest :
      cfg' ≡ record cfg { swap_programs = cfg'.swap_programs; swap_program_count = length ps }
  pub listed : (k : Pubkey) → is_whitelisted cfg' k ≡ ok (contains ps k)

-- A list of at most three venues is stored without a panic, in place of whatever was listed before:
-- afterwards a program is whitelisted exactly if it is in the list, the array keeps its three
-- slots, the count is the list's length, and nothing else of the configuration has changed.
pub set_swap_programs_lists :
    (ps : List Pubkey) (cfg : Config)
    → length ps ≤ max_swap_programs
    → (cfg' : Config) × (set_swap_programs ps cfg ≡ ok cfg') × Listed ps cfg cfg'
unfolding set_swap_programs fill_from is_whitelisted
set_swap_programs_lists [] cfg h =
    (_, refl, record { slots = refl; count = refl; rest = refl; listed = λ k. refl })
set_swap_programs_lists (a ∷ []) cfg h =
    (_, refl, record { slots = refl; count = refl; rest = refl; listed = λ k. refl })
set_swap_programs_lists (a ∷ b ∷ []) cfg h =
    (_, refl, record { slots = refl; count = refl; rest = refl; listed = λ k. refl })
set_swap_programs_lists (a ∷ b ∷ c ∷ []) cfg h =
    (_, refl, record { slots = refl; count = refl; rest = refl; listed = λ k. refl })
set_swap_programs_lists (a ∷ b ∷ c ∷ d ∷ ps) cfg h = absurd (omega arith)

pub set_swap_programs-Listed :
    (ps : List Pubkey) (cfg cfg' : Config)
    → length ps ≤ max_swap_programs
    → set_swap_programs ps cfg ≡ ok cfg'
    → Listed ps cfg cfg'
set_swap_programs-Listed ps cfg cfg' le h =
    let (made, e, l) = set_swap_programs_lists ps cfg le in
    subst (Listed ps cfg) (ok-injective (sym e ∙ h)) l

-- A configuration whose other fields are in range is well formed once its venues are stored.
pub Listed-IsValidConfig :
    (ps : List Pubkey) (cfg cfg' : Config)
    → Listed ps cfg cfg'
    → length ps ≤ max_swap_programs
    → IsValidConfig cfg
    → IsValidConfig cfg'
Listed-IsValidConfig ps cfg cfg' l le v = record {
  slots = l.slots;
  counted = rw l.count le;
  slippage = rw (ap (λ (c : Config). c.max_slippage_bps) l.rest) v.slippage;
  scale = rw (ap (λ (c : Config). c.target_decimals) l.rest) v.scale;
  price = rw (ap (λ (c : Config). c.price_ref_micros) l.rest) v.price;
}

-- On a well-formed configuration the test of a venue does not panic.
pub is_whitelisted_total :
    (cfg : Config) (k : Pubkey)
    → IsValidConfig cfg
    → is_whitelisted cfg k ≡ ok (contains (take cfg.swap_program_count cfg.swap_programs) k)
unfolding is_whitelisted
is_whitelisted_total cfg k v = ground (arith, v.slots, v.counted)

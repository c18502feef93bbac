-- ===== src/Errors.antt =====
-- programs/recurring-buy/src/errors.rs: the error codes, and `Result` with its chains.
-- Besides `BuyError` a call may end in one of Anchor's account errors, in an error that another
-- program returned, or in a panic (an unchecked operation under `overflow-checks = true`). Each of
-- them reverts the transaction.
use solana_recurring_buy.Prelude.{ℕ, ◌≡◌, refl, Bool, true, false, Option, none, some}

pub data BuyError : Type 0 where
  paused : BuyError
  destination_not_owner : BuyError
  wrong_target_mint : BuyError
  bad_transient : BuyError
  nothing_pulled : BuyError
  venue_not_whitelisted : BuyError
  floor_not_configured : BuyError
  min_out_too_low : BuyError
  transient_not_drained : BuyError
  slippage_exceeded : BuyError
  too_many_venues : BuyError
  overflow : BuyError
  bad_param : BuyError
  not_due : BuyError
  overdraw_schedule : BuyError
  plan_completed : BuyError
  bad_pot_account : BuyError
  bad_fee_account : BuyError
  fee_too_high : BuyError

-- The errors of Anchor's account validation that the `#[account(...)]` attributes can give.
pub data AnchorError : Type 0 where
  constraint_mut constraint_has_one constraint_seeds : AnchorError
  account_not_signer account_not_initialized account_discriminator_mismatch : AnchorError
  constraint_close invalid_program_id : AnchorError

pub data Error : Type 0 where
  buy : BuyError → Error
  anchor : AnchorError → Error
  program : ℕ → Error
  panicked : Error

pub data Result (T : Type 0) : Type 0 where
  ok : (value : T) → Result T
  err : (error : Error) → Result T

-- The `?` of a chain: the rest runs on the value, and an error ends the chain.
infixl 5 ◌>>=◌ ◌>>◌
abbrev pub ◌>>=◌ : {T U : Type 0} → Result T → (T → Result U) → Result U
◌>>=◌ (err error) rest = err error
◌>>=◌ (ok value) rest = rest value

abbrev pub ◌>>◌ : {U : Type 0} → Result (Unit {0}) → Result U → Result U
first >> rest = first >>= λ done. rest

-- `require!(test, error)`.
abbrev pub require : Bool → BuyError → Result (Unit {0})
require true e = ok tt
require false e = err (buy e)

-- A constraint of an `#[account(...)]` attribute.
abbrev pub constrain : Bool → AnchorError → Result (Unit {0})
constrain true e = ok tt
constrain false e = err (anchor e)

-- `option.ok_or(error)?`.
abbrev pub ok_or : {A : Type 0} → Option A → BuyError → Result A
ok_or none e = err (buy e)
ok_or (some a) e = ok a

-- Rust's unchecked operations: the result, or a panic.
abbrev pub or_panic : {A : Type 0} → Option A → Result A
or_panic none = err panicked
or_panic (some a) = ok a

-- A chain that succeeded, read backwards: its first part had a value, on which the rest succeeded.
pub >>=-eq-ok :
    {T U : Type 0} (first : Result T) (rest : T → Result U) {last : U}
    → (first >>= rest) ≡ ok last
    → (value : T) × (first ≡ ok value) × (rest value ≡ ok last)
>>=-eq-ok (err error) rest h = cc
>>=-eq-ok (ok value) rest h = (value, refl, h)

pub require-eq-ok :
    {T : Type 0} (test : Bool) (error : BuyError) (rest : Result T) {last : T}
    → (require test error >> rest) ≡ ok last
    → (test ≡ true) × (rest ≡ ok last)
require-eq-ok false error rest h = cc
require-eq-ok true error rest h = (refl, h)

-- The value of a chain that succeeded.
abbrev pub value_of : Result ℕ → ℕ
value_of (ok n) = n
value_of (err e) = 0

pub ok-injective : {A : Type 0} {a b : A} → ok a ≡ ok b → a ≡ b
ok-injective h = cc

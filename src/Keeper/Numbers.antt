-- ===== src/Keeper/Numbers.antt =====
-- What keeper/native/daemon.mjs and keeper/keeper.ts use of JavaScript's numbers and byte arrays.
-- A `BigInt`, and a `Number` that holds an integer, is an integer; a `Number` is exact up to 2^53,
-- and the division of two such numbers that `Math.floor` ends is as well.
use solana_recurring_buy.Prelude.{
  ℕ, zero, suc, ◌+◌, ◌-◌, ◌*◌, ◌/◌, ◌%◌, ◌&&◌, not, Option, none, some, List, [], ◌∷◌, ltb, leb,
  length, take, drop, if◌then◌else◌,
}
use solana_recurring_buy.Prelude.Int.{ℤ, pos, negsuc, ◌-ℤ◌, ◌*ℤ◌, ◌/ℤ◌, ltb_ℤ, eqb_ℤ}

-- `Number.MAX_SAFE_INTEGER`.
abbrev pub max_safe_integer : ℕ
max_safe_integer = 9_007_199_254_740_991

-- A JavaScript exception is `none`.
infixl 5 ◌>>=◌
abbrev pub ◌>>=◌ : {A B : Type 0} → Option A → (A → Option B) → Option B
◌>>=◌ none rest = none
◌>>=◌ (some a) rest = rest a

-- `x & 0xffn` and `x >>= 8n`, of two's complement.
abbrev low_byte : ℤ → ℕ
low_byte (pos n) = n % 256
low_byte (negsuc n) = 255 - n % 256

abbrev shift_byte : ℤ → ℤ
shift_byte (pos n) = pos (n / 256)
shift_byte (negsuc n) = negsuc (n / 256)

unfoldable pub low_bytes : ℕ → ℤ → List ℕ
low_bytes zero x = []
low_bytes (suc k) x = low_byte x ∷ low_bytes k (shift_byte x)

abbrev pub u64 : ℤ → List ℕ
u64 v = low_bytes 8 v

-- `v >>> 0` keeps 32 bits.
abbrev pub u32 : ℕ → List ℕ
u32 v = low_bytes 4 (pos (v % 4_294_967_296))

-- The number that bytes stand for, the lowest first.
unfoldable pub le_value : List ℕ → ℕ
le_value [] = 0
le_value (b ∷ bs) = b + 256 * le_value bs

abbrev pub subarray : ℕ → ℕ → List ℕ → List ℕ
subarray from to d = take (to - from) (drop from d)

-- `d.readUInt16LE(offset)` and `d.readBigInt64LE(offset)`; they throw past the end.
unfoldable pub read_uint16_le : List ℕ → ℕ → Option ℕ
read_uint16_le d offset =
    if leb (offset + 2) (length d) then some (le_value (take 2 (drop offset d))) else none

abbrev signed_64 : ℕ → ℤ
signed_64 v =
    if ltb v 9_223_372_036_854_775_808 then pos v else negsuc (18_446_744_073_709_551_615 - v)

unfoldable pub read_bigint64_le : List ℕ → ℕ → Option ℤ
read_bigint64_le d offset =
    if leb (offset + 8) (length d)
    then some (signed_64 (le_value (take 8 (drop offset d))))
    else none

-- `Math.max(a, b)`.
abbrev pub max_number : ℤ → ℤ → ℤ
max_number a b = if ltb_ℤ a b then b else a

-- `Math.floor(a / b)` for b that is not 0: the quotient rounds down.
unfoldable pub floor_div : ℤ → ℤ → ℤ
floor_div a b =
    let q = a /ℤ b in if ltb_ℤ (a *ℤ b) (pos 0) && not (eqb_ℤ (q *ℤ b) a) then q -ℤ pos 1 else q

-- `BigInt(Math.max(Math.floor(a / b), 1))`. A division by zero gives an infinity or NaN: the
-- negative infinity ends as 1, and `BigInt` throws on the others.
unfoldable pub at_least_one : ℤ → ℤ → Option ℤ
unfolding floor_div
at_least_one a b =
    if eqb_ℤ b (pos 0)
    then if ltb_ℤ a (pos 0) then some (pos 1) else none
    else some (max_number (floor_div a b) (pos 1))

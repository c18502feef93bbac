-- ===== src/Keeper/Fields.antt =====
-- The readers of keeper/native/daemon.mjs (`readBigInt64LE`, `readUInt16LE`, `subarray`) on bytes that
-- were put one after the other.
use mathlib.Core.List.{append_assoc}
use solana_recurring_buy.Prelude.{
  true, leb, le→leb, lt→ltb, ℕ, zero, suc, ◌+◌, ◌≤◌, ◌<◌, ◌≡◌, refl, sym, ◌∙◌, ap, subst, arith,
  some, List, [], ◌∷◌, ◌++◌, length, take, drop,
}
use solana_recurring_buy.Prelude.Int.{ℤ, pos, pos_part, ◌≤ℤ◌}
use solana_recurring_buy.Word.{i64_max}
use solana_recurring_buy.State.Valid.{eq-pos}
use solana_recurring_buy.Keeper.Numbers.{low_bytes, le_value, u64, read_bigint64_le, read_uint16_le}
use solana_recurring_buy.Keeper.Values.{le_value-low_bytes}

module _ {A : Type 0} where
  pub length-append : (xs ys : List A) → length (xs ++ ys) ≡ length xs + length ys
  length-append [] ys = omega arith
  length-append (x ∷ xs) ys = let rest = length-append xs ys in omega arith

  drop_past : (xs ys : List A) → drop (length xs) (xs ++ ys) ≡ ys
  drop_past [] ys = refl
  drop_past (x ∷ xs) ys = drop_past xs ys

  take_first : (xs ys : List A) → take (length xs) (xs ++ ys) ≡ xs
  take_first [] ys = refl
  take_first (x ∷ xs) ys = ap (λ zs. x ∷ zs) (take_first xs ys)

pub length-low_bytes : (k : ℕ) (x : ℤ) → length (low_bytes k x) ≡ k
unfolding low_bytes
length-low_bytes zero x = refl
length-low_bytes (suc k) x = ap suc (length-low_bytes k _)

-- The bytes that stand after the first ones.
pub field_at :
    (xs ys zs : List ℕ) (offset n : ℕ)
    → length xs ≡ offset
    → length ys ≡ n
    → take n (drop offset (xs ++ ys ++ zs)) ≡ ys
field_at xs ys zs offset n hx hy =
    rw (append_assoc xs ys zs, ← hx, ← hy, drop_past xs (ys ++ zs)) (take_first ys zs)

within : (xs ys zs : List ℕ) → length xs + length ys ≤ length (xs ++ ys ++ zs)
within xs ys zs = rw (length-append (xs ++ ys) zs, length-append xs ys) (omega arith)

i64_at :
    (xs zs : List ℕ) (offset v : ℕ)
    → length xs ≡ offset
    → v < 9_223_372_036_854_775_808
    → read_bigint64_le (xs ++ u64 (pos v) ++ zs) offset ≡ some (pos v)
unfolding read_bigint64_le
i64_at xs zs offset v hx hv =
    let long : leb (offset + 8) (length (xs ++ u64 (pos v) ++ zs)) ≡ true =
      le→leb _ _ (omega (arith, within xs (u64 (pos v)) zs, hx, length-low_bytes 8 (pos v))) in
    rw
      (
        long,
        field_at xs (u64 (pos v)) zs offset 8 hx (length-low_bytes 8 (pos v)),
        le_value-low_bytes 8 v (omega arith),
        lt→ltb v 9_223_372_036_854_775_808 hv,
      )
      refl

-- A field of a struct, found at its offset.
pub field_reads :
    (d xs zs : List ℕ) (offset : ℕ) (z : ℤ)
    → d ≡ xs ++ u64 z ++ zs
    → length xs ≡ offset
    → pos 0 ≤ℤ z
    → z ≤ℤ i64_max
    → read_bigint64_le d offset ≡ some z
field_reads d xs zs offset z layout hx low high =
    ap (λ e. read_bigint64_le e offset) layout
    ∙ subst (λ y. read_bigint64_le (xs ++ u64 y ++ zs) offset ≡ some y) (sym (eq-pos z low))
        (i64_at xs zs offset (pos_part z) hx (ground (arith, low, high)))

pub u16_at :
    (xs ys zs : List ℕ) (offset : ℕ)
    → length xs ≡ offset
    → length ys ≡ 2
    → read_uint16_le (xs ++ ys ++ zs) offset ≡ some (le_value ys)
unfolding read_uint16_le
u16_at xs ys zs offset hx hy =
    let long : leb (offset + 2) (length (xs ++ ys ++ zs)) ≡ true =
      le→leb _ _ (omega (arith, within xs ys zs, hx, hy)) in
    rw (long, field_at xs ys zs offset 2 hx hy) refl

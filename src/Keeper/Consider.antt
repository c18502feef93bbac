-- ===== src/Keeper/Consider.antt =====
-- keeper/native/daemon.mjs: one turn of the loop in `tick` that fills the map `best`.
use mathlib.Core.List.{Memᴰ}
use solana_recurring_buy.Prelude.{
  ◌≡◌, refl, sym, ◌∙◌, subst, arith, true, false, List, [], ◌∷◌, ◌⊎◌, inl, inr, Bool-cases,
}
use solana_recurring_buy.Prelude.Int.{◌≤ℤ◌}
use solana_recurring_buy.Keeper.{Delegation}
use solana_recurring_buy.Keeper.Tick.{same_key, later, consider}

same_key_refl : (d : Delegation) → same_key d d ≡ true
same_key_refl d = ground arith

same_key_trans :
    (a b c : Delegation) → same_key a b ≡ true → same_key b c ≡ true → same_key a c ≡ true
same_key_trans a b c h k = ground arith

later_same : (d cur : Delegation) → same_key d cur ≡ true → same_key d (later d cur) ≡ true
later_same d cur h = ground arith

later_same_old : (d cur : Delegation) → same_key d cur ≡ true → same_key cur (later d cur) ≡ true
later_same_old d cur h = ground arith

later_new : (d cur : Delegation) → d.expiry_ts ≤ℤ (later d cur).expiry_ts
later_new d cur = ground arith

later_old : (d cur : Delegation) → cur.expiry_ts ≤ℤ (later d cur).expiry_ts
later_old d cur = ground arith

later_one : (d cur : Delegation) → (later d cur ≡ d) ⊎ (later d cur ≡ cur)
later_one d cur = ground arith

-- The list has a delegation of the same delegator and mint that expires no earlier.
pub record Covered (d : Delegation) (best : List Delegation) : Type 0 where
  pub value : Delegation
  pub inside : Memᴰ value best
  pub same : same_key d value ≡ true
  pub no_earlier : d.expiry_ts ≤ℤ value.expiry_ts

Covered-tail :
    {d cur : Delegation} {rest : List Delegation} → Covered d rest → Covered d (cur ∷ rest)
Covered-tail c = record {
  value = c.value;
  inside = Memᴰ.tail c.inside;
  same = c.same;
  no_earlier = c.no_earlier;
}

pub consider_new : (d : Delegation) (best : List Delegation) → Covered d (consider d best)
unfolding consider
consider_new d [] = record {
  value = d;
  inside = Memᴰ.head refl;
  same = same_key_refl d;
  no_earlier = ground arith;
}
consider_new d (cur ∷ rest) = elim (Bool-cases (same_key d cur)) [
  | inl same ↦ rw same (record {
    value = later d cur;
    inside = Memᴰ.head refl;
    same = later_same d cur same;
    no_earlier = later_new d cur;
  })
  | inr other ↦ rw other (Covered-tail (consider_new d rest))
]

module _ (d x : Delegation) where
  keep_head :
      (cur : Delegation) (rest : List Delegation) (value : Delegation)
      → value ≡ cur
      → same_key x value ≡ true
      → x.expiry_ts ≤ℤ value.expiry_ts
      → Covered x (consider d (cur ∷ rest))
  unfolding consider
  keep_head cur rest value e same_x no_earlier = elim (Bool-cases (same_key d cur)) [
    | inl same ↦ rw same (record {
      value = later d cur;
      inside = Memᴰ.head refl;
      same =
          same_key_trans x cur (later d cur) (subst (λ y. same_key x y ≡ true) e same_x)
            (later_same_old d cur same);
      no_earlier = omega (
        arith,
        subst (λ (y : Delegation). x.expiry_ts ≤ℤ y.expiry_ts) e no_earlier,
        later_old d cur,
      );
    })
    | inr other ↦
        rw other
          (record { value = value; inside = Memᴰ.head e; same = same_x; no_earlier = no_earlier })
  ]

  pub consider_keeps :
      (best : List Delegation) (value : Delegation)
      → Memᴰ value best
      → same_key x value ≡ true
      → x.expiry_ts ≤ℤ value.expiry_ts
      → Covered x (consider d best)
  unfolding consider
  consider_keeps [] value inside same_x no_earlier = elim inside [ ]
  consider_keeps (cur ∷ rest) value (Memᴰ.head e) same_x no_earlier =
      keep_head cur rest value e same_x no_earlier
  consider_keeps (cur ∷ rest) value (Memᴰ.tail inside) same_x no_earlier =
      elim (Bool-cases (same_key d cur)) [
        | inl same ↦ rw same (record {
          value = value;
          inside = Memᴰ.tail inside;
          same = same_x;
          no_earlier = no_earlier;
        })
        | inr other ↦ rw other (Covered-tail (consider_keeps rest value inside same_x no_earlier))
      ]

  from_later :
      (cur : Delegation) (rest : List Delegation)
      → Memᴰ x (later d cur ∷ rest)
      → (x ≡ d) ⊎ Memᴰ x (cur ∷ rest)
  from_later cur rest (Memᴰ.head e) = elim (later_one d cur) [
    | inl new ↦ inl (e ∙ new)
    | inr old ↦ inr (Memᴰ.head (e ∙ old))
  ]
  from_later cur rest (Memᴰ.tail h) = inr (Memᴰ.tail h)

  from_rest :
      (cur : Delegation) (rest others : List Delegation)
      → (Memᴰ x others → (x ≡ d) ⊎ Memᴰ x rest)
      → Memᴰ x (cur ∷ others)
      → (x ≡ d) ⊎ Memᴰ x (cur ∷ rest)
  from_rest cur rest others from (Memᴰ.head e) = inr (Memᴰ.head e)
  from_rest cur rest others from (Memᴰ.tail h) = elim (from h) [
    | inl new ↦ inl new
    | inr old ↦ inr (Memᴰ.tail old)
  ]

  pub consider_from : (best : List Delegation) → Memᴰ x (consider d best) → (x ≡ d) ⊎ Memᴰ x best
  unfolding consider
  consider_from [] (Memᴰ.head e) = inl e
  consider_from [] (Memᴰ.tail inside) = elim inside [ ]
  consider_from (cur ∷ rest) inside = elim (Bool-cases (same_key d cur)) [
    | inl same ↦ from_later cur rest (rw same at inside)
    | inr other ↦ from_rest cur rest (consider d rest) (consider_from rest) (rw other at inside)
  ]

-- No two delegations of the list have the same delegator and mint.
abbrev pub OnePerKey : List Delegation → Type 0
OnePerKey [] = Unit
OnePerKey (b ∷ bs) = ((x : Delegation) → Memᴰ x bs → same_key b x ≡ false) × OnePerKey bs

same_key_other :
    (d cur x : Delegation)
    → same_key d cur ≡ true
    → same_key cur x ≡ false
    → same_key (later d cur) x ≡ false
same_key_other d cur x h k = ground arith

same_key_sym_false : (d cur : Delegation) → same_key d cur ≡ false → same_key cur d ≡ false
same_key_sym_false d cur h = ground arith

pub consider-OnePerKey :
    (d : Delegation) (best : List Delegation) → OnePerKey best → OnePerKey (consider d best)
unfolding consider
consider-OnePerKey d [] h = (λ x inside. elim inside [ ], tt)
consider-OnePerKey d (cur ∷ rest) h = elim (Bool-cases (same_key d cur)) [
  | inl same ↦ rw same (λ x inside. same_key_other d cur x same (h.0 x inside), h.1)
  | inr other ↦ rw other (
    λ x inside. elim (consider_from d x rest inside) [
      | inl new ↦ subst (λ y. same_key cur y ≡ false) (sym new) (same_key_sym_false d cur other)
      | inr old ↦ h.0 x old
    ],
    consider-OnePerKey d rest h.1,
  )
]

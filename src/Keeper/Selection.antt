-- ===== src/Keeper/Selection.antt =====
-- keeper/native/daemon.mjs: which delegations `tick` cranks.
use mathlib.Core.List.{Memᴰ}
use solana_recurring_buy.Prelude.{
  false, refl, ◌≡◌, sym, ◌∙◌, ap, subst, true, List, [], ◌∷◌, ◌⊎◌, inl, inr, Bool-cases,
  if◌then◌else◌,
}
use solana_recurring_buy.Keeper.{Fixtures, Delegation}
use solana_recurring_buy.Keeper.Tick.{is_relevant, consider, select}
use solana_recurring_buy.Keeper.Consider.{
  Covered, OnePerKey, consider_new, consider_keeps, consider_from, consider-OnePerKey,
}

module _ (f : Fixtures) where
  select_keeps :
      (x : Delegation) (best dels : List Delegation)
      → Covered x best
      → Covered x (select f best dels)
  unfolding select
  select_keeps x best [] c = c
  select_keeps x best (d ∷ dels) c = elim (Bool-cases (is_relevant f d)) [
    | inl wanted ↦ rw wanted (
        select_keeps x (consider d best) dels
          (consider_keeps d x best c.value c.inside c.same c.no_earlier))
    | inr foreign ↦ rw foreign (select_keeps x best dels c)
  ]

  select_covers :
      (x : Delegation) (best dels : List Delegation)
      → Memᴰ x dels
      → is_relevant f x ≡ true
      → Covered x (select f best dels)
  unfolding select
  select_covers x best [] inside wanted = elim inside [ ]
  select_covers x best (d ∷ dels) (Memᴰ.head e) wanted =
      let relevant : is_relevant f d ≡ true = ap (is_relevant f) (sym e) ∙ wanted in
      rw relevant (
        select_keeps x (consider d best) dels
          (subst (λ y. Covered y (consider d best)) (sym e) (consider_new d best)))
  select_covers x best (d ∷ dels) (Memᴰ.tail inside) wanted =
      select_covers x (if is_relevant f d then consider d best else best) dels inside wanted

  select_from :
      (x : Delegation) (best dels : List Delegation)
      → Memᴰ x (select f best dels)
      → Memᴰ x best ⊎ (Memᴰ x dels × (is_relevant f x ≡ true))
  unfolding select
  select_from x best [] inside = inl inside
  select_from x best (d ∷ dels) inside = elim (Bool-cases (is_relevant f d)) [
    | inl wanted ↦ elim (select_from x (consider d best) dels (rw wanted at inside)) [
      | inl earlier ↦ elim (consider_from d x best earlier) [
        | inl new ↦ inr (Memᴰ.head new, ap (is_relevant f) new ∙ wanted)
        | inr old ↦ inl old
      ]
      | inr (later_on, relevant) ↦ inr (Memᴰ.tail later_on, relevant)
    ]
    | inr foreign ↦ elim (select_from x best dels (rw foreign at inside)) [
      | inl earlier ↦ inl earlier
      | inr (later_on, relevant) ↦ inr (Memᴰ.tail later_on, relevant)
    ]
  ]

  select-OnePerKey : (best dels : List Delegation) → OnePerKey best → OnePerKey (select f best dels)
  unfolding select
  select-OnePerKey best [] h = h
  select-OnePerKey best (d ∷ dels) h = elim (Bool-cases (is_relevant f d)) [
    | inl wanted ↦ rw wanted (select-OnePerKey (consider d best) dels (consider-OnePerKey d best h))
    | inr foreign ↦ rw foreign (select-OnePerKey best dels h)
  ]

  -- Every delegation of a list is one that the node listed, of one of the two mints.
  abbrev pub ListedIn : List Delegation → List Delegation → Type 0
  ListedIn dels [] = Unit
  ListedIn dels (b ∷ bs) = Memᴰ b dels × (is_relevant f b ≡ true) × ListedIn dels bs

  -- Every delegation of one of the two mints has in `best` one of the same delegator and mint that
  -- expires no earlier.
  abbrev pub AllCovered : List Delegation → List Delegation → Type 0
  AllCovered best [] = Unit
  AllCovered best (d ∷ ds) = ((is_relevant f d ≡ false) ⊎ Covered d best) × AllCovered best ds

  all_listed :
      (dels bs : List Delegation)
      → ((x : Delegation) → Memᴰ x bs → Memᴰ x dels × (is_relevant f x ≡ true))
      → ListedIn dels bs
  all_listed dels [] each = tt
  all_listed dels (b ∷ bs) each =
      let (inside, wanted) = each b (Memᴰ.head refl) in
      (inside, wanted, all_listed dels bs (λ x h. each x (Memᴰ.tail h)))

  all_covered :
      (best ds : List Delegation)
      → ((x : Delegation) → Memᴰ x ds → is_relevant f x ≡ true → Covered x best)
      → AllCovered best ds
  all_covered best [] each = tt
  all_covered best (d ∷ ds) each = (
    elim (Bool-cases (is_relevant f d)) [
      | inl wanted ↦ inr (each d (Memᴰ.head refl) wanted)
      | inr foreign ↦ inl foreign
    ],
    all_covered best ds (λ x h. each x (Memᴰ.tail h)),
  )

  -- Of the delegations that the node lists, `tick` cranks only those of the two mints, one for each
  -- delegator and mint, and for each listed delegation of the two mints one of the same delegator and
  -- mint that expires no earlier.
  pub select_latest :
      (dels : List Delegation)
      → OnePerKey (select f [] dels)
        × ListedIn dels (select f [] dels)
        × AllCovered (select f [] dels) dels
  select_latest dels = (
    select-OnePerKey [] dels tt,
    all_listed dels (select f [] dels) (λ x inside. elim (select_from x [] dels inside) [
      | inl nothing ↦ elim nothing [ ]
      | inr found ↦ found
    ]),
    all_covered (select f [] dels) dels (λ x inside wanted. select_covers x [] dels inside wanted),
  )

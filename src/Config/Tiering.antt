-- ===== src/Config/Tiering.antt =====
-- Which models a legacy configuration puts into which tier, and in which order.
use llmsentinel_router.Prelude.{
  ℕ, ◌+◌, String, ◌==◌, ◌≡◌, refl, Bool, true, false, not, ◌&&◌, List, [], ◌∷◌, ◌++◌, if◌then◌else◌,
  arith, Bool-cases, Option-cases, inl, inr,
}
use llmsentinel_router.Prelude.Int.{ℤ, ◌≤ℤ◌}
use llmsentinel_router.Prelude.Text.{Strings, ◌<>◌}
use llmsentinel_router.Prelude.Map.{lookup}
use llmsentinel_router.Config.Settings.{Settings}
use llmsentinel_router.Config.Legacy.{
  LegacyModel, LegacyOrder, Collected, before, place, sort_onto, sort_legacy, ids, no_items,
  with_key, is_active, collect, collect_all, convert,
}

abbrev pub count : (LegacyOrder → Bool) → List LegacyOrder → ℕ
count p [] = 0
count p (x ∷ xs) = (if p x then 1 else 0) + count p xs

-- The items are in the order of their numbers.
abbrev StartsAbove : ℤ → List LegacyOrder → Type 0
StartsAbove n [] = Unit
StartsAbove n (x ∷ xs) = n ≤ℤ x.order

abbrev pub IsAscending : List LegacyOrder → Type 0
IsAscending [] = Unit
IsAscending (x ∷ xs) = StartsAbove x.order xs × IsAscending xs

place-StartsAbove :
    (n : ℤ) (x : LegacyOrder) (ys : List LegacyOrder)
    → n ≤ℤ x.order
    → StartsAbove n ys
    → StartsAbove n (place x ys)
unfolding place
place-StartsAbove n x [] h k = h
place-StartsAbove n x (y ∷ ys) h k = elim (Bool-cases (before x y)) [
  | inl e ↦ rw e h
  | inr e ↦ rw e k
]

before_le : (x y : LegacyOrder) → before x y ≡ true → x.order ≤ℤ y.order
unfolding before
before_le x y h = ground arith

not_before_le : (x y : LegacyOrder) → before x y ≡ false → y.order ≤ℤ x.order
unfolding before
not_before_le x y h = ground arith

place-IsAscending :
    (x : LegacyOrder) (ys : List LegacyOrder) → IsAscending ys → IsAscending (place x ys)
unfolding place
place-IsAscending x [] h = (tt, tt)
place-IsAscending x (y ∷ ys) h = elim (Bool-cases (before x y)) [
  | inl e ↦ rw e (before_le x y e, h)
  | inr e ↦
      rw e (place-StartsAbove y.order x ys (not_before_le x y e) h.0, place-IsAscending x ys h.1)
]

count-place :
    (p : LegacyOrder → Bool) (x : LegacyOrder) (ys : List LegacyOrder)
    → count p (place x ys) ≡ (if p x then 1 else 0) + count p ys
unfolding place
count-place p x [] = refl
count-place p x (y ∷ ys) = elim (Bool-cases (before x y)) [
  | inl e ↦ rw e refl
  | inr e ↦ rw e (omega (arith, count-place p x ys))
]

sort_onto-IsAscending :
    (sorted xs : List LegacyOrder) → IsAscending sorted → IsAscending (sort_onto sorted xs)
unfolding sort_onto
sort_onto-IsAscending sorted [] h = h
sort_onto-IsAscending sorted (x ∷ xs) h =
    sort_onto-IsAscending (place x sorted) xs (place-IsAscending x sorted h)

count-sort_onto :
    (p : LegacyOrder → Bool) (sorted xs : List LegacyOrder)
    → count p (sort_onto sorted xs) ≡ count p sorted + count p xs
unfolding sort_onto
count-sort_onto p sorted [] = omega arith
count-sort_onto p sorted (x ∷ xs) =
    omega (arith, count-sort_onto p (place x sorted) xs, count-place p x sorted)

count-append :
    (p : LegacyOrder → Bool) (xs : List LegacyOrder) (x : LegacyOrder)
    → count p (xs ++ x ∷ []) ≡ count p xs + (if p x then 1 else 0)
count-append p [] x = omega arith
count-append p (y ∷ ys) x = omega (arith, count-append p ys x)

module _ {F : Type 0} where
  -- The active models of the legacy configuration in a tier, counted by a test on their id and number.
  abbrev pub in_tier : Strings → Bool → (LegacyOrder → Bool) → List (String × LegacyModel F) → ℕ
  in_tier st strong p [] = 0
  in_tier st strong p ((id, m) ∷ es) =
      (if is_active st m
          && (if m.priority_group == "strong_tier" then strong else not strong)
          && p (record { id = id; order = m.order })
        then 1
        else 0)
      + in_tier st strong p es

  with_key-items :
      (s : Settings F) (provider : String) (c : Collected F)
      → ((with_key s provider c).weak_items ≡ c.weak_items)
        × ((with_key s provider c).strong_items ≡ c.strong_items)
  unfolding with_key
  with_key-items s provider c = elim (Option-cases (lookup (provider <> "_key") c.keys)) [
    | inl new ↦ (ground (arith, new), ground (arith, new))
    | inr (key, there) ↦ (ground (arith, there), ground (arith, there))
  ]

  -- One round of the loop.
  count-collect :
      (st : Strings) (s : Settings F) (id : String) (m : LegacyModel F) (c : Collected F)
      (p : LegacyOrder → Bool)
      → (count p (collect st s (id, m) c).weak_items
          ≡ count p c.weak_items + in_tier st false p ((id, m) ∷ []))
        × (count p (collect st s (id, m) c).strong_items
            ≡ count p c.strong_items + in_tier st true p ((id, m) ∷ []))
  unfolding collect
  count-collect st s id m c p =
      let item : LegacyOrder = record { id = id; order = m.order } in
      let (weak, strong) = with_key-items s m.provider c in
      elim (Bool-cases (is_active st m)) [
        | inr off ↦ (ground (arith, off), ground (arith, off))
        | inl on ↦ elim (Bool-cases (m.priority_group == "strong_tier")) [
          | inl high ↦ (
            ground (arith, on, high, weak),
            ground (arith, on, high, strong, count-append p c.strong_items item),
          )
          | inr low ↦ (
            ground (arith, on, low, weak, count-append p c.weak_items item),
            ground (arith, on, low, strong),
          )
        ]
      ]

  count-collect_all :
      (st : Strings) (s : Settings F) (es : List (String × LegacyModel F)) (c : Collected F)
      (p : LegacyOrder → Bool)
      → (count p (collect_all st s es c).weak_items ≡ count p c.weak_items + in_tier st false p es)
        × (count p (collect_all st s es c).strong_items
            ≡ count p c.strong_items + in_tier st true p es)
  unfolding collect_all
  count-collect_all st s [] c p = (omega arith, omega arith)
  count-collect_all st s ((id, m) ∷ es) c p =
      let (weak, strong) = count-collect_all st s es (collect st s (id, m) c) p in
      let (weak_one, strong_one) = count-collect st s id m c p in
      (omega (arith, weak, weak_one), omega (arith, strong, strong_one))

  -- The orders of the tiers of a converted configuration are the ids of items in the order of their
  -- numbers, among which each active model of the legacy configuration is as often as there: in the
  -- strong tier with the group "strong_tier", and in the weak one with any other; and no others are.
  pub convert-IsAscending :
      (st : Strings) (s : Settings F) (legacy : List (String × LegacyModel F))
      → (weak : List LegacyOrder) × (strong : List LegacyOrder) × ((convert st s legacy).weak_order
          ≡ ids weak)
        × ((convert st s legacy).strong_order ≡ ids strong)
        × IsAscending weak
        × IsAscending strong
        × ((p : LegacyOrder → Bool)
            → (count p weak ≡ in_tier st false p legacy)
              × (count p strong ≡ in_tier st true p legacy))
  unfolding convert sort_legacy no_items
  convert-IsAscending st s legacy =
      let c = collect_all st s legacy no_items in
      (
        sort_legacy c.weak_items,
        sort_legacy c.strong_items,
        refl,
        refl,
        sort_onto-IsAscending [] c.weak_items tt,
        sort_onto-IsAscending [] c.strong_items tt,
        λ p.
            let (weak, strong) = count-collect_all st s legacy no_items p in
            (
              omega (arith, count-sort_onto p [] c.weak_items, weak),
              omega (arith, count-sort_onto p [] c.strong_items, strong),
            ),
      )

-- ===== src/Router/Keys.antt =====
-- orderedKeys of internal/router/router.go: the keys of a model in the order of their priorities. A
-- key is a pair of its priority and its value.
use llmsentinel_router.Prelude.{
  ℕ, zero, suc, ◌+◌, String, ◌≡◌, refl, Bool, none, some, List, [], ◌∷◌, if◌then◌else◌, arith,
  Bool-cases, length, map, inl, inr,
}
use llmsentinel_router.Prelude.Int.{ℤ, ltb_ℤ, ◌≤ℤ◌}
use llmsentinel_router.Config.{ModelDefinition, SentinelConfig, instances_of, usable_key}

-- The inner loop, for one `i`: what it leaves in `items[i]`, which is `x` at first, and in the items
-- after it.
unfoldable pub settle : ℤ × String → List (ℤ × String) → (ℤ × String) × List (ℤ × String)
settle x [] = (x, [])
settle x (y ∷ ys) =
    let swapped = settle y ys in
    let kept = settle x ys in
    if ltb_ℤ y.0 x.0 then (swapped.0, x ∷ swapped.1) else (kept.0, y ∷ kept.1)

-- The outer loop, which has `n` values of `i` left.
unfoldable pub exchange_sort : ℕ → List (ℤ × String) → List (ℤ × String)
unfolding settle
exchange_sort zero items = items
exchange_sort (suc n) [] = []
exchange_sort (suc n) (x ∷ xs) = let s = settle x xs in s.0 ∷ exchange_sort n s.1

abbrev pub value_of : ℤ × String → String
value_of k = k.1

module _ {F : Type 0} where
  unfoldable pub usable_keys : SentinelConfig F → List String → List (ℤ × String)
  unfolding usable_key
  usable_keys cfg [] = []
  usable_keys cfg (id ∷ ids) = elim (usable_key cfg id) [
    | none ↦ usable_keys cfg ids
    | some k ↦ k ∷ usable_keys cfg ids
  ]

  unfoldable pub ordered_keys : SentinelConfig F → ModelDefinition F → List String
  unfolding usable_keys exchange_sort instances_of
  ordered_keys cfg model =
      let items = usable_keys cfg (instances_of model) in
      map value_of (exchange_sort (length items) items)

-- Every item's priority is at least `p`.
abbrev pub AllFrom : ℤ → List (ℤ × String) → Type 0
AllFrom p [] = Unit
AllFrom p (x ∷ xs) = (p ≤ℤ x.0) × AllFrom p xs

abbrev pub IsSorted : List (ℤ × String) → Type 0
IsSorted [] = Unit
IsSorted (x ∷ xs) = AllFrom x.0 xs × IsSorted xs

-- The number of items that pass a test.
abbrev pub count : (ℤ × String → Bool) → List (ℤ × String) → ℕ
count p [] = 0
count p (x ∷ xs) = (if p x then 1 else 0) + count p xs

AllFrom-weaken : (p q : ℤ) (xs : List (ℤ × String)) → q ≤ℤ p → AllFrom p xs → AllFrom q xs
AllFrom-weaken p q [] h a = tt
AllFrom-weaken p q (x ∷ xs) h (first, rest) = (ground (arith, first), AllFrom-weaken p q xs h rest)

settle-least :
    (x : ℤ × String) (xs : List (ℤ × String))
    → ((settle x xs).0.0 ≤ℤ x.0) × AllFrom (settle x xs).0.0 (settle x xs).1
unfolding settle
settle-least x [] = (ground arith, tt)
settle-least x (y ∷ ys) =
    let swapped = settle-least y ys in
    let kept = settle-least x ys in
    elim (Bool-cases (ltb_ℤ y.0 x.0)) [
      | inl less ↦ rw less (ground arith, (ground arith, swapped.1))
      | inr not_less ↦ rw not_less (kept.0, (ground arith, kept.1))
    ]

settle-count :
    (p : ℤ × String → Bool) (x : ℤ × String) (xs : List (ℤ × String))
    → count p ((settle x xs).0 ∷ (settle x xs).1) ≡ count p (x ∷ xs)
unfolding settle
settle-count p x [] = refl
settle-count p x (y ∷ ys) = ground (arith, settle-count p x ys, settle-count p y ys)

settle-length : (x : ℤ × String) (xs : List (ℤ × String)) → length (settle x xs).1 ≡ length xs
unfolding settle
settle-length x [] = refl
settle-length x (y ∷ ys) = ground (arith, settle-length x ys, settle-length y ys)

exchange_sort-count :
    (p : ℤ × String → Bool) (n : ℕ) (xs : List (ℤ × String))
    → count p (exchange_sort n xs) ≡ count p xs
unfolding exchange_sort
exchange_sort-count p zero xs = refl
exchange_sort-count p (suc n) [] = refl
exchange_sort-count p (suc n) (x ∷ xs) =
    omega (arith, exchange_sort-count p n (settle x xs).1, settle-count p x xs)

AllFrom-settle :
    (q : ℤ) (x : ℤ × String) (xs : List (ℤ × String))
    → AllFrom q (x ∷ xs)
    → AllFrom q ((settle x xs).0 ∷ (settle x xs).1)
unfolding settle
AllFrom-settle q x [] a = a
AllFrom-settle q x (y ∷ ys) (first, (second, rest)) =
    let swapped = AllFrom-settle q y ys (second, rest) in
    let kept = AllFrom-settle q x ys (first, rest) in
    elim (Bool-cases (ltb_ℤ y.0 x.0)) [
      | inl less ↦ rw less (swapped.0, (first, swapped.1))
      | inr not_less ↦ rw not_less (kept.0, (second, kept.1))
    ]

AllFrom-exchange_sort :
    (q : ℤ) (n : ℕ) (xs : List (ℤ × String)) → AllFrom q xs → AllFrom q (exchange_sort n xs)
unfolding exchange_sort
AllFrom-exchange_sort q zero xs a = a
AllFrom-exchange_sort q (suc n) [] a = tt
AllFrom-exchange_sort q (suc n) (x ∷ xs) a =
    let s = AllFrom-settle q x xs a in (s.0, AllFrom-exchange_sort q n (settle x xs).1 s.1)

exchange_sort-IsSorted :
    (n : ℕ) (xs : List (ℤ × String)) → length xs ≡ n → IsSorted (exchange_sort n xs)
unfolding exchange_sort
exchange_sort-IsSorted zero [] h = tt
exchange_sort-IsSorted zero (x ∷ xs) h = absurd (omega arith)
exchange_sort-IsSorted (suc n) [] h = tt
exchange_sort-IsSorted (suc n) (x ∷ xs) h = (
  AllFrom-exchange_sort (settle x xs).0.0 n (settle x xs).1 (settle-least x xs).1,
  exchange_sort-IsSorted n (settle x xs).1 (omega (arith, settle-length x xs)),
)

module _ {F : Type 0} where
  -- The keys of a model, in the order in which they are tried, are the values of a list of its usable
  -- keys that is sorted by priority and has each of them as often as the model's instances do.
  pub ordered_keys-IsSorted :
      (cfg : SentinelConfig F) (model : ModelDefinition F)
      → (items : List (ℤ × String)) × (ordered_keys cfg model ≡ map value_of items)
        × IsSorted items
        × ((p : ℤ × String → Bool) → count p items ≡ count p (usable_keys cfg (instances_of model)))
  unfolding ordered_keys
  ordered_keys-IsSorted cfg model =
      let items = usable_keys cfg (instances_of model) in
      (
        exchange_sort (length items) items,
        refl,
        exchange_sort-IsSorted (length items) items refl,
        λ p. exchange_sort-count p (length items) items,
      )

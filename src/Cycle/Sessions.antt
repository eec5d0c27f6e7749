-- ===== src/Cycle/Sessions.antt =====
-- The registry of detectors: its order and its map name the same sessions, each once, and no more
-- than its size.
use llmsentinel_router.Prelude.{
  ℕ, suc, ◌+◌, ◌≤◌, ◌<◌, String, ◌==◌, eq_iff, eq_refl, ◌≡◌, refl, true, Option, none, some, List,
  [], ◌∷◌, ◌++◌, if◌then◌else◌, arith, inl, inr, Bool-cases, Option-cases, length, length-append,
}
use llmsentinel_router.Prelude.Int.{ℤ, pos, pos_part, leb_ℤ}
use llmsentinel_router.Prelude.Map.{Map, lookup, insert, delete, lookup-insert, lookup-delete}
use llmsentinel_router.Cycle.{
  Detector, Registry, new_registry, new_detector, remove_first, occurs, touch, evict, get,
}

-- How often a session stands in the order, and whether the map has it, as a number.
abbrev pub count : String → List String → ℕ
count id [] = 0
count id (x ∷ xs) = let rest = count id xs in if x == id then suc rest else rest

abbrev pub present : Option Detector → ℕ
present none = 0
present (some d) = 1

abbrev pub SameSessions : List String → Map Detector → Type 0
SameSessions order detectors = (id : String) → count id order ≡ present (lookup id detectors)

pub record IsValid (r : Registry) : Type 0 where
  pub positive : 0 < pos_part r.max_size
  pub bounded : length r.order ≤ pos_part r.max_size
  pub same : SameSessions r.order r.detectors

count-append : (id : String) (xs ys : List String) → count id (xs ++ ys) ≡ count id xs + count id ys
count-append id [] ys = omega arith
count-append id (x ∷ xs) ys = ground (arith, count-append id xs ys)

occurs-count : (id : String) (xs : List String) → 0 < count id xs → occurs id xs ≡ true
unfolding occurs
occurs-count id [] h = absurd (omega arith)
occurs-count id (x ∷ xs) h = ground (arith, occurs-count id xs)

count-remove_first :
    (id j : String) (xs : List String)
    → occurs id xs ≡ true
    → count j (remove_first id xs) + (if id == j then 1 else 0) ≡ count j xs
unfolding remove_first occurs
count-remove_first id j [] h = cc
count-remove_first id j (x ∷ xs) h =
    ground (arith, eq_iff x id, eq_iff id j, eq_iff x j, count-remove_first id j xs)

length-remove_first :
    (id : String) (xs : List String)
    → occurs id xs ≡ true
    → suc (length (remove_first id xs)) ≡ length xs
unfolding remove_first occurs
length-remove_first id [] h = cc
length-remove_first id (x ∷ xs) h = ground (arith, length-remove_first id xs)

-- Touching a session moves it and keeps the counts.
count-touch : (id j : String) (xs : List String) → count j (touch id xs) ≡ count j xs
unfolding touch
count-touch id j xs =
    ground (arith, count-append j (remove_first id xs) (id ∷ []), count-remove_first id j xs)

length-touch : (id : String) (xs : List String) → length (touch id xs) ≡ length xs
unfolding touch
length-touch id xs =
    ground (arith, length-append (remove_first id xs) (id ∷ []), length-remove_first id xs)

-- Making room keeps the order and the map together, and leaves a place.
evict-SameSessions :
    (n : ℤ) (order : List String) (m : Map Detector)
    → SameSessions order m
    → SameSessions (evict n order m).0 (evict n order m).1
unfolding evict
evict-SameSessions n [] m h = h
evict-SameSessions n (x ∷ xs) m h = elim (Bool-cases (leb_ℤ n (pos (length (x ∷ xs))))) [
  | inl full ↦ rw full (evict-SameSessions n xs (delete x m) fewer)
  | inr room ↦ rw room h
]
  where
    fewer : SameSessions xs (delete x m)
    fewer j = ground (arith, h j, h x, lookup-delete x j m, eq_iff x j, eq_refl x)

length-evict :
    (n : ℤ) (order : List String) (m : Map Detector)
    → 0 < pos_part n
    → suc (length (evict n order m).0) ≤ pos_part n
unfolding evict
length-evict n [] m h = ground arith
length-evict n (x ∷ xs) m h = ground (arith, length-evict n xs (delete x m) h)

-- A session that was not there is not there after making room.
evict-absent :
    (n : ℤ) (order : List String) (m : Map Detector) (id : String)
    → lookup id m ≡ none
    → lookup id (evict n order m).1 ≡ none
unfolding evict
evict-absent n [] m id h = h
evict-absent n (x ∷ xs) m id h =
    ground (arith, evict-absent n xs (delete x m) id, lookup-delete x id m)

-- A new registry is valid.
pub new_registry-IsValid :
    (size threshold hashes : ℤ) → IsValid (new_registry size threshold hashes)
unfolding new_registry lookup
new_registry-IsValid size threshold hashes = record {
  positive = ground arith;
  bounded = ground arith;
  same = λ id. refl;
}

-- `Get` keeps the registry valid.
pub get-IsValid : (id : String) (r : Registry) → IsValid r → IsValid (get id r).0
unfolding get
get-IsValid id r v = elim (Option-cases (lookup id r.detectors)) [
  | inr (d, here) ↦
      rw (here, get)
        (record {
          positive = v.positive;
          bounded = omega (arith, length-touch id r.order, v.bounded);
          same = λ j. omega (arith, count-touch id j r.order, v.same j);
        })
  | inl gone ↦
      rw (gone, get)
        (inserted (evict r.max_size r.order r.detectors).0 (evict r.max_size r.order r.detectors).1
          (evict-SameSessions r.max_size r.order r.detectors v.same)
          (length-evict r.max_size r.order r.detectors v.positive)
          (evict-absent r.max_size r.order r.detectors id gone))
]
  where
    inserted :
        (order : List String) (m : Map Detector)
        → SameSessions order m
        → suc (length order) ≤ pos_part r.max_size
        → lookup id m ≡ none
        → IsValid (record r {
          order = order ++ id ∷ [];
          detectors = insert id (new_detector id r.threshold r.max_hashes) m;
        })
    inserted order m same room absent = record {
      positive = v.positive;
      bounded = omega (arith, length-append order (id ∷ []));
      same = λ j.
          let d = new_detector id r.threshold r.max_hashes in
          ground (
            arith,
            count-append j order (id ∷ []),
            same j,
            lookup-insert id j d m,
            eq_iff id j,
            absent,
            same id,
          );
    }

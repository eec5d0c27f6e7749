-- ===== src/Rate/Events.antt =====
-- The events of a sliding window: what `trim_events` leaves of a list that is in the order of time.
use llmsentinel_router.Prelude.{
  ℕ, ◌≤◌, ◌≡◌, refl, List, [], ◌∷◌, ◌++◌, if◌then◌else◌, arith, ltb, Bool-cases, inl, inr,
}
use llmsentinel_router.Rate.{Event, trim_events}

-- The events that are not before a cutoff: the meaning of a window, with no regard to order.
unfoldable pub recent : ℕ → List Event → List Event
recent c [] = []
recent c (e ∷ es) = let rest = recent c es in if ltb e.at c then rest else e ∷ rest

-- In the order of time, from `lo` on.
abbrev pub Ascending : ℕ → List Event → Type 0
Ascending lo [] = Unit
Ascending lo (e ∷ es) = (lo ≤ e.at) × Ascending e.at es

-- No later than `t`.
abbrev pub UpTo : ℕ → List Event → Type 0
UpTo t [] = Unit
UpTo t (e ∷ es) = (e.at ≤ t) × UpTo t es

recent_all : (c lo : ℕ) (es : List Event) → c ≤ lo → Ascending lo es → recent c es ≡ es
unfolding recent
recent_all c lo [] h a = refl
recent_all c lo (e ∷ es) h a = ground (arith, recent_all c e.at es (omega arith) a.1)

pub trim-recent : (c lo : ℕ) (es : List Event) → Ascending lo es → trim_events es c ≡ recent c es
unfolding trim_events recent
trim-recent c lo [] a = refl
trim-recent c lo (e ∷ es) a = ground (arith, trim-recent c e.at es a.1, recent_all c e.at es)

pub recent-append : (c : ℕ) (xs ys : List Event) → recent c (xs ++ ys) ≡ recent c xs ++ recent c ys
unfolding recent
recent-append c [] ys = refl
recent-append c (x ∷ xs) ys = ground (arith, recent-append c xs ys)

-- A later cutoff sees nothing of an earlier one.
pub recent-recent : (c d : ℕ) (es : List Event) → c ≤ d → recent d (recent c es) ≡ recent d es
unfolding recent
recent-recent c d [] h = refl
recent-recent c d (e ∷ es) h = ground (arith, recent-recent c d es h)

pub Ascending-recent : (c lo : ℕ) (es : List Event) → Ascending lo es → Ascending lo (recent c es)
unfolding recent
Ascending-recent c lo [] a = tt
Ascending-recent c lo (e ∷ es) a = elim (Bool-cases (ltb e.at c)) [
  | inl old ↦ rw old (Ascending_weaken lo e.at (recent c es) a.0 (Ascending-recent c e.at es a.1))
  | inr new ↦ rw new (a.0, Ascending-recent c e.at es a.1)
]
  where
    Ascending_weaken :
        (lo lo' : ℕ) (xs : List Event) → lo ≤ lo' → Ascending lo' xs → Ascending lo xs
    Ascending_weaken lo lo' [] h b = tt
    Ascending_weaken lo lo' (x ∷ xs) h b = (omega arith, b.1)

pub UpTo-recent : (c t : ℕ) (es : List Event) → UpTo t es → UpTo t (recent c es)
unfolding recent
UpTo-recent c t [] u = tt
UpTo-recent c t (e ∷ es) u = elim (Bool-cases (ltb e.at c)) [
  | inl old ↦ rw old (UpTo-recent c t es u.1)
  | inr new ↦ rw new (u.0, UpTo-recent c t es u.1)
]

pub UpTo-later : (t t' : ℕ) (es : List Event) → t ≤ t' → UpTo t es → UpTo t' es
UpTo-later t t' [] h u = tt
UpTo-later t t' (e ∷ es) h u = (omega arith, UpTo-later t t' es h u.1)

pub UpTo-append :
    (t : ℕ) (es : List Event) (e : Event) → UpTo t es → e.at ≤ t → UpTo t (es ++ e ∷ [])
UpTo-append t [] e u h = (h, tt)
UpTo-append t (x ∷ es) e u h = (u.0, UpTo-append t es e u.1 h)

pub Ascending-append :
    (lo t : ℕ) (es : List Event) (e : Event)
    → lo ≤ e.at
    → Ascending lo es
    → UpTo t es
    → t ≤ e.at
    → Ascending lo (es ++ e ∷ [])
Ascending-append lo t [] e k a u h = (k, tt)
Ascending-append lo t (x ∷ es) e k a u h =
    (a.0, Ascending-append x.at t es e (omega arith) a.1 u.1 h)

-- ===== src/Semantic/Routes.antt =====
-- What the semantic cache promises: counts that agree with the calls, and a route only where the
-- calls are enough, fresh, and mostly one way.
use llmsentinel_router.Prelude.{
  ◌⊎◌, ℕ, suc, ◌+◌, ◌<◌, String, ◌==◌, eq_iff, ◌≡◌, refl, ap, sym, ◌∙◌, subst, ltb→lt, Bool, true,
  false, not, ◌&&◌, Option, none, some, List, [], ◌∷◌, if◌then◌else◌, arith, inl, inr, Bool-cases,
  Option-cases, ltb,
}
use llmsentinel_router.Prelude.Int.{ℤ, pos, ◌+ℤ◌, ◌≤ℤ◌, ltb_ℤ}
use llmsentinel_router.Prelude.Float.{Float64, IsOrdered, ◌≼◌}
use llmsentinel_router.Prelude.Map.{lookup, lookup-insert}
use llmsentinel_router.Semantic.Cache.{
  Stats, Cache, confidence, route_of, confident_route, record_call,
}

-- One call as it is recorded.
pub record Call (F : Type 0) : Type 0 where
  pub hash : String
  pub model : String
  pub route : String
  pub latency : F
  pub judged : Bool
  pub cost : F
  pub tokens : ℤ
  pub at : ℕ

module _ {F : Type 0} ⦃fl : Float64 F⦄ where
  -- Record for each call of a list, in order.
  unfoldable pub record_all : List (Call F) → Cache F → Cache F
  record_all [] c = c
  record_all (x ∷ xs) c =
      record_all xs (record_call x.hash x.model x.route x.latency x.judged x.cost x.tokens x.at c)

  -- How many calls of a list have a hash, and how many of those a strong route.
  abbrev pub calls_of : String → List (Call F) → ℕ
  calls_of h [] = 0
  calls_of h (x ∷ xs) = let rest = calls_of h xs in if x.hash == h then suc rest else rest

  abbrev pub strong_of : String → List (Call F) → ℕ
  strong_of h [] = 0
  strong_of h (x ∷ xs) =
      let rest = strong_of h xs in if x.hash == h && x.route == "strong" then suc rest else rest

  -- The counts of a hash: of calls, of strong ones and of weak ones; all 0 where there is no entry.
  abbrev pub counts : Option (Stats F) → ℕ × ℕ × ℕ
  counts none = (0, 0, 0)
  counts (some s) = (s.total_calls, s.strong_calls, s.weak_calls)

  -- What one call adds to the counts of a hash.
  abbrev more : String → Call F → ℕ × ℕ × ℕ → ℕ × ℕ × ℕ
  more h x (n, strong, weak) =
      if x.hash == h
      then if x.route == "strong" then (suc n, suc strong, weak) else (suc n, strong, suc weak)
      else (n, strong, weak)

  counts-record_call :
      (x : Call F) (h : String) (c : Cache F)
      → counts (
          lookup h
            (record_call x.hash x.model x.route x.latency x.judged x.cost x.tokens x.at c).stats)
        ≡ more h x (counts (lookup h c.stats))
  unfolding record_call
  counts-record_call x h c = elim (Bool-cases (x.hash == h)) [
    | inl same ↦
        let e : x.hash ≡ h = (eq_iff x.hash h).0 same in
        rw (lookup-insert, same, e)
          (elim (Option-cases (lookup h c.stats)) [
            | inl absent ↦ rw absent (ground arith)
            | inr (s, here) ↦ rw here (ground arith)
          ])
    | inr other ↦ rw (lookup-insert, other) refl
  ]

  -- How many calls of a list have a hash and a route that is not strong.
  abbrev pub weak_of : String → List (Call F) → ℕ
  weak_of h [] = 0
  weak_of h (x ∷ xs) =
      let rest = weak_of h xs in if x.hash == h && not (x.route == "strong") then suc rest else rest

  -- The counts of a hash after recording calls are those before with the calls of that hash added,
  -- a strong call to the strong count and any other to the weak one.
  pub counts-record_all :
      (xs : List (Call F)) (h : String) (c : Cache F)
      → let (n, strong, weak) = counts (lookup h c.stats) in
        counts (lookup h (record_all xs c).stats)
        ≡ (n + calls_of h xs, strong + strong_of h xs, weak + weak_of h xs)
  unfolding record_all
  counts-record_all [] h c = ground arith
  counts-record_all (x ∷ xs) h c =
      let c' = record_call x.hash x.model x.route x.latency x.judged x.cost x.tokens x.at c in
      ground (arith, counts-record_all xs h c', counts-record_call x h c)

  -- The cache is sure of a route for an entry: the calls are enough, the confidence is not below its
  -- threshold, and the route is that of the majority.
  abbrev pub IsSure : Cache F → Stats F → String → Type 0
  IsSure c s route =
      (ltb_ℤ (pos s.total_calls) c.min_samples ≡ false)
      × (fl.lt (confidence s) c.confidence_threshold ≡ false)
      × (((route ≡ "weak") × (s.strong_calls < s.weak_calls))
          ⊎ ((route ≡ "strong") × (s.weak_calls < s.strong_calls)))

  route_of-IsSure :
      (c : Cache F) (s : Stats F)
      → (route_of c.min_samples c.confidence_threshold (some s)).2 ≡ true
      → IsSure c s (route_of c.min_samples c.confidence_threshold (some s)).0
  unfolding route_of
  route_of-IsSure c s k = elim (Bool-cases (ltb s.strong_calls s.weak_calls)) [
    | inl weak ↦
        (ground (arith, k), ground (arith, k), inl (ground (arith, k, weak), ltb→lt _ _ weak))
    | inr x ↦ elim (Bool-cases (ltb s.weak_calls s.strong_calls)) [
      | inl strong ↦ (
        ground (arith, k),
        ground (arith, k),
        inr (ground (arith, k, x, strong), ltb→lt _ _ strong),
      )
      | inr y ↦ absurd (ground (arith, k, x, y))
    ]
  ]

  found_fresh :
      (h : String) (now : ℕ) (c : Cache F) (s : Stats F)
      → lookup h c.stats ≡ some s
      → pos now ≤ℤ pos s.last_called_at +ℤ c.ttl
      → let (route, conf, sure) = route_of c.min_samples c.confidence_threshold (some s) in
        confident_route h now c ≡ (c, route, conf, sure)
  unfolding confident_route
  found_fresh h now c s here fresh =
      let young : ltb_ℤ (pos s.last_called_at +ℤ c.ttl) (pos now) ≡ false = ground arith in
      ground (arith, here, young)

  not_found :
      (h : String) (now : ℕ) (c : Cache F) (s : Stats F)
      → lookup h c.stats ≡ some s
      → ltb_ℤ (pos s.last_called_at +ℤ c.ttl) (pos now) ≡ true
      → (confident_route h now c).3 ≡ false
  unfolding confident_route
  not_found h now c s here old = ground arith

  absent_not_sure :
      (h : String) (now : ℕ) (c : Cache F)
      → lookup h c.stats ≡ none
      → (confident_route h now c).3 ≡ false
  unfolding confident_route
  absent_not_sure h now c gone = ground arith

  -- A route that ConfidentRoute is sure of comes from an entry of the prompt that has not expired,
  -- with enough calls and confidence, and is the route of its majority.
  pub confident_route_sound :
      (h : String) (now : ℕ) (c : Cache F)
      → (confident_route h now c).3 ≡ true
      → (s : Stats F) × (lookup h c.stats ≡ some s)
        × (pos now ≤ℤ pos s.last_called_at +ℤ c.ttl)
        × IsSure c s (confident_route h now c).1
  confident_route_sound h now c sure = elim (Option-cases (lookup h c.stats)) [
    | inl absent ↦ absurd (cc (sure, absent_not_sure h now c absent))
    | inr (s, here) ↦ elim (Bool-cases (ltb_ℤ (pos s.last_called_at +ℤ c.ttl) (pos now))) [
      | inl expired ↦ absurd (cc (sure, not_found h now c s here expired))
      | inr fresh ↦
          let young : pos now ≤ℤ pos s.last_called_at +ℤ c.ttl = ground arith in
          let e = found_fresh h now c s here young in
          (
            s,
            here,
            young,
            subst (IsSure c s) (sym (ap (λ r. r.1) e))
                (route_of-IsSure c s (sym (ap (λ r. r.3) e) ∙ sure)),
          )
    ]
  ]

  -- And every entry that allows a route gives it.
  pub confident_route_complete :
      (h : String) (now : ℕ) (c : Cache F) (s : Stats F) (route : String)
      → lookup h c.stats ≡ some s
      → pos now ≤ℤ pos s.last_called_at +ℤ c.ttl
      → IsSure c s route
      → confident_route h now c ≡ (c, route, confidence s, true)
  unfolding route_of
  confident_route_complete h now c s route here fresh (enough, confident, inl (w, more_weak)) =
      ground (arith, found_fresh h now c s here fresh)
  confident_route_complete h now c s route here fresh (enough, confident, inr (w, more_strong)) =
      ground (arith, found_fresh h now c s here fresh)

module _ {F : Type 0} ⦃fl : Float64 F⦄ (o : IsOrdered F) where
  -- The confidence of an entry is a number of the unit interval, and at least one half where any
  -- call has been routed.
  pub confidence_half :
      (s : Stats F)
      → 0 < s.weak_calls + s.strong_calls
      → (fl.lit 5_000 ≼ confidence s) × (confidence s ≼ fl.lit 10_000)
  unfolding confidence
  confidence_half s h =
      let n = s.weak_calls + s.strong_calls in
      let m = if ltb s.weak_calls s.strong_calls then s.strong_calls else s.weak_calls in
      ground
        (arith, o.ratio_half m n (ground arith) (ground arith) h, o.ratio_unit m n (ground arith) h)
